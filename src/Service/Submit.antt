-- ===== src/Service/Submit.antt =====
-- Approving, rejecting and submitting (execution/demo/service.py, `approve`, `reject` and `submit`).
use alm_trading.Base.{
  ℕ, String, Bool, true, false, not, Option, none, some, List, [], ◌∷◌, ◌++◌, if◌then◌else◌,
  is_empty, Result, ok, raise,
}
use alm_trading.Float.{Float}
use alm_trading.Order.{DemoOrderRequest}
use alm_trading.Mode.{ExecutionMode, ModeDecision, resolve}
use alm_trading.Lifecycle.{DemoExecutionState, ExecutionLifecycle, advanced, advance_if_allowed}
use alm_trading.Gates.{DemoExecutionContext, GateChainDecision}
use alm_trading.Approval.{ExecutionProposal, is_proposed}
use alm_trading.Approval.Queue.{approve as approve_proposal, reject as reject_proposal}
use alm_trading.Service.{DemoService, DemoExecutionOutcome, World, lifecycle_or_new, put_lifecycle}
use alm_trading.Service.Propose.{propose}
use alm_trading.Service.Transmit.{transmit}

-- `if lifecycle.state is PROPOSED: lifecycle.advance(APPROVED, ...)`
unfoldable pub approve_lifecycle :
    ExecutionLifecycle → String → List String → ℕ → ExecutionLifecycle
approve_lifecycle l actor reasons now =
    if is_proposed l.state then advanced l DemoExecutionState.approved actor reasons now else l

-- the property `approved` of an outcome
abbrev pub outcome_approved : Option GateChainDecision → Bool
outcome_approved none = false
outcome_approved (some d) = d.approved

abbrev mode_blocks_code : String
mode_blocks_code = "MODE_BLOCKS_EXECUTION"

abbrev pub is_automated : ExecutionMode → Bool
is_automated ExecutionMode.demo_automated = true
is_automated _ = false

module _ {ℓ} {F : Type ℓ} where
  -- the lifecycle of a request, made as PROPOSED where there is none, and then approved
  unfoldable pub admitted : DemoService F → String → String → List String → ℕ → ExecutionLifecycle
  admitted s request_id actor reasons now =
      approve_lifecycle
        (lifecycle_or_new request_id DemoExecutionState.proposed [] now s.lifecycles) actor reasons
        now

  unfoldable pub admit : DemoService F → ExecutionLifecycle → DemoService F
  admit s l = record s { lifecycles = put_lifecycle l s.lifecycles }

  -- what follows the queue's answer
  unfoldable pub reject_answered :
      DemoService F
      → World F
      → String
      → String
      → Result (ExecutionProposal F)
      → DemoService F × Result (ExecutionProposal F)
  reject_answered s w reason actor (raise e) = (s, raise e)
  reject_answered s w reason actor (ok p) =
      let l =
        lifecycle_or_new p.request.request_id DemoExecutionState.proposed [] w.now s.lifecycles in
      let last = advance_if_allowed l DemoExecutionState.cancelled actor (reason ∷ []) w.now in
      (record s { lifecycles = put_lifecycle last s.lifecycles }, ok p)

  unfoldable pub reject :
      DemoService F
      → World F
      → String
      → String
      → String
      → DemoService F × Result (ExecutionProposal F)
  reject s w proposal_id reason actor =
      let rejected = reject_proposal proposal_id reason w.now s.approvals in
      reject_answered (record s { approvals = rejected.0 }) w reason actor rejected.1

module _ {ℓ} {F : Type ℓ} ⦃f : Float F⦄ where
  unfoldable pub approve_answered :
      DemoService F
      → World F
      → String
      → String
      → Result (ExecutionProposal F)
      → DemoService F × Result (DemoExecutionOutcome F)
  approve_answered s w approved_by reason (raise e) = (s, raise e)
  approve_answered s w approved_by reason (ok p) =
      let l = admitted s p.request.request_id approved_by (reason ∷ []) w.now in
      transmit (admit s l) w p.request (some p.decision) (some p) l approved_by

  -- `now` is the time that the caller may give for the approval itself
  unfoldable pub approve :
      DemoService F
      → World F
      → String
      → String
      → String
      → ℕ
      → DemoService F × Result (DemoExecutionOutcome F)
  approve s w proposal_id approved_by reason now =
      let signed = approve_proposal proposal_id approved_by reason now s.approvals in
      approve_answered (record s { approvals = signed.0 }) w approved_by reason signed.1

  -- what `submit` does with a proposal that the gates approved
  unfoldable pub submit_approved :
      DemoService F
      → World F
      → DemoOrderRequest F
      → DemoExecutionOutcome F
      → Result ModeDecision
      → DemoService F × Result (DemoExecutionOutcome F)
  submit_approved s w request outcome (raise e) = (s, raise e)
  submit_approved s w request outcome (ok mode) =
      let reasons = if is_empty outcome.reasons then mode_blocks_code ∷ [] else outcome.reasons in
      let l = admitted s request.request_id "automation" [] w.now in
      if is_automated mode.mode
      then transmit (admit s l) w request outcome.decision outcome.proposal l "automation"
      else if mode.requires_human_approval
      then (s, ok outcome)
      else (
        s,
        ok (record outcome {
          state = DemoExecutionState.blocked;
          reasons = reasons ++ (mode_blocks_code ∷ []);
        }),
      )

  unfoldable pub submit_proposed :
      DemoService F
      → World F
      → DemoOrderRequest F
      → Result (DemoExecutionOutcome F)
      → DemoService F × Result (DemoExecutionOutcome F)
  submit_proposed s w request (raise e) = (s, raise e)
  submit_proposed s w request (ok outcome) =
      if not (outcome_approved outcome.decision)
      then (s, ok outcome)
      else submit_approved s w request outcome (resolve s.default_mode s.settings)

  unfoldable pub submit :
      DemoService F
      → World F
      → DemoOrderRequest F
      → Option (DemoExecutionContext F)
      → DemoService F × Result (DemoExecutionOutcome F)
  submit s w request context =
      let proposed = propose s w request context in submit_proposed proposed.0 w request proposed.1
