-- ===== src/Service/Transmit.antt =====
-- The one place where an order reaches the client (execution/demo/service.py, `_transmit`). Where the
-- client raises, the service stays as it was at the call.
use alm_trading.Base.{
  ℕ, ◌+◌, String, Bool, true, false, not, Option, none, some, List, [], ◌∷◌, ◌++◌, if◌then◌else◌,
  Result, ok, raise,
}
use alm_trading.Float.{Float}
use alm_trading.Order.{DemoOrderRequest, to_order_request}
use alm_trading.Lifecycle.{DemoExecutionState, ExecutionLifecycle, advance_if_allowed}
use alm_trading.Idempotency.{register}
use alm_trading.Daily.{record_trade}
use alm_trading.Breaker.{is_open, blocking_reasons}
use alm_trading.Gates.{GateChainDecision}
use alm_trading.Approval.{ExecutionProposal, ManualApprovalQueue}
use alm_trading.Approval.Queue.{mark}
use alm_trading.Client.{
  OrderResult, ExecutionClient, ExecutionStatus, is_accepted, state_for_result,
}
use alm_trading.Client.Send.{send_market_order}
use alm_trading.Reconcile.{ReconciliationStatus, Position, is_matched, reconcile}
use alm_trading.Service.{DemoService, DemoExecutionOutcome, World, put_lifecycle}
use alm_trading.Service.Propose.{blocked_result}
use alm_trading.Service.Shutdown.{check_emergency}

-- `result.status is ExecutionStatus.FAILED`
abbrev pub is_failed : ExecutionStatus → Bool
is_failed ExecutionStatus.failed = true
is_failed _ = false

-- `record.status in {MISMATCHED, POSITION_MISSING}`
abbrev pub is_failure : ReconciliationStatus → Bool
is_failure ReconciliationStatus.mismatched = true
is_failure ReconciliationStatus.position_missing = true
is_failure _ = false

abbrev pub one_if : Bool → ℕ
one_if b = if b then 1 else 0

-- the lifecycle after the result and its reconciliation
unfoldable pub closing :
    ExecutionLifecycle
    → ExecutionStatus
    → List String
    → ReconciliationStatus
    → String
    → ℕ
    → ExecutionLifecycle
closing l status reasons reconciled actor now =
    let answered = advance_if_allowed l (state_for_result status) actor reasons now in
    if is_matched reconciled
    then advance_if_allowed answered DemoExecutionState.reconciled "reconciler" [] now
    else answered

module _ {ℓ} {F : Type ℓ} where
  abbrev pub lookup_position : World F → Option ℕ → Option (Position F)
  lookup_position w none = none
  lookup_position w (some ticket) = w.position ticket

  -- `if proposal is not None: self.approvals.mark(proposal.proposal_id, lifecycle.state)`
  unfoldable pub mark_proposal :
      Option (ExecutionProposal F)
      → DemoExecutionState
      → ManualApprovalQueue F
      → ManualApprovalQueue F
  mark_proposal none state q = q
  mark_proposal (some p) state q = (mark p.proposal_id state q).0

module _ {ℓ} {F : Type ℓ} ⦃f : Float F⦄ where
  -- the claim, the counters and the lifecycle, before the call of the client
  unfoldable pub begin :
      DemoService F → DemoOrderRequest F → ExecutionLifecycle → String → ℕ → DemoService F
  begin s request lifecycle actor now = record s {
    registry = (register s.registry request.request_id request.timestamp).0;
    daily = record_trade s.daily 1;
    submitted = s.submitted + 1;
    lifecycles =
        put_lifecycle (advance_if_allowed lifecycle DemoExecutionState.submitted actor [] now)
          s.lifecycles;
  }

  -- the counters after a result
  unfoldable pub counted : DemoService F → ExecutionStatus → ReconciliationStatus → DemoService F
  counted s status reconciled = record s {
    rejected = s.rejected + one_if (not (is_accepted status));
    execution_errors = s.execution_errors + one_if (is_failed status);
    reconciliation_failures = s.reconciliation_failures + one_if (is_failure reconciled);
  }

  -- `check_emergency`, which only a failed reconciliation calls
  unfoldable pub protected : DemoService F → World F → ReconciliationStatus → DemoService F
  protected s w reconciled = if is_failure reconciled then (check_emergency s w).0 else s

  -- from the client's result to the outcome
  unfoldable pub settle :
      DemoService F
      → World F
      → DemoOrderRequest F
      → GateChainDecision
      → Option (ExecutionProposal F)
      → ExecutionLifecycle
      → String
      → ExecutionClient F
      → OrderResult F
      → DemoService F × DemoExecutionOutcome F
  settle s w request decision proposal lifecycle actor client result =
      let position = lookup_position w result.broker_ticket in
      let reconciliation = reconcile s.reconciler (to_order_request request) result position in
      let tally = counted s result.status reconciliation.status in
      let safe = protected tally w reconciliation.status in
      let last = closing lifecycle result.status result.reasons reconciliation.status actor w.now in
      (
        record tally {
          client = client;
          breaker = safe.breaker;
          switch = safe.switch;
          lifecycles = put_lifecycle last s.lifecycles;
          approvals = mark_proposal proposal last.state s.approvals;
        },
        record {
          request = request;
          state = last.state;
          decision = some decision;
          proposal = proposal;
          result = some result;
          reconciliation = some reconciliation;
          position = position;
          lifecycle = some last;
          reasons = result.reasons;
        },
      )

  -- a request that is not sent
  unfoldable pub refuse :
      DemoService F
      → World F
      → DemoOrderRequest F
      → Option GateChainDecision
      → Option (ExecutionProposal F)
      → ExecutionLifecycle
      → String
      → Option (OrderResult F)
      → List String
      → DemoService F × DemoExecutionOutcome F
  refuse s w request decision proposal lifecycle actor result reasons =
      let last = advance_if_allowed lifecycle DemoExecutionState.blocked actor reasons w.now in
      (
        record s { lifecycles = put_lifecycle last s.lifecycles },
        record {
          request = request;
          state = DemoExecutionState.blocked;
          decision = decision;
          proposal = proposal;
          result = result;
          reconciliation = none;
          position = none;
          lifecycle = some last;
          reasons = reasons;
        },
      )

  -- what follows the call of the client
  unfoldable pub finish :
      DemoService F
      → World F
      → DemoOrderRequest F
      → GateChainDecision
      → Option (ExecutionProposal F)
      → ExecutionLifecycle
      → String
      → Result (ExecutionClient F × OrderResult F)
      → DemoService F × Result (DemoExecutionOutcome F)
  finish s w request decision proposal lifecycle actor (raise e) = (s, raise e)
  finish s w request decision proposal lifecycle actor (ok out) =
      let settled = settle s w request decision proposal lifecycle actor out.0 out.1 in
      (settled.0, ok settled.1)

  -- an approved request, while the breaker is closed
  unfoldable pub send :
      DemoService F
      → World F
      → DemoOrderRequest F
      → GateChainDecision
      → Option (ExecutionProposal F)
      → ExecutionLifecycle
      → String
      → DemoService F × Result (DemoExecutionOutcome F)
  send s w request decision proposal lifecycle actor =
      finish (begin s request lifecycle actor w.now) w request decision proposal
        (advance_if_allowed lifecycle DemoExecutionState.submitted actor [] w.now) actor
        (send_market_order s.client w.terminal (to_order_request request) (some decision.guard))

  -- with the lifecycle that the caller gives
  unfoldable pub transmit :
      DemoService F
      → World F
      → DemoOrderRequest F
      → Option GateChainDecision
      → Option (ExecutionProposal F)
      → ExecutionLifecycle
      → String
      → DemoService F × Result (DemoExecutionOutcome F)
  transmit s w request none proposal l actor =
      let refused = refuse s w request none proposal l actor none ("GATE_DECISION_MISSING" ∷ []) in
      (refused.0, ok refused.1)
  transmit s w request (some d) proposal l actor =
      let blocked = some (blocked_result s request d.reasons) in
      let refused = refuse s w request (some d) proposal l actor blocked d.reasons in
      let reasons = blocking_reasons s.breaker in
      let held = some (blocked_result s request (d.reasons ++ reasons)) in
      let stopped = refuse s w request (some d) proposal l actor held reasons in
      if not d.approved
      then (refused.0, ok refused.1)
      else if is_open s.breaker
      then (stopped.0, ok stopped.1)
      else send s w request d proposal l actor
