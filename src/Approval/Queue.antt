-- ===== src/Approval/Queue.antt =====
-- The operations of the queue (execution/demo/approval.py). An operation returns the queue as it
-- leaves it, also where it raises.
use alm_trading.Base.{
  ℕ, ◌+◌, String, not, Option, none, some, List, if◌then◌else◌, is_empty, is_blank, strip, join,
  Result, ok, raise, value_error, approval_refused,
}
use alm_trading.Lifecycle.{DemoExecutionState}
use alm_trading.Order.{DemoOrderRequest}
use alm_trading.Gates.{GateChainDecision}
use alm_trading.Approval.{
  ExecutionProposal, ManualApprovalQueue, is_proposed, is_blocked, expired, saved, get,
}

-- `", ".join(reasons) or None`
abbrev stated : List String → Option String
stated reasons = if is_empty reasons then none else some (join ", " reasons)

module _ {ℓ} {F : Type ℓ} where
  -- A proposal that the gates refused is recorded as BLOCKED.
  unfoldable pub propose :
      DemoOrderRequest F
      → GateChainDecision
      → ℕ
      → String
      → ManualApprovalQueue F
      → ManualApprovalQueue F × ExecutionProposal F
  propose request decision now mode q =
      let proposal : ExecutionProposal F = record {
        proposal_id = request.request_id;
        request = request;
        decision = decision;
        state =
            if decision.approved then DemoExecutionState.proposed else DemoExecutionState.blocked;
        created_at = now;
        expires_at = now + q.ttl;
        approved_by = none;
        approved_at = none;
        approval_reason = none;
        rejected_reason = if decision.approved then none else stated decision.reasons;
        mode = mode;
      } in
      (saved q proposal, proposal)

  abbrev pub expire : ExecutionProposal F → ExecutionProposal F
  expire p = record p {
    state = DemoExecutionState.cancelled;
    rejected_reason = some "PROPOSAL_EXPIRED";
  }

  abbrev pub accept : String → String → ℕ → ExecutionProposal F → ExecutionProposal F
  accept approved_by reason now p = record p {
    state = DemoExecutionState.approved;
    approved_by = some approved_by;
    approved_at = some now;
    approval_reason = some reason;
  }

  -- the checks on the proposal that `approve` found
  unfoldable pub approve_found :
      String
      → String
      → ℕ
      → ManualApprovalQueue F
      → Option (ExecutionProposal F)
      → ManualApprovalQueue F × Result (ExecutionProposal F)
  approve_found approved_by reason now q none = (q, raise (approval_refused "PROPOSAL_NOT_FOUND"))
  approve_found approved_by reason now q (some p) =
      let accepted = accept approved_by reason now p in
      if is_blocked p.state
      then (q, raise (approval_refused "PROPOSAL_BLOCKED"))
      else if not (is_proposed p.state)
      then (q, raise (approval_refused "PROPOSAL_NOT_PENDING"))
      else if expired p now
      then (saved q (expire p), raise (approval_refused "PROPOSAL_EXPIRED"))
      else (saved q accepted, ok accepted)

  unfoldable pub approve :
      String
      → String
      → String
      → ℕ
      → ManualApprovalQueue F
      → ManualApprovalQueue F × Result (ExecutionProposal F)
  approve proposal_id approved_by reason now q =
      if is_blank (strip approved_by)
      then (q, raise value_error)
      else if is_blank (strip reason)
      then (q, raise value_error)
      else approve_found approved_by reason now q (get q proposal_id)

  abbrev pub decline : String → ℕ → ExecutionProposal F → ExecutionProposal F
  decline reason now p = record p {
    state = DemoExecutionState.cancelled;
    rejected_reason = some reason;
    approved_by = none;
    approved_at = some now;
  }

  unfoldable pub reject_found :
      String
      → ℕ
      → ManualApprovalQueue F
      → Option (ExecutionProposal F)
      → ManualApprovalQueue F × Result (ExecutionProposal F)
  reject_found reason now q none = (q, raise (approval_refused "PROPOSAL_NOT_FOUND"))
  reject_found reason now q (some p) =
      if not (is_proposed p.state)
      then (q, raise (approval_refused "PROPOSAL_NOT_PENDING"))
      else (saved q (decline reason now p), ok (decline reason now p))

  unfoldable pub reject :
      String
      → String
      → ℕ
      → ManualApprovalQueue F
      → ManualApprovalQueue F × Result (ExecutionProposal F)
  reject proposal_id reason now q = reject_found reason now q (get q proposal_id)

  unfoldable pub mark_found :
      DemoExecutionState
      → ManualApprovalQueue F
      → Option (ExecutionProposal F)
      → ManualApprovalQueue F × Option (ExecutionProposal F)
  mark_found state q none = (q, none)
  mark_found state q (some p) =
      let marked : ExecutionProposal F = record p { state = state } in (saved q marked, some marked)

  unfoldable pub mark :
      String
      → DemoExecutionState
      → ManualApprovalQueue F
      → ManualApprovalQueue F × Option (ExecutionProposal F)
  mark proposal_id state q = mark_found state q (get q proposal_id)
