-- ===== src/Examples/Proposals.antt =====
-- The theorems on the queue of proposals, run on one that waits and one that is blocked.
use alm_trading.Base.{◌≡◌, refl, true, false, none, List, [], ◌∷◌, ok, string_eq, strip}
use alm_trading.Float.Nano.{Nano, nano_float}
use alm_trading.Mode.{ExecutionMode, ModeDecision}
use alm_trading.Lifecycle.{DemoExecutionState}
use alm_trading.Gates.{GateChainDecision}
use alm_trading.Approval.{ExecutionProposal, ManualApprovalQueue, get, find, put}
use alm_trading.Approval.Queue.{approve, approve_found, mark, accept}
use alm_trading.Approval.Approved.{IsAccepted, approve-IsAccepted, is_approved}
use alm_trading.Approval.Calls.{Call, calls, IsValid as QueueIsValid, calls-IsValid, mark-approve}
use alm_trading.Examples.{order}

abbrev automated : ModeDecision
automated = record {
  mode = ExecutionMode.demo_automated;
  configured = "DEMO_AUTOMATED";
  sends_orders = true;
  requires_human_approval = false;
  reasons = [];
}

abbrev pub request_decision : GateChainDecision
request_decision = record {
  approved = true;
  request_id = "R1";
  gates = [];
  reasons = [];
  guard = record {
    approved = true;
    request_id = "R1";
    reasons = [];
    checks = [];
    environment = "DEMO";
  };
  mode = automated;
  timestamp = 36_000;
  environment = "DEMO";
}

abbrev refused_decision : GateChainDecision
refused_decision = record request_decision {
  approved = false;
  reasons = "MAX_SPREAD_EXCEEDED" ∷ [];
}

abbrev empty_queue : ManualApprovalQueue Nano
empty_queue = record { ttl = 900; proposals = [] }

abbrev proposal_calls : List (Call Nano)
proposal_calls =
    Call.proposes order request_decision 100 "DEMO_MANUAL_APPROVAL"
    ∷ Call.approves "R1" "Ann" "looks right" 200
    ∷ Call.marks "R1" DemoExecutionState.filled
    ∷ []

calls-IsValid_example : QueueIsValid (calls proposal_calls empty_queue)
calls-IsValid_example = calls-IsValid proposal_calls empty_queue refl tt

abbrev waiting_proposal : ExecutionProposal Nano
waiting_proposal = record {
  proposal_id = "R1";
  request = order;
  decision = request_decision;
  state = DemoExecutionState.proposed;
  created_at = 100;
  expires_at = 1000;
  approved_by = none;
  approved_at = none;
  approval_reason = none;
  rejected_reason = none;
  mode = "DEMO_MANUAL_APPROVAL";
}

abbrev waiting_queue : ManualApprovalQueue Nano
waiting_queue = record { ttl = 900; proposals = waiting_proposal ∷ [] }

abbrev pub signed_proposal : ExecutionProposal Nano
signed_proposal = accept "Ann" "looks right" 200 waiting_proposal

abbrev signed_queue : ManualApprovalQueue Nano
signed_queue = record { ttl = 900; proposals = signed_proposal ∷ [] }

signs : approve "R1" "Ann" "looks right" 200 waiting_queue ≡ (signed_queue, ok signed_proposal)
unfolding approve strip approve_found get find put
signs = refl

approve-IsAccepted_example :
    IsAccepted "R1" "Ann" "looks right" 200 waiting_queue signed_queue signed_proposal
approve-IsAccepted_example =
    approve-IsAccepted "R1" "Ann" "looks right" 200 waiting_queue signed_queue signed_proposal signs

abbrev blocked_proposal : ExecutionProposal Nano
blocked_proposal = record waiting_proposal {
  decision = refused_decision;
  state = DemoExecutionState.blocked;
}

abbrev blocked_queue : ManualApprovalQueue Nano
blocked_queue = record { ttl = 900; proposals = blocked_proposal ∷ [] }

mark-approve_example :
    (q' : ManualApprovalQueue Nano) × (p' : ExecutionProposal Nano) × (approve "R1" "Ann"
        "looks right" 200
        (mark "R1" DemoExecutionState.proposed blocked_queue).0
      ≡ (q', ok p'))
    × (is_approved p'.state ≡ true)
    × (p'.decision ≡ refused_decision)
unfolding get strip find
mark-approve_example =
    mark-approve "R1" "Ann" "looks right" 200 blocked_queue blocked_proposal refl refl refl refl
      refl
