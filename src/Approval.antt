-- ===== src/Approval.antt =====
-- The queue of proposals that wait for a human (execution/demo/approval.py). The proposals stand in
-- the order of their first saving; the key of each is its identifier. The write-through to a
-- repository, which reads nothing back, and the free-form `details` are left out.
pub mod Queue
pub mod Approved
pub mod Calls
use alm_trading.Base.{
  ℕ, ◌+◌, String, Bool, true, false, not, Option, none, some, List, [], ◌∷◌, ◌++◌, leb,
  if◌then◌else◌, is_empty, is_blank, strip, join, string_eq, ◌=?◌,
}
use alm_trading.Lifecycle.{DemoExecutionState}
use alm_trading.Order.{DemoOrderRequest}
use alm_trading.Gates.{GateChainDecision}

pub record ExecutionProposal {ℓ} (F : Type ℓ) : Type ℓ where
  pub proposal_id : String
  pub request : DemoOrderRequest F
  pub decision : GateChainDecision
  pub state : DemoExecutionState
  pub created_at : ℕ
  pub expires_at : ℕ
  pub approved_by : Option String
  pub approved_at : Option ℕ
  pub approval_reason : Option String
  pub rejected_reason : Option String
  pub mode : String

-- the property `pending`
abbrev pub is_proposed : DemoExecutionState → Bool
is_proposed DemoExecutionState.proposed = true
is_proposed _ = false

abbrev pub is_blocked : DemoExecutionState → Bool
is_blocked DemoExecutionState.blocked = true
is_blocked _ = false

abbrev pub expired {ℓ} : {F : Type ℓ} → ExecutionProposal F → ℕ → Bool
expired p now = leb p.expires_at now

pub record ManualApprovalQueue {ℓ} (F : Type ℓ) : Type ℓ where
  pub ttl : ℕ
  pub proposals : List (ExecutionProposal F)

module _ {ℓ} {F : Type ℓ} where
  -- `_proposals[proposal_id] = proposal`
  unfoldable pub put : ExecutionProposal F → List (ExecutionProposal F) → List (ExecutionProposal F)
  put p [] = p ∷ []
  put p (q ∷ qs) =
      let rest = put p qs in if p.proposal_id =? q.proposal_id then p ∷ qs else q ∷ rest

  unfoldable pub find : String → List (ExecutionProposal F) → Option (ExecutionProposal F)
  find key [] = none
  find key (q ∷ qs) = if key =? q.proposal_id then some q else find key qs

  -- `_save`
  abbrev pub saved : ManualApprovalQueue F → ExecutionProposal F → ManualApprovalQueue F
  saved q p = record q { proposals = put p q.proposals }

  unfoldable pub get : ManualApprovalQueue F → String → Option (ExecutionProposal F)
  get q key = find key q.proposals

  unfoldable pub waiting : ℕ → List (ExecutionProposal F) → List (ExecutionProposal F)
  waiting now [] = []
  waiting now (p ∷ ps) =
      let rest = waiting now ps in
      if not (is_proposed p.state) then rest else if expired p now then rest else p ∷ rest

  unfoldable pub pending : ManualApprovalQueue F → ℕ → List (ExecutionProposal F)
  pending q now = waiting now q.proposals
