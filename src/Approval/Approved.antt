-- ===== src/Approval/Approved.antt =====
-- What stands behind an approved proposal.
use alm_trading.Base.{
  some_injective, ℕ, String, ◌≡◌, refl, subst, Bool, true, false, Option, none, some, List, [], ◌∷◌,
  arith, All, Bool-cases, inl, inr, is_blank, strip, ok, string_eq, str_refl, ◌=?◌,
}
use alm_trading.Lifecycle.{DemoExecutionState}
use alm_trading.Approval.{
  ExecutionProposal, ManualApprovalQueue, is_proposed, expired, put, find, get,
}
use alm_trading.Approval.Queue.{approve, approve_found, accept}

abbrev pub is_approved : DemoExecutionState → Bool
is_approved DemoExecutionState.approved = true
is_approved _ = false

module _ {ℓ} {F : Type ℓ} where
  -- A proposal that waits was approved by the gates; one that is approved was also signed.
  pub record IsBacked (p : ExecutionProposal F) : Type 0 where
    pub waiting : is_proposed p.state ≡ true → p.decision.approved ≡ true
    pub approved : is_approved p.state ≡ true → p.decision.approved ≡ true
    pub signed :
        is_approved p.state ≡ true
        → (name : String) × (p.approved_by ≡ some name) × (is_blank (strip name) ≡ false)
    pub explained :
        is_approved p.state ≡ true
        → (reason : String) × (p.approval_reason ≡ some reason) × (is_blank (strip reason) ≡ false)

  pub put-All {κ} :
      (P : ExecutionProposal F → Type κ) (p : ExecutionProposal F) (ps : List (ExecutionProposal F))
      → P p
      → All P ps
      → All P (put p ps)
  unfolding put
  put-All P p [] h hs = (h, tt)
  put-All P p (q ∷ qs) h hs = elim (Bool-cases (p.proposal_id =? q.proposal_id)) [
    | inl same ↦ rw (same, put) (h, hs.1)
    | inr other ↦ rw (other, put) (hs.0, put-All P p qs h hs.1)
  ]

  pub find-All {κ} :
      (P : ExecutionProposal F → Type κ) (key : String) (ps : List (ExecutionProposal F))
      (p : ExecutionProposal F)
      → All P ps
      → find key ps ≡ some p
      → P p
  unfolding find
  find-All P key [] p hs e = absurd (ground arith)
  find-All P key (q ∷ qs) p hs e = elim (Bool-cases (key =? q.proposal_id)) [
    | inl same ↦
        let found : some q ≡ some p = rw (same, find) at e in subst P (some_injective found) hs.0
    | inr other ↦ find-All P key qs p hs.1 (rw (other, find) at e)
  ]

  -- an identifier finds the proposal that it names, and what was put under it
  pub find-id :
      (key : String) (ps : List (ExecutionProposal F)) (p : ExecutionProposal F)
      → find key ps ≡ some p
      → (key =? p.proposal_id) ≡ true
  unfolding find
  find-id key [] p e = absurd (ground arith)
  find-id key (q ∷ qs) p e = elim (Bool-cases (key =? q.proposal_id)) [
    | inl same ↦
        let found : some q ≡ some p = rw (same, find) at e in
        subst (λ x. (key =? x.proposal_id) ≡ true) (some_injective found) same
    | inr other ↦ find-id key qs p (rw (other, find) at e)
  ]

  pub find-put :
      (p : ExecutionProposal F) (ps : List (ExecutionProposal F))
      → find p.proposal_id (put p ps) ≡ some p
  unfolding find put
  find-put p [] = rw (str_refl p.proposal_id) refl
  find-put p (q ∷ qs) = elim (Bool-cases (p.proposal_id =? q.proposal_id)) [
    | inl same ↦ ground (arith, str_refl p.proposal_id)
    | inr other ↦ ground (arith, find-put p qs)
  ]

  -- What `approve` found and did, where it returned a proposal.
  pub record IsAccepted (id by reason : String) (now : ℕ) (q q' : ManualApprovalQueue F)
      (p' : ExecutionProposal F) : Type ℓ where
    pub before : ExecutionProposal F
    pub held : get q id ≡ some before
    pub proposed : is_proposed before.state ≡ true
    pub current : expired before now ≡ false
    pub named : is_blank (strip by) ≡ false
    pub explained : is_blank (strip reason) ≡ false
    pub after : p' ≡ accept by reason now before
    pub kept : get q' before.proposal_id ≡ some p'

  approve_found-IsAccepted :
      (id by reason : String) (now : ℕ) (q : ManualApprovalQueue F)
      (o : Option (ExecutionProposal F)) (q' : ManualApprovalQueue F) (p' : ExecutionProposal F)
      → get q id ≡ o
      → is_blank (strip by) ≡ false
      → is_blank (strip reason) ≡ false
      → approve_found by reason now q o ≡ (q', ok p')
      → IsAccepted id by reason now q q' p'
  unfolding approve_found get
  approve_found-IsAccepted id by reason now q none q' p' g n m e = absurd (ground arith)
  approve_found-IsAccepted id by reason now q (some p) q' p' g n m e = record {
    before = p;
    held = g;
    proposed = ground arith;
    current = ground arith;
    named = n;
    explained = m;
    after = ground arith;
    kept = ground (arith, find-put (accept by reason now p) q.proposals);
  }

  -- An approval that returns was given by a named approver, with a reason, to a proposal that the
  -- queue held, that was waiting and had not expired; it changes the approval alone, and the queue
  -- now holds the result.
  pub approve-IsAccepted :
      (id by reason : String) (now : ℕ) (q q' : ManualApprovalQueue F) (p' : ExecutionProposal F)
      → approve id by reason now q ≡ (q', ok p')
      → IsAccepted id by reason now q q' p'
  unfolding approve
  approve-IsAccepted id by reason now q q' p' e = elim (Bool-cases (is_blank (strip by))) [
    | inl blank ↦ absurd (ground arith)
    | inr named ↦ elim (Bool-cases (is_blank (strip reason))) [
      | inl blank ↦ absurd (ground arith)
      | inr explained ↦
          approve_found-IsAccepted id by reason now q (get q id) q' p' refl named explained
            (ground arith)
    ]
  ]
