-- ===== src/Approval/Calls.antt =====
-- Sequences of calls on the queue.
use alm_trading.Base.{
  ℕ, String, ◌≡◌, refl, sym, subst, str_eq_iff, Bool, true, false, ◌||◌, Option, none, some, List,
  [], ◌∷◌, arith, All, Bool-cases, inl, inr, is_blank, strip, ok,
}
use alm_trading.Lifecycle.{DemoExecutionState}
use alm_trading.Order.{DemoOrderRequest}
use alm_trading.Gates.{GateChainDecision}
use alm_trading.Approval.{
  ExecutionProposal, ManualApprovalQueue, is_proposed, is_blocked, expired, find, put, saved, get,
}
use alm_trading.Approval.Queue.{
  propose, approve, approve_found, reject, reject_found, mark, mark_found, accept, expire, decline,
}
use alm_trading.Approval.Approved.{is_approved, IsBacked, put-All, find-All, find-id, find-put}

pub data Call {ℓ} (F : Type ℓ) : Type ℓ where
  proposes : DemoOrderRequest F → GateChainDecision → ℕ → String → Call F
  approves : String → String → String → ℕ → Call F
  rejects : String → String → ℕ → Call F
  marks : String → DemoExecutionState → Call F

module _ {ℓ} {F : Type ℓ} where
  unfoldable pub call : Call F → ManualApprovalQueue F → ManualApprovalQueue F
  call (Call.proposes request decision now mode) q = (propose request decision now mode q).0
  call (Call.approves id by reason now) q = (approve id by reason now q).0
  call (Call.rejects id reason now) q = (reject id reason now q).0
  call (Call.marks id state) q = (mark id state q).0

  unfoldable pub calls : List (Call F) → ManualApprovalQueue F → ManualApprovalQueue F
  calls [] q = q
  calls (c ∷ cs) q = calls cs (call c q)

  -- The call marks a proposal as waiting or as approved.
  abbrev pub reopens : Call F → Bool
  reopens (Call.marks id state) = is_proposed state || is_approved state
  reopens _ = false

  abbrev pub any_reopens : List (Call F) → Bool
  any_reopens [] = false
  any_reopens (c ∷ cs) = reopens c || any_reopens cs

  -- Every proposal in the queue is backed.
  abbrev pub IsValid : ManualApprovalQueue F → Type 0
  IsValid q = All IsBacked q.proposals

  closed-IsBacked :
      (p : ExecutionProposal F)
      → is_proposed p.state ≡ false
      → is_approved p.state ≡ false
      → IsBacked p
  closed-IsBacked p a b = record {
    waiting = λ h. ground arith;
    approved = λ h. ground arith;
    signed = λ h. absurd (ground arith);
    explained = λ h. absurd (ground arith);
  }

  accept-IsBacked :
      (by reason : String) (now : ℕ) (p : ExecutionProposal F)
      → is_blank (strip by) ≡ false
      → is_blank (strip reason) ≡ false
      → is_proposed p.state ≡ true
      → IsBacked p
      → IsBacked (accept by reason now p)
  accept-IsBacked by reason now p n m w h = record {
    waiting = λ _. h.waiting w;
    approved = λ _. h.waiting w;
    signed = λ _. (by, refl, n);
    explained = λ _. (reason, refl, m);
  }

  propose-IsValid :
      (r : DemoOrderRequest F) (d : GateChainDecision) (now : ℕ) (mode : String)
      (q : ManualApprovalQueue F)
      → IsValid q
      → IsValid (propose r d now mode q).0
  unfolding propose
  propose-IsValid r d now mode q h =
      put-All IsBacked (propose r d now mode q).1 q.proposals
        (record {
          waiting = λ w. ground arith;
          approved = λ a. ground arith;
          signed = λ a. absurd (ground arith);
          explained = λ a. absurd (ground arith);
        })
        h

  approve_found-IsValid :
      (by reason : String) (now : ℕ) (q : ManualApprovalQueue F) (id : String)
      (o : Option (ExecutionProposal F))
      → get q id ≡ o
      → is_blank (strip by) ≡ false
      → is_blank (strip reason) ≡ false
      → IsValid q
      → IsValid (approve_found by reason now q o).0
  unfolding approve_found get
  approve_found-IsValid by reason now q id none g n m h = h
  approve_found-IsValid by reason now q id (some p) g n m h =
      let backed = find-All IsBacked id q.proposals p h g in
      elim (Bool-cases (is_blocked p.state)) [
        | inl blocked ↦ rw (blocked, approve_found) h
        | inr free ↦ elim (Bool-cases (is_proposed p.state)) [
          | inr decided ↦ rw (free, decided, approve_found) h
          | inl waiting ↦ elim (Bool-cases (expired p now)) [
            | inl late ↦
                rw (free, waiting, late, approve_found)
                  (put-All IsBacked (expire p) q.proposals (closed-IsBacked (expire p) refl refl) h)
            | inr current ↦
                rw (free, waiting, current, approve_found)
                  (put-All IsBacked (accept by reason now p) q.proposals
                    (accept-IsBacked by reason now p n m waiting backed) h)
          ]
        ]
      ]

  approve-IsValid :
      (id by reason : String) (now : ℕ) (q : ManualApprovalQueue F)
      → IsValid q
      → IsValid (approve id by reason now q).0
  unfolding approve
  approve-IsValid id by reason now q h = elim (Bool-cases (is_blank (strip by))) [
    | inl blank ↦ rw (blank, approve) h
    | inr named ↦ elim (Bool-cases (is_blank (strip reason))) [
      | inl blank ↦ rw (named, blank, approve) h
      | inr given ↦
          rw (named, given, approve)
            (approve_found-IsValid by reason now q id (get q id) refl named given h)
    ]
  ]

  reject_found-IsValid :
      (reason : String) (now : ℕ) (q : ManualApprovalQueue F) (o : Option (ExecutionProposal F))
      → IsValid q
      → IsValid (reject_found reason now q o).0
  unfolding reject_found
  reject_found-IsValid reason now q none h = h
  reject_found-IsValid reason now q (some p) h = elim (Bool-cases (is_proposed p.state)) [
    | inr decided ↦ rw (decided, reject_found) h
    | inl waiting ↦
        rw (waiting, reject_found)
          (put-All IsBacked (decline reason now p) q.proposals
            (closed-IsBacked (decline reason now p) refl refl) h)
  ]

  mark_found-IsValid :
      (state : DemoExecutionState) (q : ManualApprovalQueue F) (o : Option (ExecutionProposal F))
      → (is_proposed state || is_approved state) ≡ false
      → IsValid q
      → IsValid (mark_found state q o).0
  unfolding mark_found
  mark_found-IsValid state q none s h = h
  mark_found-IsValid state q (some p) s h =
      let marked : ExecutionProposal F = record p { state = state } in
      put-All IsBacked marked q.proposals (closed-IsBacked marked (ground arith) (ground arith)) h

  call-IsValid :
      (c : Call F) (q : ManualApprovalQueue F) → reopens c ≡ false → IsValid q → IsValid (call c q)
  unfolding call reject mark
  call-IsValid (Call.proposes r d now mode) q s h = propose-IsValid r d now mode q h
  call-IsValid (Call.approves id by reason now) q s h = approve-IsValid id by reason now q h
  call-IsValid (Call.rejects id reason now) q s h = reject_found-IsValid reason now q (get q id) h
  call-IsValid (Call.marks id state) q s h = mark_found-IsValid state q (get q id) s h

  -- Through any sequence of calls in which no mark puts a proposal back into PROPOSED or APPROVED,
  -- every waiting or approved proposal was approved by the gates, and every approved one bears the
  -- name and the reason of a human.
  pub calls-IsValid :
      (cs : List (Call F)) (q : ManualApprovalQueue F)
      → any_reopens cs ≡ false
      → IsValid q
      → IsValid (calls cs q)
  unfolding calls
  calls-IsValid [] q s h = h
  calls-IsValid (c ∷ cs) q s h =
      let first : reopens c ≡ false = ground arith in
      calls-IsValid cs (call c q) (ground arith) (call-IsValid c q first h)

  -- A proposal that the gates refused can be marked as PROPOSED, and then approved, if it has not
  -- expired and the approver and the reason are not blank.
  pub mark-approve :
      (id by reason : String) (now : ℕ) (q : ManualApprovalQueue F) (p : ExecutionProposal F)
      → get q id ≡ some p
      → is_blocked p.state ≡ true
      → expired p now ≡ false
      → is_blank (strip by) ≡ false
      → is_blank (strip reason) ≡ false
      → (q' : ManualApprovalQueue F) × (p' : ExecutionProposal F) × (approve id by reason now
            (mark id DemoExecutionState.proposed q).0
          ≡ (q', ok p'))
        × (is_approved p'.state ≡ true)
        × (p'.decision ≡ p.decision)
  unfolding approve approve_found mark mark_found get
  mark-approve id by reason now q p g b e n m =
      let marked : ExecutionProposal F = record p { state = DemoExecutionState.proposed } in
      let same = (str_eq_iff id p.proposal_id).0 (find-id id q.proposals p g) in
      let found : find id (put marked q.proposals) ≡ some marked =
        subst (λ x. find x (put marked q.proposals) ≡ some marked) (sym same)
          (find-put marked q.proposals) in
      (
        saved (saved q marked) (accept by reason now marked),
        accept by reason now marked,
        rw (n, m, g, found, e) refl,
        refl,
        refl,
      )
