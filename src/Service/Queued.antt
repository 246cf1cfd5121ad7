-- ===== src/Service/Queued.antt =====
-- The queue's own operations keep one transmission for one request.
use alm_trading.Base.{
  ℕ, String, ◌≡◌, ◌⊎◌, inl, inr, refl, sym, subst, true, false, Option, none, some, List, arith,
  Bool-cases, is_blank, strip,
}
use alm_trading.Order.{DemoOrderRequest}
use alm_trading.Gates.{GateChainDecision}
use alm_trading.Idempotency.{IdempotencyRegistry, allowed, check}
use alm_trading.Approval.{
  ExecutionProposal, ManualApprovalQueue, is_proposed, is_blocked, expired, find, get, saved,
}
use alm_trading.Approval.Queue.{
  propose, approve, approve_found, reject, reject_found, accept, expire, decline,
}
use alm_trading.Approval.Approved.{find-All}
use alm_trading.Client.{Payload}
use alm_trading.Service.Once.{sent_for, IsKeyed, IsOnce, saved-IsOnce}

module _ {ℓ} {F : Type ℓ} where
  -- a proposal that was held is saved under its request, and waits no more
  pub record IsClosed (q q' : ManualApprovalQueue F) : Type ℓ where
    pub key : String
    pub before : ExecutionProposal F
    pub after : ExecutionProposal F
    pub held : find key q.proposals ≡ some before
    pub named : IsKeyed before → IsKeyed after
    pub moved : is_proposed after.state ≡ false
    pub kept : q' ≡ saved q after

  approve_found-IsClosed :
      (by reason key : String) (now : ℕ) (q : ManualApprovalQueue F)
      (o : Option (ExecutionProposal F))
      → find key q.proposals ≡ o
      → ((approve_found by reason now q o).0 ≡ q) ⊎ IsClosed q (approve_found by reason now q o).0
  unfolding approve_found
  approve_found-IsClosed by reason key now q none g = inl refl
  approve_found-IsClosed by reason key now q (some p) g = elim (Bool-cases (is_blocked p.state)) [
    | inl blocked ↦ inl (ground arith)
    | inr free ↦ elim (Bool-cases (is_proposed p.state)) [
      | inr decided ↦ inl (ground arith)
      | inl waiting ↦ elim (Bool-cases (expired p now)) [
        | inl late ↦ inr (record {
          key = key;
          before = p;
          after = expire p;
          held = g;
          named = λ k. k;
          moved = refl;
          kept = ground arith;
        })
        | inr current ↦ inr (record {
          key = key;
          before = p;
          after = accept by reason now p;
          held = g;
          named = λ k. k;
          moved = refl;
          kept = ground arith;
        })
      ]
    ]
  ]

  approve-IsClosed :
      (id by reason : String) (now : ℕ) (q : ManualApprovalQueue F)
      → ((approve id by reason now q).0 ≡ q) ⊎ IsClosed q (approve id by reason now q).0
  unfolding approve get
  approve-IsClosed id by reason now q = elim (Bool-cases (is_blank (strip by))) [
    | inl blank ↦ inl (ground arith)
    | inr named ↦ elim (Bool-cases (is_blank (strip reason))) [
      | inl blank ↦ inl (ground arith)
      | inr explained ↦
          rw (named, explained, approve)
            (approve_found-IsClosed by reason id now q (find id q.proposals) refl)
    ]
  ]

  reject_found-IsClosed :
      (reason key : String) (now : ℕ) (q : ManualApprovalQueue F) (o : Option (ExecutionProposal F))
      → find key q.proposals ≡ o
      → ((reject_found reason now q o).0 ≡ q) ⊎ IsClosed q (reject_found reason now q o).0
  unfolding reject_found
  reject_found-IsClosed reason key now q none g = inl refl
  reject_found-IsClosed reason key now q (some p) g = elim (Bool-cases (is_proposed p.state)) [
    | inr decided ↦ inl (ground arith)
    | inl waiting ↦ inr (record {
      key = key;
      before = p;
      after = decline reason now p;
      held = g;
      named = λ k. k;
      moved = refl;
      kept = ground arith;
    })
  ]

  reject-IsClosed :
      (id reason : String) (now : ℕ) (q : ManualApprovalQueue F)
      → ((reject id reason now q).0 ≡ q) ⊎ IsClosed q (reject id reason now q).0
  unfolding reject get
  reject-IsClosed id reason now q = reject_found-IsClosed reason id now q (find id q.proposals) refl

  IsClosed-IsOnce :
      (id : String) (sent : List (String × Payload F)) (r : IdempotencyRegistry)
      (q q' : ManualApprovalQueue F)
      → (q' ≡ q) ⊎ IsClosed q q'
      → IsOnce id sent r q
      → IsOnce id sent r q'
  IsClosed-IsOnce id sent r q q' (inl same) h = subst (λ x. IsOnce id sent r x) (sym same) h
  IsClosed-IsOnce id sent r q q' (inr c) h =
      subst (λ x. IsOnce id sent r x) (sym c.kept)
        (saved-IsOnce id sent r q c.after
          (c.named (find-All IsKeyed c.key q.proposals c.before h.keyed c.held))
          (λ waits. absurd (ground (arith, c.moved))) h)

  pub approve-IsOnce :
      (id key by reason : String) (now : ℕ) (sent : List (String × Payload F))
      (r : IdempotencyRegistry) (q : ManualApprovalQueue F)
      → IsOnce id sent r q
      → IsOnce id sent r (approve key by reason now q).0
  approve-IsOnce id key by reason now sent r q =
      IsClosed-IsOnce id sent r q _ (approve-IsClosed key by reason now q)

  pub reject-IsOnce :
      (id key reason : String) (now : ℕ) (sent : List (String × Payload F))
      (r : IdempotencyRegistry) (q : ManualApprovalQueue F)
      → IsOnce id sent r q
      → IsOnce id sent r (reject key reason now q).0
  reject-IsOnce id key reason now sent r q =
      IsClosed-IsOnce id sent r q _ (reject-IsClosed key reason now q)

  -- a proposal waits only if nothing was sent for its request
  pub propose-IsOnce :
      (id : String) (request : DemoOrderRequest F) (d : GateChainDecision) (now : ℕ) (mode : String)
      (sent : List (String × Payload F)) (r : IdempotencyRegistry) (q : ManualApprovalQueue F)
      → (d.approved ≡ true → sent_for request.request_id sent ≡ 0)
      → IsOnce id sent r q
      → IsOnce id sent r (propose request d now mode q).0
  unfolding propose
  propose-IsOnce id request d now mode sent r q fresh h =
      saved-IsOnce id sent r q (propose request d now mode q).1 refl (λ w. fresh (ground arith)) h

  -- what is not claimed was not sent
  pub allowed-fresh :
      (id : String) (sent : List (String × Payload F)) (r : IdempotencyRegistry)
      (q : ManualApprovalQueue F)
      → IsOnce id sent r q
      → allowed (check r id) ≡ true
      → sent_for id sent ≡ 0
  allowed-fresh id sent r q h free = ground (arith, h.claimed)
