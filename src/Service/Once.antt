-- ===== src/Service/Once.antt =====
-- One transmission for one request: the invariant on the calls of `order_send`, the claims and the
-- proposals, and the changes that keep it.
use alm_trading.Base.{
  some_injective, ℕ, ◌+◌, ◌≤◌, String, ◌≡◌, sym, subst, ◌∙◌, str_eq_iff, true, false, some, List,
  [], ◌∷◌, ◌++◌, arith, All, Bool-cases, inl, inr, ◌⊎◌, string_eq, ◌=?◌, if◌then◌else◌,
}
use alm_trading.Idempotency.{IdempotencyRegistry, allowed, check, register}
use alm_trading.Idempotency.Claims.{register_stays, register_taken}
use alm_trading.Client.{Payload}
use alm_trading.Approval.{ExecutionProposal, ManualApprovalQueue, is_proposed, find, put, saved}
use alm_trading.Approval.Approved.{put-All, find-put}

module _ {ℓ} {F : Type ℓ} where
  -- how many calls of `order_send` were made for a request
  unfoldable pub sent_for : String → List (String × Payload F) → ℕ
  sent_for id [] = 0
  sent_for id ((key, payload) ∷ rest) = (if id =? key then 1 else 0) + sent_for id rest

  sent_for-append :
      (id key : String) (x : Payload F) (sent : List (String × Payload F))
      → sent_for id (sent ++ ((key, x) ∷ [])) ≡ sent_for id sent + (if id =? key then 1 else 0)
  unfolding sent_for
  sent_for-append id key x [] = ground arith
  sent_for-append id key x ((k, y) ∷ rest) = ground (arith, sent_for-append id key x rest)

  -- another proposal is found as before
  find-put_other :
      (key : String) (p : ExecutionProposal F) (ps : List (ExecutionProposal F))
      → (key =? p.proposal_id) ≡ false
      → find key (put p ps) ≡ find key ps
  unfolding find put
  find-put_other key p [] h = ground arith
  find-put_other key p (q ∷ qs) h =
      ground (arith, str_eq_iff p.proposal_id q.proposal_id, find-put_other key p qs h)

  abbrev pub IsKeyed : ExecutionProposal F → Type 0
  IsKeyed p = p.proposal_id ≡ p.request.request_id

  pub record IsOnce (id : String) (sent : List (String × Payload F)) (r : IdempotencyRegistry)
      (q : ManualApprovalQueue F) : Type ℓ where
    -- each proposal stands under its own request
    pub keyed : All IsKeyed q.proposals
    pub once : sent_for id sent ≤ 1
    -- what was sent is claimed, and no proposal of it waits
    pub claimed : 1 ≤ sent_for id sent → allowed (check r id) ≡ false
    pub waiting :
        (p : ExecutionProposal F)
        → find id q.proposals ≡ some p
        → is_proposed p.state ≡ true
        → sent_for id sent ≡ 0

  find-put_own :
      (id : String) (p : ExecutionProposal F) (ps : List (ExecutionProposal F))
      → (id =? p.proposal_id) ≡ true
      → find id (put p ps) ≡ some p
  find-put_own id p ps own =
      subst (λ x. find x (put p ps) ≡ some p) (sym ((str_eq_iff id p.proposal_id).0 own))
        (find-put p ps)

  -- a proposal that waits after another has been saved
  put-waiting :
      (id : String) (p p' : ExecutionProposal F) (ps : List (ExecutionProposal F))
      → find id (put p ps) ≡ some p'
      → is_proposed p'.state ≡ true
      → ((id ≡ p.proposal_id) × (is_proposed p.state ≡ true))
        ⊎ (((id =? p.proposal_id) ≡ false) × (find id ps ≡ some p'))
  put-waiting id p p' ps e w = elim (Bool-cases (id =? p.proposal_id)) [
    | inl own ↦
        let same : p ≡ p' = some_injective (sym (find-put_own id p ps own) ∙ e) in
        inl (
          (str_eq_iff id p.proposal_id).0 own,
          subst (λ x. is_proposed x.state ≡ true) (sym same) w,
        )
    | inr other ↦ inr (other, sym (find-put_other id p ps other) ∙ e)
  ]

  -- a proposal that is saved under its own request
  pub saved-IsOnce :
      (id : String) (sent : List (String × Payload F)) (r : IdempotencyRegistry)
      (q : ManualApprovalQueue F) (p : ExecutionProposal F)
      → IsKeyed p
      → (is_proposed p.state ≡ true → sent_for p.proposal_id sent ≡ 0)
      → IsOnce id sent r q
      → IsOnce id sent r (saved q p)
  saved-IsOnce id sent r q p k fresh h = record {
    keyed = put-All IsKeyed p q.proposals k h.keyed;
    once = h.once;
    claimed = h.claimed;
    waiting = λ p' e w. elim (put-waiting id p p' q.proposals e w) [
      | inl (own, opened) ↦ subst (λ x. sent_for x sent ≡ 0) (sym own) (fresh opened)
      | inr (other, before) ↦ h.waiting p' before w
    ];
  }

  pub register-IsOnce :
      (id : String) (sent : List (String × Payload F)) (r : IdempotencyRegistry)
      (q : ManualApprovalQueue F) (key : String) (t : ℕ)
      → IsOnce id sent r q
      → IsOnce id sent (register r key t).0 q
  register-IsOnce id sent r q key t h = record {
    keyed = h.keyed;
    once = h.once;
    claimed = λ n. register_stays r key id t (h.claimed n);
    waiting = h.waiting;
  }

  -- A transmission, with the claim before it and the mark after it.
  pub sent-IsOnce :
      (id : String) (sent : List (String × Payload F)) (r : IdempotencyRegistry)
      (q : ManualApprovalQueue F) (key : String) (t : ℕ) (x : Payload F) (p : ExecutionProposal F)
      → key ≡ p.proposal_id
      → IsKeyed p
      → is_proposed p.state ≡ false
      → sent_for key sent ≡ 0
      → IsOnce id sent r q
      → IsOnce id (sent ++ ((key, x) ∷ [])) (register r key t).0 (saved q p)
  sent-IsOnce id sent r q key t x p named k closed fresh h =
      let count = sent_for-append id key x sent in
      elim (Bool-cases (id =? key)) [
        | inl own ↦
            let same = (str_eq_iff id key).0 own in
            let none_before : sent_for id sent ≡ 0 =
              subst (λ y. sent_for y sent ≡ 0) (sym same) fresh in
            record {
              keyed = put-All IsKeyed p q.proposals k h.keyed;
              once = ground arith;
              claimed = λ _.
                  subst (λ y. allowed (check (register r key t).0 y) ≡ false) (sym same)
                    (register_taken r key t);
              waiting = λ p' e w. elim (put-waiting id p p' q.proposals e w) [
                | inl (_, opened) ↦ absurd (ground arith)
                | inr (other, _) ↦ absurd (ground (arith, str_eq_iff id p.proposal_id))
              ];
            }
        | inr other ↦ record {
          keyed = put-All IsKeyed p q.proposals k h.keyed;
          once = ground (arith, h.once);
          claimed = λ n. register_stays r key id t (h.claimed (ground arith));
          waiting = λ p' e w. elim (put-waiting id p p' q.proposals e w) [
            | inl (_, opened) ↦ absurd (ground arith)
            | inr (_, before) ↦ let still = h.waiting p' before w in ground arith
          ];
        }
      ]
