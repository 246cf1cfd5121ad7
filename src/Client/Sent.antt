-- ===== src/Client/Sent.antt =====
-- When an order reaches the terminal.
use alm_trading.Base.{
  ℕ, String, ◌≡◌, ◌⊎◌, inl, inr, refl, sym, subst, true, false, Option, none, some, [], ◌∷◌, ◌++◌,
  arith, ok, raise, transport_error, Bool-cases, string_eq, ◌=?◌, or_else,
}
use alm_trading.Float.{Float, nought}
use alm_trading.Order.{OrderRequest}
use alm_trading.Account.{Mt5Account, is_real_mode}
use alm_trading.Guard.{GuardDecision}
use alm_trading.Client.{
  ExecutionStatus, OrderResult, Reply, Answer, Terminal, ExecutionClient, is_accepted, blocked_by,
  failure,
}
use alm_trading.Client.Send.{
  is_market, is_executed, is_rejected, verify, payload_of, status_of, reply_status, to_result,
  answered, transmit, send_verified, send_market_order,
}

status_of-done : (n : ℕ) → is_rejected (status_of n) ≡ false → (n ≡ 10_009) ⊎ (n ≡ 10_010)
unfolding status_of
status_of-done n h = ground arith

module _ {ℓ} {F : Type ℓ} ⦃f : Float F⦄ where
  open f use {le}

  -- What a transmission rests on.
  pub record IsPermitted (t : Terminal F) (r : OrderRequest F) (approval : Option GuardDecision)
      : Type ℓ where
    pub decision : GuardDecision
    pub given : approval ≡ some decision
    pub approved : decision.approved ≡ true
    pub own : (decision.request_id =? r.request_id) ≡ true
    pub market : is_market r.order_type ≡ true
    pub account : Mt5Account F
    pub read : t.account ≡ some account
    pub not_real : is_real_mode account.trade_mode ≡ false

  verify-given :
      (r : OrderRequest F) (o : Option GuardDecision)
      → verify r o ≡ true
      → (d : GuardDecision) × (o ≡ some d)
        × (d.approved ≡ true)
        × ((d.request_id =? r.request_id) ≡ true)
  unfolding verify
  verify-given r none h = absurd (ground arith)
  verify-given r (some d) h = (d, refl, ground arith, ground arith)

  send_verified-sent :
      (c : ExecutionClient F) (t : Terminal F) (r : OrderRequest F) (o : Option (Mt5Account F))
      → let c' = (send_verified c t r o).0 in
        (c'.sent ≡ c.sent)
        ⊎ ((a : Mt5Account F) × (o ≡ some a)
            × (is_real_mode a.trade_mode ≡ false)
            × (c'.sent ≡ c.sent ++ ((r.request_id, payload_of c t r) ∷ [])))
  unfolding send_verified transmit
  send_verified-sent c t r none = inl refl
  send_verified-sent c t r (some a) = elim (Bool-cases (is_real_mode a.trade_mode)) [
    | inl real ↦ rw (real, send_verified) (inl refl)
    | inr fine ↦ elim (Bool-cases t.available) [
      | inr absent ↦ rw (fine, absent, send_verified) (inl refl)
      | inl present ↦ inr (a, refl, fine, ground arith)
    ]
  ]

  -- A call of the client sends nothing, or sends exactly the payload of the request, once, and
  -- then under an approval of that very request, as a market order, to an account that was read
  -- and is not REAL.
  pub send_market_order-sent :
      (c c' : ExecutionClient F) (t : Terminal F) (r : OrderRequest F)
      (approval : Option GuardDecision) (result : OrderResult F)
      → send_market_order c t r approval ≡ ok (c', result)
      → (c'.sent ≡ c.sent)
        ⊎ (IsPermitted t r approval × (c'.sent ≡ c.sent ++ ((r.request_id, payload_of c t r) ∷ [])))
  unfolding send_market_order
  send_market_order-sent c c' t r approval result e = elim (Bool-cases (verify r approval)) [
    | inr refused ↦ absurd (ground arith)
    | inl verified ↦ elim (Bool-cases (is_market r.order_type)) [
      | inr other ↦ inl (ground arith)
      | inl market ↦
          let g = verify-given r approval verified in
          let same : (send_verified c t r t.account).0 ≡ c' = ground arith in
          elim (send_verified-sent c t r t.account) [
            | inl quiet ↦ inl (subst (λ x. x.sent ≡ c.sent) same quiet)
            | inr (a, read, fine, q) ↦ inr (
              (record {
                decision = g.0;
                given = g.1;
                approved = g.2;
                own = g.3;
                market = market;
                account = a;
                read = read;
                not_real = fine;
              }),
              subst (λ x. x.sent ≡ c.sent ++ ((r.request_id, payload_of c t r) ∷ [])) same q,
            )
          ]
    ]
  ]

  -- What an accepted result rests on.
  pub record IsExecuted (c : ExecutionClient F) (t : Terminal F) (r : OrderRequest F)
      (result : OrderResult F) : Type ℓ where
    pub reply : Reply F
    pub replied : t.order_send (payload_of c t r) ≡ Answer.replied reply
    pub done : (or_else reply.retcode 0 ≡ 10_009) ⊎ (or_else reply.retcode 0 ≡ 10_010)
    pub positive : is_executed result.status ≡ true → le result.filled_volume nought ≡ false

  reply_status-done :
      (n : ℕ) (v : F)
      → is_accepted (reply_status n v) ≡ true
      → ((n ≡ 10_009) ⊎ (n ≡ 10_010))
        × (is_executed (reply_status n v) ≡ true → le v nought ≡ false)
  unfolding reply_status status_of
  reply_status-done n v h = (ground arith, λ x. ground arith)

  answered-IsExecuted :
      (c : ExecutionClient F) (t : Terminal F) (r : OrderRequest F) (environment : String)
      (a : Answer F)
      → t.order_send (payload_of c t r) ≡ a
      → is_accepted (answered r environment a).status ≡ true
      → IsExecuted c t r (answered r environment a)
  unfolding answered failure to_result
  answered-IsExecuted c t r environment (Answer.raised name) e h = absurd (ground arith)
  answered-IsExecuted c t r environment Answer.nothing e h = absurd (ground arith)
  answered-IsExecuted c t r environment (Answer.replied raw) e h =
      let fine = reply_status-done (or_else raw.retcode 0) (or_else raw.volume nought) h in
      record { reply = raw; replied = e; done = fine.0; positive = fine.1 }

  send_verified-IsExecuted :
      (c : ExecutionClient F) (t : Terminal F) (r : OrderRequest F) (o : Option (Mt5Account F))
      → is_accepted (send_verified c t r o).1.status ≡ true
      → IsExecuted c t r (send_verified c t r o).1
  unfolding send_verified transmit blocked_by
  send_verified-IsExecuted c t r none h = absurd (ground arith)
  send_verified-IsExecuted c t r (some a) h = elim (Bool-cases (is_real_mode a.trade_mode)) [
    | inl real ↦ absurd (ground arith)
    | inr fine ↦ elim (Bool-cases t.available) [
      | inr absent ↦ absurd (ground arith)
      | inl present ↦
          let result = answered r c.environment (t.order_send (payload_of c t r)) in
          let same : (send_verified c t r (some a)).1 ≡ result = ground arith in
          subst (λ x. IsExecuted c t r x) (sym same)
            (answered-IsExecuted c t r c.environment (t.order_send (payload_of c t r)) refl
              (subst (λ x. is_accepted x.status ≡ true) same h))
    ]
  ]

  -- A result counts as accepted only if the terminal replied to this payload that the order is
  -- done or partly done, and as filled, in whole or in part, only with a filled volume that is not
  -- zero or below.
  pub send_market_order-IsExecuted :
      (c c' : ExecutionClient F) (t : Terminal F) (r : OrderRequest F)
      (approval : Option GuardDecision) (result : OrderResult F)
      → send_market_order c t r approval ≡ ok (c', result)
      → is_accepted result.status ≡ true
      → IsExecuted c t r result
  unfolding send_market_order blocked_by
  send_market_order-IsExecuted c c' t r approval result e h =
      elim (Bool-cases (verify r approval)) [
        | inr refused ↦ absurd (ground arith)
        | inl verified ↦ elim (Bool-cases (is_market r.order_type)) [
          | inr other ↦ absurd (ground arith)
          | inl market ↦
              let same : (send_verified c t r t.account).1 ≡ result = ground arith in
              subst (λ x. IsExecuted c t r x) same
                (send_verified-IsExecuted c t r t.account
                  (subst (λ x. is_accepted x.status ≡ true) (sym same) h))
        ]
      ]

  -- Without an approval of that very request the client raises; with one it returns a result.
  pub send_market_order-verify :
      (c : ExecutionClient F) (t : Terminal F) (r : OrderRequest F)
      (approval : Option GuardDecision)
      → (verify r approval ≡ false → send_market_order c t r approval ≡ raise transport_error)
        × (verify r approval ≡ true
            → (out : ExecutionClient F × OrderResult F) × (send_market_order c t r approval
                ≡ ok out))
  unfolding send_market_order
  send_market_order-verify c t r approval = (
    λ h. ground arith,
    λ h. elim (Bool-cases (is_market r.order_type)) [
      | inl market ↦ (send_verified c t r t.account, ground arith)
      | inr other ↦
          ((c, blocked_by r "UNSUPPORTED_ORDER_TYPE" ExecutionStatus.rejected), ground arith)
    ],
  )
