-- ===== src/Reconcile/Matched.antt =====
-- What a match says.
use alm_trading.Base.{
  ℕ, ◌≡◌, ◌↔◌, refl, true, Option, none, some, [], ◌++◌, arith, Bool-cases, inl, inr, is_some,
  append-ne-nil,
}
use alm_trading.Float.{Float}
use alm_trading.Order.{OrderRequest}
use alm_trading.Client.{OrderResult, is_accepted}
use alm_trading.Reconcile.{
  Position, Reconciler, is_matched, same_ticket, all_true, near, price_check, stop_check,
  result_checks, result_reasons, position_checks, position_reasons, reconcile_executed, reconcile,
}

same_ticket-some : (t : ℕ) (o : Option ℕ) → same_ticket t o ≡ true → o ≡ some t
same_ticket-some t none h = ground arith
same_ticket-some t (some u) h = ground arith

module _ {ℓ} {F : Type ℓ} ⦃f : Float F⦄ where
  -- The request, the result and the position agree, up to the tolerances.
  pub record Agrees (c : Reconciler F) (r : OrderRequest F) (x : OrderResult F)
      (o : Option (Position F)) : Type ℓ where
    pub executed : is_accepted x.status ≡ true
    pub filled : near c.volume_tolerance x.filled_volume r.volume ≡ true
    pub priced : price_check c.price_tolerance r.price x.filled_price ≡ true
    pub position : Position F
    pub held : o ≡ some position
    pub ticket : x.broker_ticket ≡ some position.ticket
    pub volume : near c.volume_tolerance position.volume x.filled_volume ≡ true
    pub profit : is_some position.profit ≡ true
    pub stop_loss : stop_check c.price_tolerance r.sl position.stop_loss ≡ true
    pub take_profit : stop_check c.price_tolerance r.tp position.take_profit ≡ true

  checks-Agrees :
      (c : Reconciler F) (r : OrderRequest F) (x : OrderResult F) (p : Position F)
      → is_accepted x.status ≡ true
      → all_true (result_checks c r x ++ position_checks c r x p) ≡ true
      → Agrees c r x (some p)
  unfolding result_checks position_checks
  checks-Agrees c r x p e h = record {
    executed = e;
    filled = ground arith;
    priced = ground arith;
    position = p;
    held = refl;
    ticket = same_ticket-some p.ticket x.broker_ticket (ground arith);
    volume = ground arith;
    profit = ground arith;
    stop_loss = ground arith;
    take_profit = ground arith;
  }

  reconcile_executed-Agrees :
      (c : Reconciler F) (r : OrderRequest F) (x : OrderResult F) (o : Option (Position F))
      → is_accepted x.status ≡ true
      → is_matched (reconcile_executed c r x o).status ≡ true
      → Agrees c r x o
  unfolding reconcile_executed
  reconcile_executed-Agrees c r x none e h = absurd (ground arith)
  reconcile_executed-Agrees c r x (some p) e h = checks-Agrees c r x p e (ground arith)

  -- A record is MATCHED only for an executed order whose result, request and position agree.
  pub reconcile-Agrees :
      (c : Reconciler F) (r : OrderRequest F) (x : OrderResult F) (o : Option (Position F))
      → is_matched (reconcile c r x o).status ≡ true
      → Agrees c r x o
  unfolding reconcile
  reconcile-Agrees c r x o h =
      let executed : is_accepted x.status ≡ true = ground arith in
      reconcile_executed-Agrees c r x o executed (ground arith)

  executed-reasons :
      (c : Reconciler F) (r : OrderRequest F) (x : OrderResult F) (p : Position F)
      → (all_true (result_checks c r x ++ position_checks c r x p) ≡ true)
        ↔ (result_reasons c r x ++ position_reasons c r x p ≡ [])
  unfolding result_checks position_checks result_reasons position_reasons
  executed-reasons c r x p = (λ h. ground arith, λ h. ground arith)

  reconcile_executed-reasons :
      (c : Reconciler F) (r : OrderRequest F) (x : OrderResult F) (o : Option (Position F))
      → (is_matched (reconcile_executed c r x o).status ≡ true)
        ↔ ((reconcile_executed c r x o).reasons ≡ [])
  unfolding reconcile_executed
  reconcile_executed-reasons c r x none = (
    λ h. absurd (ground arith),
    λ h. absurd (append-ne-nil (result_reasons c r x) "POSITION_MISSING" [] h),
  )
  reconcile_executed-reasons c r x (some p) =
      let agree = executed-reasons c r x p in
      (λ h. agree.0 (ground arith), λ h. ground (arith, agree.1 h))

  -- A record gives no reason exactly if it is MATCHED.
  pub reconcile-reasons :
      (c : Reconciler F) (r : OrderRequest F) (x : OrderResult F) (o : Option (Position F))
      → (is_matched (reconcile c r x o).status ≡ true) ↔ ((reconcile c r x o).reasons ≡ [])
  unfolding reconcile
  reconcile-reasons c r x o = elim (Bool-cases (is_accepted x.status)) [
    | inl executed ↦ rw (executed, reconcile) (reconcile_executed-reasons c r x o)
    | inr other ↦ (λ h. absurd (ground arith), λ h. absurd (ground arith))
  ]
