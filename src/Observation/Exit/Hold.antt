-- ===== src/Observation/Exit/Hold.antt =====
-- When the analysis at a checkpoint holds a position (observation/time_exit.py, `analyse`).
use alm_trading.Base.{
  ℕ, ◌+◌, ◌/◌, ◌%◌, ◌<◌, ◌≡◌, ◌↔◌, true, false, arith, Bool-cases, inl, inr, if◌then◌else◌,
}
use alm_trading.Base.Int.{pos, sub_ℕ, leb_ℤ}
use alm_trading.Float.{Float, IsOrdered, IsNumber, ◌≼◌, fmin}
use alm_trading.Observation.Checkpoint.{TimeExitAnalyzer, step_of, hour_of}
use alm_trading.Observation.Exit.{
  ExitRequest, is_counter, is_hold, on_checkpoint, alignment_for, required, held_out, unsure,
  decide, analyse,
}

held_out-lt :
    (limit now entry : ℕ) → (leb_ℤ (pos limit) (sub_ℕ now entry) ≡ false) ↔ (now < entry + limit)
held_out-lt limit now entry = (λ h. ground arith, λ h. ground arith)

on_checkpoint-hour :
    (hours now : ℕ)
    → (on_checkpoint hours now ≡ true)
      ↔ ((hour_of (now / 3600) % step_of hours ≡ 0) × (now / 60 % 60 ≡ 0))
unfolding on_checkpoint
on_checkpoint-hour hours now = (λ h. (ground arith, ground arith), λ h. ground arith)

-- the confidence asked for: a stricter one against the trend
abbrev pub bar {ℓ} : {F : Type ℓ} → TimeExitAnalyzer F → ExitRequest F → F
bar a q =
    if is_counter (alignment_for q.direction q.regime)
    then a.counter_trend_min_confidence
    else a.base_min_confidence

module _ {ℓ} {F : Type ℓ} ⦃f : Float F⦄ where
  -- everything that a hold asks for
  pub record IsHeld (a : TimeExitAnalyzer F) (q : ExitRequest F) : Type 0 where
    pub risk : q.risk_allowed ≡ true
    pub structure : q.structure_valid ≡ true
    pub early : q.now < q.entry_time + a.max_holding
    pub hour : hour_of (q.now / 3600) % step_of a.checkpoint_hours ≡ 0
    pub minute : q.now / 60 % 60 ≡ 0
    pub strategy : bar a q ≼ q.strategy_confidence
    pub model : bar a q ≼ q.nn_confidence
    pub liquidity : q.liquidity_valid ≡ true
    pub indicators : q.indicator_valid ≡ true

module _ {ℓ} {F : Type ℓ} ⦃f : Float F⦄ (laws : IsOrdered F) where
  open f use {lt}

  -- the smaller of two numbers is not below a third exactly if neither is
  fmin-not_lt :
      (a b r : F)
      → IsNumber a
      → IsNumber b
      → IsNumber r
      → (lt (fmin a b) r ≡ false) ↔ ((r ≼ a) × (r ≼ b))
  fmin-not_lt a b r p q n = elim (Bool-cases (lt b a)) [
    | inl below ↦
        let ba = laws.le_of_lt b a below in
        rw below (
          λ h. let rb = laws.le_of_not_lt b r q n h in (laws.le_trans r b a rb ba, rb),
          λ h. laws.not_lt_of_le r b h.1,
        )
    | inr above ↦
        let ab = laws.le_of_not_lt b a q p above in
        rw above (
          λ h. let ra = laws.le_of_not_lt a r p n h in (ra, laws.le_trans r a b ra ab),
          λ h. laws.not_lt_of_le r a h.0,
        )
  ]

  analyse-tests :
      (a : TimeExitAnalyzer F) (q : ExitRequest F)
      → (is_hold (analyse a q).decision ≡ true) ↔ (
          (q.risk_allowed ≡ true)
          × (q.structure_valid ≡ true)
          × (held_out a q ≡ false)
          × (on_checkpoint a.checkpoint_hours q.now ≡ true)
          × (unsure a q ≡ false)
          × (q.liquidity_valid ≡ true)
          × (q.indicator_valid ≡ true))
  unfolding analyse decide
  analyse-tests a q = (λ h. ground arith, λ h. ground arith)

  -- In an arithmetic with the laws of the order, where both confidences and the one asked for are
  -- numbers, the analysis holds a position exactly if the risk allows it, structure, liquidity and
  -- indicators are valid, less time than the longest holding has passed since the entry, it is
  -- minute 0 of an hour that the step divides, and neither confidence is below the one asked for,
  -- which is the counter-trend one against the trend and else the base.
  pub analyse-IsHeld :
      (a : TimeExitAnalyzer F) (q : ExitRequest F)
      → IsNumber q.strategy_confidence
      → IsNumber q.nn_confidence
      → IsNumber (bar a q)
      → (is_hold (analyse a q).decision ≡ true) ↔ IsHeld a q
  unfolding held_out unsure required
  analyse-IsHeld a q s n b =
      let tests = analyse-tests a q in
      let holding = held_out-lt a.max_holding q.now q.entry_time in
      let clock = on_checkpoint-hour a.checkpoint_hours q.now in
      let sure = fmin-not_lt q.strategy_confidence q.nn_confidence (bar a q) s n b in
      (
        λ h.
            let t = tests.0 h in
            record {
              risk = t.0;
              structure = t.1;
              early = holding.0 t.2;
              hour = (clock.0 t.3).0;
              minute = (clock.0 t.3).1;
              strategy = (sure.0 t.4).0;
              model = (sure.0 t.4).1;
              liquidity = t.5;
              indicators = t.6;
            },
        λ w. tests.1 (
          w.risk,
          w.structure,
          holding.1 w.early,
          clock.1 (w.hour, w.minute),
          sure.1 (w.strategy, w.model),
          w.liquidity,
          w.indicators,
        ),
      )
