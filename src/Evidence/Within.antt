-- ===== src/Evidence/Within.antt =====
-- When a body of evidence clears the performance gates (validation/gates.py).
use alm_trading.Base.{
  ℕ, String, ◌≡◌, ◌↔◌, refl, Bool, true, false, Option, none, some, All, arith, ap, ◌∙◌, sym, subst,
  some_injective, Bool-cases, inl, inr,
}
use alm_trading.Float.{Float, ◌≼◌}
use alm_trading.Evidence.Select.{select-nil}
use alm_trading.Evidence.{
  PerformanceThresholds, Evidence, GateResult, is_fail, is_unknown, clears, cmp, float_of, gates_of,
  evaluate,
}

-- a value was measured, and has the property
abbrev pub Shown {ℓ} : {A : Type ℓ} → Option A → (A → Type 0) → Type ℓ
Shown {A = A} o P = (a : A) × (o ≡ some a) × P a

module _ {ℓ} {F : Type ℓ} ⦃f : Float F⦄ where
  open f use {lit}

  -- every value was measured, and is on its side of the threshold
  pub record IsWithin (limits : PerformanceThresholds F) (e : Evidence F) : Type ℓ where
    pub samples : Shown e.samples (λ n. lit limits.minimum_samples 0 ≼ lit n 0)
    pub drawdown : Shown e.drawdown (λ x. x ≼ limits.maximum_drawdown)
    pub expectancy : Shown e.expectancy (λ x. limits.minimum_expectancy ≼ x)
    pub profit_factor : Shown e.profit_factor (λ x. limits.minimum_profit_factor ≼ x)
    pub rejection_rate : Shown e.rejection_rate (λ x. x ≼ limits.maximum_rejection_rate)
    pub reconciliation_failure_rate :
        Shown e.reconciliation_failure_rate (λ x. x ≼ limits.maximum_reconciliation_failure_rate)
    pub high_confidence_failure_rate :
        Shown e.high_confidence_failure_rate (λ x. x ≼ limits.maximum_high_confidence_failure_rate)
    pub calibration_quality :
        Shown e.calibration_quality (λ x. limits.minimum_calibration_quality ≼ x)

  abbrev Clean : GateResult F → Type 0
  Clean g = (is_fail g.status ≡ false) × (is_unknown g.status ≡ false)

  cmp-Clean :
      (name : String) (o : Option F) (t : F) (b : Bool)
      → Clean (cmp name o t b) ↔ Shown o (λ x. clears b t x ≡ true)
  unfolding cmp
  cmp-Clean name none t b = (λ h. absurd (ground arith), λ h. absurd (ground arith))
  cmp-Clean name (some x) t b = elim (Bool-cases (clears b t x)) [
    | inl in_bounds ↦ (λ h. (x, refl, in_bounds), λ h. rw in_bounds (refl, refl))
    | inr out ↦ (
      λ h. absurd (ground arith),
      λ h. absurd (let same = ap (clears b t) (some_injective h.1) ∙ h.2 in ground arith),
    )
  ]

  float_of-Shown :
      (o : Option ℕ) (t : F) → Shown (float_of o) (λ x. t ≼ x) ↔ Shown o (λ n. t ≼ lit n 0)
  float_of-Shown none t = (λ h. absurd (ground arith), λ h. absurd (ground arith))
  float_of-Shown (some n) t = (
    λ h. (n, refl, subst (λ x. t ≼ x) (sym (some_injective h.1)) h.2),
    λ h. (lit n 0, refl, subst (λ k. t ≼ lit k 0) (sym (some_injective h.1)) h.2),
  )

  evaluate-passed :
      (limits : PerformanceThresholds F) (e : Evidence F)
      → ((evaluate limits e).passed ≡ true) ↔ All Clean (gates_of limits e)
  unfolding evaluate
  evaluate-passed limits e =
      select-nil (λ g. g.name) (λ g. is_fail g.status) (λ g. is_unknown g.status)
        (gates_of limits e)

  -- The performance gates pass exactly if each of the eight figures was measured and is not beyond
  -- its threshold.
  pub evaluate-IsWithin :
      (limits : PerformanceThresholds F) (e : Evidence F)
      → ((evaluate limits e).passed ≡ true) ↔ IsWithin limits e
  unfolding gates_of
  evaluate-IsWithin limits e = (
    λ h.
        let a = (evaluate-passed limits e).0 h in
        record {
          samples = (float_of-Shown e.samples (lit limits.minimum_samples 0)).0 (
              (cmp-Clean "minimum_samples" (float_of e.samples) (lit limits.minimum_samples 0)
                  true).0
                a.0);
          drawdown =
              (cmp-Clean "maximum_drawdown" e.drawdown limits.maximum_drawdown false).0 a.1.0;
          expectancy =
              (cmp-Clean "minimum_expectancy" e.expectancy limits.minimum_expectancy true).0
                a.1.1.0;
          profit_factor =
              (cmp-Clean "minimum_profit_factor" e.profit_factor limits.minimum_profit_factor
                  true).0
                a.1.1.1.0;
          rejection_rate =
              (cmp-Clean "maximum_rejection_rate" e.rejection_rate limits.maximum_rejection_rate
                  false).0
                a.1.1.1.1.0;
          reconciliation_failure_rate =
              (cmp-Clean "maximum_reconciliation_failure_rate" e.reconciliation_failure_rate
                  limits.maximum_reconciliation_failure_rate false).0
                a.1.1.1.1.1.0;
          high_confidence_failure_rate =
              (cmp-Clean "maximum_high_confidence_failure_rate" e.high_confidence_failure_rate
                  limits.maximum_high_confidence_failure_rate false).0
                a.1.1.1.1.1.1.0;
          calibration_quality =
              (cmp-Clean "minimum_calibration_quality" e.calibration_quality
                  limits.minimum_calibration_quality true).0
                a.1.1.1.1.1.1.1.0;
        },
    λ w. (evaluate-passed limits e).1 (
      (cmp-Clean "minimum_samples" (float_of e.samples) (lit limits.minimum_samples 0) true).1
          ((float_of-Shown e.samples (lit limits.minimum_samples 0)).1 w.samples),
      (
        (cmp-Clean "maximum_drawdown" e.drawdown limits.maximum_drawdown false).1 w.drawdown,
        (
          (cmp-Clean "minimum_expectancy" e.expectancy limits.minimum_expectancy true).1
              w.expectancy,
          (
            (cmp-Clean "minimum_profit_factor" e.profit_factor limits.minimum_profit_factor true).1
                w.profit_factor,
            (
              (cmp-Clean "maximum_rejection_rate" e.rejection_rate limits.maximum_rejection_rate
                    false).1
                  w.rejection_rate,
              (
                (cmp-Clean "maximum_reconciliation_failure_rate" e.reconciliation_failure_rate
                      limits.maximum_reconciliation_failure_rate false).1
                    w.reconciliation_failure_rate,
                (
                  (cmp-Clean "maximum_high_confidence_failure_rate" e.high_confidence_failure_rate
                        limits.maximum_high_confidence_failure_rate false).1
                      w.high_confidence_failure_rate,
                  (
                    (cmp-Clean "minimum_calibration_quality" e.calibration_quality
                          limits.minimum_calibration_quality true).1
                        w.calibration_quality,
                    tt,
                  ),
                ),
              ),
            ),
          ),
        ),
      ),
    ),
  )
