-- ===== src/Evidence/Eligible.antt =====
-- When automation on the DEMO account is eligible (validation/gates.py).
use alm_trading.Base.{
  String, ◌≡◌, ◌↔◌, refl, ap, sym, ◌∙◌, Bool, true, false, not, Option, none, some, All, arith, leb,
  ◌==◌, is_empty, some_injective,
}
use alm_trading.Float.{Float, ◌≼◌}
use alm_trading.Settings.{Settings}
use alm_trading.Evidence.Select.{select, select-nil, is_empty-append}
use alm_trading.Evidence.Within.{Shown}
use alm_trading.Evidence.{
  PerformanceThresholds, PerformanceGateReport, Findings, is_false, is_none, measured,
  report_missing, checks_of, eligibility,
}

abbrev Holds : String × Option Bool → Type 0
Holds c = (is_false c.1 ≡ false) × (is_none c.1 ≡ false)

Holds-some : (name : String) (o : Option Bool) → Holds (name, o) ↔ (o ≡ some true)
Holds-some name none = (λ h. absurd (ground arith), λ h. absurd (ground arith))
Holds-some name (some true) = (λ h. refl, λ h. (refl, refl))
Holds-some name (some false) = (λ h. absurd (ground arith), λ h. absurd (ground arith))

measured-true {ℓ} :
    {A : Type ℓ} (test : A → Bool) (o : Option A)
    → (measured test o ≡ some true) ↔ Shown o (λ a. test a ≡ true)
measured-true test none = (λ h. absurd (ground arith), λ h. absurd (ground arith))
measured-true test (some a) =
    (λ h. (a, refl, some_injective h), λ h. ap some (ap test (some_injective h.1) ∙ h.2))

check-Shown {ℓ} :
    {A : Type ℓ} (name : String) (test : A → Bool) (o : Option A)
    → Holds (name, measured test o) ↔ Shown o (λ a. test a ≡ true)
check-Shown name test o =
    let row = Holds-some name (measured test o) in
    let shown = measured-true test o in (λ h. shown.0 (row.0 h), λ s. row.1 (shown.1 s))

module _ {ℓ} {F : Type ℓ} ⦃f : Float F⦄ where
  -- everything that is asked for was found
  pub record IsEligible (limits : PerformanceThresholds F) (e : Findings F) : Type ℓ where
    pub champion_strategy : e.champion_strategy ≡ some true
    pub observations : Shown e.observations (λ n. leb limits.minimum_samples n ≡ true)
    pub model_stable : e.model_stable ≡ some true
    pub drawdown : Shown e.drawdown (λ x. x ≼ limits.maximum_drawdown)
    pub rejection_rate : Shown e.rejection_rate (λ x. x ≼ limits.maximum_rejection_rate)
    pub reconciliation_failures : Shown e.reconciliation_failures (λ n. (n == 0) ≡ true)
    pub critical_data_issues : Shown e.critical_data_issues (λ n. (n == 0) ≡ true)
    pub kill_switch : Shown e.kill_switch_engaged (λ b. not b ≡ true)
    pub risk_gates_pass : e.risk_gates_pass ≡ some true
    pub circuit_breaker : Shown e.circuit_breaker_open (λ b. not b ≡ true)
    pub report : (r : PerformanceGateReport F) → e.gate_report ≡ some r → r.passed ≡ true

  report_missing-nil :
      (o : Option (PerformanceGateReport F))
      → (is_empty (report_missing o) ≡ true)
        ↔ ((r : PerformanceGateReport F) → o ≡ some r → r.passed ≡ true)
  unfolding report_missing
  report_missing-nil none = (λ h r e. absurd (ground arith), λ h. refl)
  report_missing-nil (some r) = (
    λ h q e. ap (λ x. x.passed) (sym (some_injective e)) ∙ ground arith,
    λ h. let p = h r refl in ground arith,
  )

  eligibility-Holds :
      (settings : Option Settings) (limits : PerformanceThresholds F) (e : Findings F)
      → ((eligibility settings limits e).eligible ≡ true)
        ↔ (All Holds (checks_of limits e) × (is_empty (report_missing e.gate_report) ≡ true))
  unfolding eligibility
  eligibility-Holds settings limits e =
      let checks = checks_of limits e in
      let rows = select-nil (λ c. c.0) (λ c. is_false c.1) (λ c. is_none c.1) checks in
      let both =
        is_empty-append (select (λ c. c.0) (λ c. is_false c.1) checks)
          (report_missing e.gate_report) in
      (
        λ h. (rows.0 (ground arith), ground arith),
        λ h. let r = rows.1 h.0 in let m = h.1 in ground arith,
      )

  -- Automation is eligible exactly if every check was measured and holds, and the report of the
  -- performance gates, if there is one, has passed.
  pub eligibility-IsEligible :
      (settings : Option Settings) (limits : PerformanceThresholds F) (e : Findings F)
      → ((eligibility settings limits e).eligible ≡ true) ↔ IsEligible limits e
  unfolding checks_of
  eligibility-IsEligible settings limits e = (
    λ h.
        let found = (eligibility-Holds settings limits e).0 h in
        let a = found.0 in
        record {
          champion_strategy = (Holds-some "champion_strategy" e.champion_strategy).0 a.0;
          observations =
              (check-Shown "sufficient_observations" (leb limits.minimum_samples) e.observations).0
                a.1.0;
          model_stable = (Holds-some "stable_model" e.model_stable).0 a.1.1.0;
          drawdown =
              (check-Shown "acceptable_drawdown" (λ x. f.le x limits.maximum_drawdown) e.drawdown).0
                a.1.1.1.0;
          rejection_rate =
              (check-Shown "execution_quality" (λ x. f.le x limits.maximum_rejection_rate)
                  e.rejection_rate).0
                a.1.1.1.1.0;
          reconciliation_failures =
              (check-Shown "no_reconciliation_failures" (λ n. n == 0) e.reconciliation_failures).0
                a.1.1.1.1.1.0;
          critical_data_issues =
              (check-Shown "no_critical_data_issues" (λ n. n == 0) e.critical_data_issues).0
                a.1.1.1.1.1.1.0;
          kill_switch =
              (check-Shown "kill_switch_released" (not) e.kill_switch_engaged).0 a.1.1.1.1.1.1.1.0;
          risk_gates_pass = (Holds-some "risk_gates_pass" e.risk_gates_pass).0 a.1.1.1.1.1.1.1.1.0;
          circuit_breaker =
              (check-Shown "circuit_breaker_closed" (not) e.circuit_breaker_open).0
                a.1.1.1.1.1.1.1.1.1.0;
          report = (report_missing-nil e.gate_report).0 found.1;
        },
    λ w. (eligibility-Holds settings limits e).1 (
      (
        (Holds-some "champion_strategy" e.champion_strategy).1 w.champion_strategy,
        (
          (check-Shown "sufficient_observations" (leb limits.minimum_samples) e.observations).1
              w.observations,
          (
            (Holds-some "stable_model" e.model_stable).1 w.model_stable,
            (
              (check-Shown "acceptable_drawdown" (λ x. f.le x limits.maximum_drawdown) e.drawdown).1
                  w.drawdown,
              (
                (check-Shown "execution_quality" (λ x. f.le x limits.maximum_rejection_rate)
                      e.rejection_rate).1
                    w.rejection_rate,
                (
                  (check-Shown "no_reconciliation_failures" (λ n. n == 0)
                        e.reconciliation_failures).1
                      w.reconciliation_failures,
                  (
                    (check-Shown "no_critical_data_issues" (λ n. n == 0) e.critical_data_issues).1
                        w.critical_data_issues,
                    (
                      (check-Shown "kill_switch_released" (not) e.kill_switch_engaged).1
                          w.kill_switch,
                      (
                        (Holds-some "risk_gates_pass" e.risk_gates_pass).1 w.risk_gates_pass,
                        (
                          (check-Shown "circuit_breaker_closed" (not) e.circuit_breaker_open).1
                              w.circuit_breaker,
                          tt,
                        ),
                      ),
                    ),
                  ),
                ),
              ),
            ),
          ),
        ),
      ),
      (report_missing-nil e.gate_report).1 w.report,
    ),
  )
