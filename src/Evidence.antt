-- ===== src/Evidence.antt =====
-- The performance gates and the eligibility for automation (validation/gates.py). Reading the
-- thresholds from the configuration, the dictionaries for displays and the time stamps are left out.
pub mod Select
pub mod Within
pub mod Eligible
use alm_trading.Base.{
  ℕ, String, Bool, true, false, not, ◌&&◌, Option, none, some, List, [], ◌∷◌, ◌++◌, if◌then◌else◌,
  leb, ◌==◌, is_empty,
}
use alm_trading.Float.{Float}
use alm_trading.Settings.{Settings}
use alm_trading.Evidence.Select.{select}

pub data GateStatus : Type 0 where
  pass fail unknown : GateStatus

pub record GateResult {ℓ} (F : Type ℓ) : Type ℓ where
  pub name : String
  pub status : GateStatus
  pub observed : Option F
  pub threshold : F
  pub detail : Option String

pub record PerformanceThresholds {ℓ} (F : Type ℓ) : Type ℓ where
  pub minimum_samples : ℕ
  pub maximum_drawdown : F
  pub minimum_expectancy : F
  pub minimum_profit_factor : F
  pub maximum_rejection_rate : F
  pub maximum_reconciliation_failure_rate : F
  pub maximum_high_confidence_failure_rate : F
  pub minimum_calibration_quality : F

pub record PerformanceGateReport {ℓ} (F : Type ℓ) : Type ℓ where
  pub passed : Bool
  pub gates : List (GateResult F)
  pub failed : List String
  pub unknown : List String
  pub thresholds : PerformanceThresholds F

-- the arguments of `PerformanceGateEvaluator.evaluate`
pub record Evidence {ℓ} (F : Type ℓ) : Type ℓ where
  pub samples : Option ℕ
  pub drawdown : Option F
  pub expectancy : Option F
  pub profit_factor : Option F
  pub rejection_rate : Option F
  pub reconciliation_failure_rate : Option F
  pub high_confidence_failure_rate : Option F
  pub calibration_quality : Option F

-- the arguments of `AutomationEligibilityEvaluator.evaluate`; of the execution quality, it reads the
-- rejection rate
pub record Findings {ℓ} (F : Type ℓ) : Type ℓ where
  pub champion_strategy : Option Bool
  pub observations : Option ℕ
  pub model_stable : Option Bool
  pub drawdown : Option F
  pub rejection_rate : Option F
  pub reconciliation_failures : Option ℕ
  pub critical_data_issues : Option ℕ
  pub kill_switch_engaged : Option Bool
  pub risk_gates_pass : Option Bool
  pub circuit_breaker_open : Option Bool
  pub gate_report : Option (PerformanceGateReport F)

pub record AutomationEligibility {ℓ} (F : Type ℓ) : Type ℓ where
  pub eligible : Bool
  pub checks : List (String × Bool)
  pub missing : List String
  pub unknown : List String
  pub gate_report : Option (PerformanceGateReport F)
  pub human_approved : Bool

abbrev pub is_fail : GateStatus → Bool
is_fail GateStatus.fail = true
is_fail _ = false

abbrev pub is_unknown : GateStatus → Bool
is_unknown GateStatus.unknown = true
is_unknown _ = false

-- `value is False`, `value is None`
abbrev pub is_false : Option Bool → Bool
is_false (some false) = true
is_false _ = false

abbrev pub is_none {ℓ} : {A : Type ℓ} → Option A → Bool
is_none none = true
is_none (some a) = false

-- `None if value is None else test(value)`
abbrev pub measured {ℓ} : {A : Type ℓ} → (A → Bool) → Option A → Option Bool
measured test none = none
measured test (some a) = some (test a)

-- the checks that have a value, each with it
unfoldable pub known : List (String × Option Bool) → List (String × Bool)
known [] = []
known ((name, none) ∷ checks) = known checks
known ((name, some value) ∷ checks) = (name, value) ∷ known checks

module _ {ℓ} {F : Type ℓ} where
  -- `if gate_report is not None and not gate_report.passed`
  unfoldable pub report_missing : Option (PerformanceGateReport F) → List String
  report_missing none = []
  report_missing (some report) = if report.passed then [] else "performance_gates" ∷ []

module _ {ℓ} {F : Type ℓ} ⦃f : Float F⦄ where
  open f use {lit, le}

  -- the side of the threshold that a value is on
  abbrev pub clears : Bool → F → F → Bool
  clears at_least threshold value = if at_least then le threshold value else le value threshold

  -- `_cmp`
  unfoldable pub cmp : String → Option F → F → Bool → GateResult F
  cmp name none threshold at_least = record {
    name = name;
    status = GateStatus.unknown;
    observed = none;
    threshold = threshold;
    detail = some "NOT_MEASURED";
  }
  cmp name (some value) threshold at_least = record {
    name = name;
    status = if clears at_least threshold value then GateStatus.pass else GateStatus.fail;
    observed = some value;
    threshold = threshold;
    detail = none;
  }

  -- `float(samples)`
  abbrev pub float_of : Option ℕ → Option F
  float_of none = none
  float_of (some n) = some (lit n 0)

  unfoldable pub gates_of : PerformanceThresholds F → Evidence F → List (GateResult F)
  gates_of limits e =
      cmp "minimum_samples" (float_of e.samples) (lit limits.minimum_samples 0) true
      ∷ cmp "maximum_drawdown" e.drawdown limits.maximum_drawdown false
      ∷ cmp "minimum_expectancy" e.expectancy limits.minimum_expectancy true
      ∷ cmp "minimum_profit_factor" e.profit_factor limits.minimum_profit_factor true
      ∷ cmp "maximum_rejection_rate" e.rejection_rate limits.maximum_rejection_rate false
      ∷ cmp "maximum_reconciliation_failure_rate" e.reconciliation_failure_rate
          limits.maximum_reconciliation_failure_rate false
      ∷ cmp "maximum_high_confidence_failure_rate" e.high_confidence_failure_rate
          limits.maximum_high_confidence_failure_rate false
      ∷ cmp "minimum_calibration_quality" e.calibration_quality limits.minimum_calibration_quality
          true
      ∷ []

  unfoldable pub evaluate : PerformanceThresholds F → Evidence F → PerformanceGateReport F
  evaluate limits e =
      let gates = gates_of limits e in
      let failed = select (λ g. g.name) (λ g. is_fail g.status) gates in
      let unknown_gates = select (λ g. g.name) (λ g. is_unknown g.status) gates in
      record {
        passed = is_empty failed && is_empty unknown_gates;
        gates = gates;
        failed = failed;
        unknown = unknown_gates;
        thresholds = limits;
      }

  unfoldable pub checks_of : PerformanceThresholds F → Findings F → List (String × Option Bool)
  checks_of limits e =
      ("champion_strategy", e.champion_strategy)
      ∷ ("sufficient_observations", measured (leb limits.minimum_samples) e.observations)
      ∷ ("stable_model", e.model_stable)
      ∷ ("acceptable_drawdown", measured (λ x. le x limits.maximum_drawdown) e.drawdown)
      ∷ ("execution_quality", measured (λ x. le x limits.maximum_rejection_rate) e.rejection_rate)
      ∷ ("no_reconciliation_failures", measured (λ n. n == 0) e.reconciliation_failures)
      ∷ ("no_critical_data_issues", measured (λ n. n == 0) e.critical_data_issues)
      ∷ ("kill_switch_released", measured not e.kill_switch_engaged)
      ∷ ("risk_gates_pass", e.risk_gates_pass)
      ∷ ("circuit_breaker_closed", measured not e.circuit_breaker_open)
      ∷ []

  unfoldable pub eligibility :
      Option Settings → PerformanceThresholds F → Findings F → AutomationEligibility F
  eligibility settings limits e =
      let checks = checks_of limits e in
      let unknown_checks = select (λ c. c.0) (λ c. is_none c.1) checks in
      let missing = select (λ c. c.0) (λ c. is_false c.1) checks ++ report_missing e.gate_report in
      record {
        eligible = is_empty missing && is_empty unknown_checks;
        checks = known checks;
        missing = missing;
        unknown = unknown_checks;
        gate_report = e.gate_report;
        human_approved = elim settings [ none ↦ false | some s ↦ s.demo_automation_approved ];
      }
