-- ===== src/Examples/Judging.antt =====
-- The theorems on the performance gates, run on a body of evidence that clears them.
use alm_trading.Base.{◌≡◌, ◌↔◌, true, false, some}
use alm_trading.Float.Nano.{Nano, nano_float}
use alm_trading.Evidence.{PerformanceThresholds, Evidence, Findings, evaluate, eligibility}
use alm_trading.Evidence.Within.{IsWithin, evaluate-IsWithin}
use alm_trading.Evidence.Eligible.{IsEligible, eligibility-IsEligible}
use alm_trading.Examples.{dec, armed_settings}

abbrev thresholds : PerformanceThresholds Nano
thresholds = record {
  minimum_samples = 100;
  maximum_drawdown = dec 5 2;
  minimum_expectancy = dec 0 0;
  minimum_profit_factor = dec 110 2;
  maximum_rejection_rate = dec 10 2;
  maximum_reconciliation_failure_rate = dec 0 0;
  maximum_high_confidence_failure_rate = dec 30 2;
  minimum_calibration_quality = dec 80 2;
}

abbrev evidence : Evidence Nano
evidence = record {
  samples = some 120;
  drawdown = some (dec 3 2);
  expectancy = some (dec 1 1);
  profit_factor = some (dec 130 2);
  rejection_rate = some (dec 2 2);
  reconciliation_failure_rate = some (dec 0 0);
  high_confidence_failure_rate = some (dec 20 2);
  calibration_quality = some (dec 90 2);
}

abbrev findings : Findings Nano
findings = record {
  champion_strategy = some true;
  observations = some 120;
  model_stable = some true;
  drawdown = some (dec 3 2);
  rejection_rate = some (dec 2 2);
  reconciliation_failures = some 0;
  critical_data_issues = some 0;
  kill_switch_engaged = some false;
  risk_gates_pass = some true;
  circuit_breaker_open = some false;
  gate_report = some (evaluate thresholds evidence);
}

evaluate-IsWithin_example :
    ((evaluate thresholds evidence).passed ≡ true) ↔ IsWithin thresholds evidence
evaluate-IsWithin_example = evaluate-IsWithin thresholds evidence

eligibility-IsEligible_example :
    ((eligibility (some armed_settings) thresholds findings).eligible ≡ true)
    ↔ IsEligible thresholds findings
eligibility-IsEligible_example = eligibility-IsEligible (some armed_settings) thresholds findings
