-- ===== src/Examples/Switches.antt =====
-- The theorems on the kill switch, the circuit breaker and the emergency controller, on small runs.
use alm_trading.Base.{
  ◌||◌, ◌&&◌, not, ◌↔◌, ◌≡◌, refl, true, false, none, some, List, [], ◌∷◌, strip, upper, lower,
  dedup,
}
use alm_trading.Float.Nano.{Nano, nano_float}
use alm_trading.KillSwitch.{ExecutionKillSwitch}
use alm_trading.KillSwitch.Release.{Call, calls, calls-engaged}
use alm_trading.Breaker.{
  CircuitBreaker, BreakerState, BreakerSignals, BreakerTrigger, RecoveryChecklist, is_open, missing,
}
use alm_trading.Breaker.Trip.{check}
use alm_trading.Breaker.Recovery.{Step, steps, steps-is_open}
use alm_trading.Breaker.Calm.{IsCalm, check-IsCalm}
use alm_trading.Emergency.{
  EmergencyController, EmergencySignals, fired, evaluate as emergency_evaluate,
  check as emergency_check,
}
use alm_trading.Emergency.Shutdown.{IsQuiet, check-IsQuiet}
use alm_trading.Examples.{limits, engaged_switch, released_switch, dec}

-- a second halt, and a release that states nothing
abbrev halts : List Call
halts = Call.engages "halt" "operator" 1 ∷ Call.releases "  " "operator" 2 ∷ []

calls-engaged_example : (calls halts engaged_switch).engaged ≡ true
unfolding strip
calls-engaged_example = calls-engaged halts engaged_switch refl refl

abbrev pub breaker : CircuitBreaker Nano
breaker = record {
  enabled = true;
  limits = limits;
  max_execution_failures = 3;
  data_stale_seconds = dec 180 0;
  abnormal_spread_ratio = dec 2 0;
  state = BreakerState.closed;
  events = [];
  triggers = [];
}

abbrev open_breaker : CircuitBreaker Nano
open_breaker = record breaker {
  state = BreakerState.open_state;
  triggers = BreakerTrigger.model_failure ∷ [];
}

abbrev failing : BreakerSignals Nano
failing = record {
  daily_drawdown = some (dec 5 2);
  total_drawdown = none;
  reconciliation_failures = 0;
  execution_failures = 0;
  data_age_seconds = none;
  model_failed = true;
  risk_engine_failed = false;
  account_type = some "DEMO";
  expected_account_type = "DEMO";
  broker = none;
  expected_broker = none;
  symbol = none;
  allowed_symbols = [];
  spread = none;
}

check-IsCalm_example :
    let (b', k') = check failing "system" 1 breaker released_switch in
    ((is_open b' ≡ false) ↔ IsCalm breaker failing)
    × (k'.engaged ≡ (is_open b' || released_switch.engaged))
check-IsCalm_example = check-IsCalm failing "system" 1 breaker released_switch refl refl

-- the checks are done, and nobody has signed
abbrev unsigned : RecoveryChecklist
unsigned = record {
  health_check = true;
  risk_check = true;
  account_validation = true;
  approved_by = none;
  reason = some "checked";
}

abbrev releases : List (Step Nano)
releases =
    Step.calls (Call.releases "all clear" "operator" 2)
    ∷ Step.resets unsigned none 3
    ∷ Step.checks failing "system" 4
    ∷ []

steps-is_open_example : is_open (steps releases (open_breaker, engaged_switch)).0 ≡ true
unfolding missing strip
steps-is_open_example = steps-is_open releases open_breaker engaged_switch refl refl

abbrev pub controller : EmergencyController Nano
controller = record {
  limits = limits;
  max_execution_errors = 3;
  max_reconciliation_failures = 1;
  connection_failure_threshold = 3;
  data_stale_seconds = dec 180 0;
}

-- one reconciliation failed, and the rest is as expected
abbrev unreconciled : EmergencySignals Nano
unreconciled = record {
  daily_drawdown = some (dec 1 2);
  total_drawdown = none;
  execution_errors = 0;
  connection_failures = 0;
  connected = true;
  data_age_seconds = none;
  reconciliation_failures = 1;
  account_type = some "DEMO";
  expected_account_type = "DEMO";
  broker = some "Broker";
  expected_broker = some " broker ";
  server = none;
  expected_server = none;
  spread = none;
  model_failed = false;
  risk_engine_failed = false;
}

-- the one condition fires, and engages the switch
unreconciled_test :
    (emergency_evaluate controller unreconciled 1).reasons ≡ "RECONCILIATION_FAILURE" ∷ []
unfolding emergency_evaluate dedup fired upper lower strip
unreconciled_test = refl

check-IsQuiet_example :
    let (after, decision) =
      emergency_check controller unreconciled "emergency" 1 (some released_switch) in
    ((decision.shutdown ≡ false) ↔ IsQuiet controller unreconciled)
    × ((k' : ExecutionKillSwitch) × (after ≡ some k')
        × (k'.engaged ≡ (decision.shutdown || released_switch.engaged))
        × ((decision.shutdown && not released_switch.engaged) ≡ false → k' ≡ released_switch))
check-IsQuiet_example = check-IsQuiet controller unreconciled "emergency" 1 released_switch
