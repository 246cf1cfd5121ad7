-- ===== src/Emergency.antt =====
-- Emergency protection: the conditions that engage the kill switch (execution/demo/emergency.py).
-- Persistence and alerts of a decision, which do not change it, and its `details` are left out.
pub mod Shutdown
use alm_trading.Base.{
  ℕ, String, Bool, true, false, not, ◌||◌, Option, none, some, List, [], ◌∷◌, ◌++◌, map, ltb, leb,
  if◌then◌else◌, dedup, is_empty, join, Eq, enum_eq, ◌≡◌,
}
use alm_trading.Float.{Float}
use alm_trading.Limits.{DemoRiskLimits}
use alm_trading.KillSwitch.{ExecutionKillSwitch, engage}
use alm_trading.Breaker.{fires_if, given_and, unexpected_type, differs}

pub data EmergencyTrigger : Type 0 where
  daily_loss_limit drawdown_limit execution_errors mt5_connection_unstable : EmergencyTrigger
  data_stale reconciliation_failure unexpected_account_type unexpected_broker : EmergencyTrigger
  spread_limit model_failure risk_engine_failure : EmergencyTrigger

EmergencyTrigger-discrete : Discrete EmergencyTrigger
EmergencyTrigger-discrete = hlevel

instance unfoldable pub emergency_eq : Eq EmergencyTrigger
unfolding EmergencyTrigger-discrete enum_eq
emergency_eq = enum_eq EmergencyTrigger-discrete

-- the value of a member
abbrev pub emergency_name : EmergencyTrigger → String
emergency_name EmergencyTrigger.daily_loss_limit = "DAILY_LOSS_LIMIT"
emergency_name EmergencyTrigger.drawdown_limit = "DRAWDOWN_LIMIT"
emergency_name EmergencyTrigger.execution_errors = "EXECUTION_ERRORS"
emergency_name EmergencyTrigger.mt5_connection_unstable = "MT5_CONNECTION_UNSTABLE"
emergency_name EmergencyTrigger.data_stale = "DATA_STALE"
emergency_name EmergencyTrigger.reconciliation_failure = "RECONCILIATION_FAILURE"
emergency_name EmergencyTrigger.unexpected_account_type = "UNEXPECTED_ACCOUNT_TYPE"
emergency_name EmergencyTrigger.unexpected_broker = "UNEXPECTED_BROKER"
emergency_name EmergencyTrigger.spread_limit = "SPREAD_LIMIT"
emergency_name EmergencyTrigger.model_failure = "MODEL_FAILURE"
emergency_name EmergencyTrigger.risk_engine_failure = "RISK_ENGINE_FAILURE"

-- What the caller observed; `none` where nothing was.
pub record EmergencySignals {ℓ} (F : Type ℓ) : Type ℓ where
  pub daily_drawdown : Option F
  pub total_drawdown : Option F
  pub execution_errors : ℕ
  pub connection_failures : ℕ
  pub connected : Bool
  pub data_age_seconds : Option F
  pub reconciliation_failures : ℕ
  pub account_type : Option String
  pub expected_account_type : String
  pub broker : Option String
  pub expected_broker : Option String
  pub server : Option String
  pub expected_server : Option String
  pub spread : Option F
  pub model_failed : Bool
  pub risk_engine_failed : Bool

pub record EmergencyDecision : Type 0 where
  pub shutdown : Bool
  pub triggers : List EmergencyTrigger
  pub reasons : List String
  pub action : Option String
  pub positions_closed : Bool
  pub timestamp : ℕ

-- What the controller holds beside its kill switch.
pub record EmergencyController {ℓ} (F : Type ℓ) : Type ℓ where
  pub limits : DemoRiskLimits F
  pub max_execution_errors : ℕ
  pub max_reconciliation_failures : ℕ
  pub connection_failure_threshold : ℕ
  pub data_stale_seconds : F

module _ {ℓ} {F : Type ℓ} ⦃f : Float F⦄ where
  open f use {lt, le}

  -- the conditions, in the order in which they are tested
  unfoldable pub fired : EmergencyController F → EmergencySignals F → List EmergencyTrigger
  fired c s =
      fires_if (given_and (le c.limits.max_daily_loss) s.daily_drawdown)
        EmergencyTrigger.daily_loss_limit
      ++ (fires_if (given_and (le c.limits.max_total_drawdown) s.total_drawdown)
            EmergencyTrigger.drawdown_limit
          ++ (fires_if (leb c.max_execution_errors s.execution_errors)
                EmergencyTrigger.execution_errors
              ++ (fires_if
                    (not s.connected || leb c.connection_failure_threshold s.connection_failures)
                    EmergencyTrigger.mt5_connection_unstable
                  ++ (fires_if (given_and (lt c.data_stale_seconds) s.data_age_seconds)
                        EmergencyTrigger.data_stale
                      ++ (fires_if (leb c.max_reconciliation_failures s.reconciliation_failures)
                            EmergencyTrigger.reconciliation_failure
                          ++ (fires_if (unexpected_type s.expected_account_type s.account_type)
                                EmergencyTrigger.unexpected_account_type
                              ++ (fires_if (differs s.broker s.expected_broker)
                                    EmergencyTrigger.unexpected_broker
                                  ++ (fires_if (differs s.server s.expected_server)
                                        EmergencyTrigger.unexpected_broker
                                      ++ (fires_if (given_and (lt c.limits.max_spread) s.spread)
                                            EmergencyTrigger.spread_limit
                                          ++ (fires_if s.model_failed EmergencyTrigger.model_failure
                                              ++ fires_if s.risk_engine_failed
                                                  EmergencyTrigger.risk_engine_failure))))))))))

  unfoldable pub evaluate : EmergencyController F → EmergencySignals F → ℕ → EmergencyDecision
  evaluate c s now =
      let unique = dedup (fired c s) in
      record {
        shutdown = not (is_empty unique);
        triggers = unique;
        reasons = map emergency_name unique;
        action = if is_empty unique then none else some "EXECUTION_SHUTDOWN";
        positions_closed = false;
        timestamp = now;
      }

-- The controller's kill switch is `none` where it has none.
unfoldable pub shutdown :
    EmergencyDecision → String → ℕ → Option ExecutionKillSwitch → Option ExecutionKillSwitch
shutdown decision actor now none = none
shutdown decision actor now (some switch) =
    let reason =
      if is_empty decision.reasons then "EXECUTION_SHUTDOWN" else join ", " decision.reasons in
    if not decision.shutdown
    then some switch
    else if switch.engaged
    then some switch
    else some (engage reason actor now switch).0

module _ {ℓ} {F : Type ℓ} ⦃f : Float F⦄ where
  unfoldable pub check :
      EmergencyController F
      → EmergencySignals F
      → String
      → ℕ
      → Option ExecutionKillSwitch
      → Option ExecutionKillSwitch × EmergencyDecision
  check c s actor now switch =
      let decision = evaluate c s now in (shutdown decision actor now switch, decision)
