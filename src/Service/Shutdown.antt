-- ===== src/Service/Shutdown.antt =====
-- The shutdown conditions, with what the service already knows, and the kill switch that they engage
-- (execution/demo/service.py, `check_emergency`, `engage_kill_switch` and `release_kill_switch`).
use alm_trading.Base.{ℕ, String, Bool, true, false, Option, none, some, Result, ok, raise, or_else}
use alm_trading.Float.{Float}
use alm_trading.Settings.{demo_execution_symbol_allowlist}
use alm_trading.Account.{Mt5Account, TradeMode}
use alm_trading.KillSwitch.{ExecutionKillSwitch, KillSwitchEvent, engage, release}
use alm_trading.Daily.{DailyRiskState}
use alm_trading.Breaker.{BreakerSignals, CircuitBreaker}
use alm_trading.Breaker.Trip.{check as check_breaker}
use alm_trading.Emergency.{EmergencySignals, EmergencyDecision, check as check_controller}
use alm_trading.Service.{DemoService, World, ReadClient}

abbrev trade_mode_name : TradeMode → String
trade_mode_name TradeMode.demo = "DEMO"
trade_mode_name TradeMode.contest = "CONTEST"
trade_mode_name TradeMode.real = "REAL"
trade_mode_name TradeMode.unknown = "UNKNOWN"

module _ {ℓ} {F : Type ℓ} where
  abbrev figure {κ} : {B : Type κ} → (DailyRiskState F → B) → Option (DailyRiskState F) → Option B
  figure read none = none
  figure read (some daily) = some (read daily)

  abbrev account_text : (Mt5Account F → Option String) → Option (Mt5Account F) → Option String
  account_text read none = none
  account_text read (some account) = read account

  abbrev is_connected : Option (ReadClient F) → Bool
  is_connected none = true
  is_connected (some c) = c.connected

  unfoldable pub emergency_signals : DemoService F → World F → EmergencySignals F
  emergency_signals s w = record {
    daily_drawdown = figure (λ d. d.daily_drawdown) s.daily.state;
    total_drawdown = figure (λ d. d.total_drawdown) s.daily.state;
    execution_errors = s.execution_errors;
    connection_failures = 0;
    connected = is_connected w.read_client;
    data_age_seconds = none;
    reconciliation_failures = s.reconciliation_failures;
    account_type = account_text (λ a. some (trade_mode_name a.trade_mode)) w.account;
    expected_account_type = "DEMO";
    broker = account_text (λ a. some a.broker) w.account;
    expected_broker = some s.settings.mt5_broker;
    server = account_text (λ a. a.server) w.account;
    expected_server = s.settings.mt5_server;
    spread = none;
    model_failed = false;
    risk_engine_failed = false;
  }

  unfoldable pub breaker_signals : DemoService F → EmergencySignals F → BreakerSignals F
  breaker_signals s signals = record {
    daily_drawdown = signals.daily_drawdown;
    total_drawdown = signals.total_drawdown;
    reconciliation_failures = signals.reconciliation_failures;
    execution_failures = signals.execution_errors;
    data_age_seconds = signals.data_age_seconds;
    model_failed = signals.model_failed;
    risk_engine_failed = signals.risk_engine_failed;
    account_type = signals.account_type;
    expected_account_type = "DEMO";
    broker = signals.broker;
    expected_broker = signals.expected_broker;
    symbol = none;
    allowed_symbols = demo_execution_symbol_allowlist s.settings;
    spread = signals.spread;
  }

module _ {ℓ} {F : Type ℓ} ⦃f : Float F⦄ where
  -- the controller's shutdown, which engages the shared switch
  unfoldable pub shut_down :
      DemoService F → World F → EmergencySignals F → ExecutionKillSwitch × EmergencyDecision
  shut_down s w signals =
      let (switch, decision) =
        check_controller s.emergency signals "emergency" w.now (some s.switch) in
      (or_else switch s.switch, decision)

  -- the breaker and the switch after its own conditions
  unfoldable pub trip_breaker :
      DemoService F
      → World F
      → EmergencySignals F
      → ExecutionKillSwitch
      → CircuitBreaker F × ExecutionKillSwitch
  trip_breaker s w signals switch =
      check_breaker (breaker_signals s signals) "circuit_breaker" w.now s.breaker switch

  unfoldable pub check_emergency : DemoService F → World F → DemoService F × EmergencyDecision
  check_emergency s w =
      let signals = emergency_signals s w in
      let shut = shut_down s w signals in
      let tripped = trip_breaker s w signals shut.0 in
      (record s { breaker = tripped.0; switch = tripped.1 }, shut.1)

module _ {ℓ} {F : Type ℓ} where
  unfoldable pub engage_kill_switch : DemoService F → String → String → ℕ → DemoService F
  engage_kill_switch s reason actor now = record s { switch = (engage reason actor now s.switch).0 }

  unfoldable pub released :
      DemoService F
      → Result (ExecutionKillSwitch × KillSwitchEvent)
      → DemoService F × Result ExecutionKillSwitch
  released s (raise e) = (s, raise e)
  released s (ok out) = (record s { switch = out.0 }, ok out.0)

  -- the switch whose status is returned; a release without a reason raises and changes nothing
  unfoldable pub release_kill_switch :
      DemoService F → String → String → ℕ → DemoService F × Result ExecutionKillSwitch
  release_kill_switch s reason actor now = released s (release reason actor now s.switch)
