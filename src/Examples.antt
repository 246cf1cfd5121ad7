-- ===== src/Examples.antt =====
-- Concrete inputs: a configuration armed for DEMO execution, its account and market, an order within
-- its limits. The children run the theorems on them.
pub mod Switches
pub mod Chain
pub mod States
pub mod Days
pub mod Proposals
pub mod Wire
pub mod Trading
pub mod Sizes
pub mod Observing
pub mod Judging
pub mod Simulating
use alm_trading.Base.{ℕ, ◌*◌, String, Bool, true, false, Option, none, some, List, [], ◌∷◌, ◌%◌}
use alm_trading.Base.Int.{ℤ, pos}
use alm_trading.Float.Nano.{Nano, num, nan, nano_float}
use alm_trading.Settings.{Settings}
use alm_trading.Order.{OrderRequest, DemoOrderRequest, OrderSide, OrderType, ExecutionIntent}
use alm_trading.Session.{SessionEngine}
use alm_trading.Account.{
  Mt5Account, TradeMode, TerminalInfo, DemoValidation, DemoAccountResult, DemoAccountValidator,
}
use alm_trading.KillSwitch.{ExecutionKillSwitch}
use alm_trading.Guard.{ExecutionGuard, GuardContext, Quote}
use alm_trading.Mode.{ExecutionMode}
use alm_trading.Limits.{DemoRiskLimits}
use alm_trading.Daily.{DailyRiskState, DailyRiskTracker}
use alm_trading.Gates.{DemoExecutionContext, DemoGateChain, default_context}

-- `dec m k` is m * 10 ** -k
abbrev pub dec : ℕ → ℕ → Nano
dec m k = nano_float.lit m k

abbrev pub armed_settings : Settings
armed_settings = record {
  live_trading_enabled = false;
  demo_trading_enabled = true;
  trading_environment = "demo";
  read_only_mode = true;
  mt5_read_only = false;
  mt5_execution_enabled = true;
  mt5_server = none;
  mt5_broker = "Broker";
  mt5_magic_number = 7;
  execution_kill_switch = false;
  demo_execution_symbols = "EURUSD";
  real_account_execution = false;
  demo_execution_mode = "DEMO_AUTOMATED";
  demo_automated_execution_enabled = true;
  demo_dca_enabled = false;
  demo_trading_day_reset_hour = 0;
  shadow_mode_enabled = true;
  circuit_breaker_enabled = true;
  demo_automation_approved = true;
  ai_auto_promote = false;
  ai_online_learning_enabled = false;
  ai_automatic_training = false;
}

abbrev pub limits : DemoRiskLimits Nano
limits = record {
  max_risk_per_trade = dec 1 2;
  max_daily_loss = dec 3 2;
  max_total_drawdown = dec 1 1;
  max_open_positions = 3;
  max_symbol_exposure = dec 50000 0;
  max_total_exposure = dec 100000 0;
  max_dca_levels = 2;
  max_total_dca_exposure = dec 20000 0;
  max_trades_per_day = 5;
  max_spread = dec 3 4;
  max_slippage = dec 2 4;
  max_margin_usage = dec 5 1;
  max_position_size = dec 1 0;
  min_volume = dec 1 2;
  volume_step = dec 1 2;
  min_stop_distance = dec 5 4;
}

abbrev pub sessions : SessionEngine
sessions = record {
  time_of_day = λ t. t % 86_400;
  asia = (0, 32_400);
  london = (28_800, 61_200);
  new_york = (46_800, 79_200);
}

abbrev pub guard : ExecutionGuard Nano
guard = record {
  settings = armed_settings;
  sessions = sessions;
  demo_server_patterns = "demo" ∷ [];
  min_volume = dec 1 2;
  max_volume = dec 1 0;
  volume_step = dec 1 2;
  max_open_positions = 3;
  max_dca_entries = 2;
  max_spread = dec 3 4;
  max_daily_drawdown = dec 3 2;
  max_exposure = dec 100000 0;
  min_stop_distance = dec 5 4;
  allowed_sessions = "LONDON" ∷ [];
  price_tolerance = dec 1 3;
  symbol_allowlist = "EURUSD" ∷ [];
}

abbrev pub demo_account : Mt5Account Nano
demo_account = record {
  server = some "Broker-Demo";
  broker = "Broker";
  equity = dec 10000 0;
  margin = dec 100 0;
  free_margin = dec 9900 0;
  trade_mode = TradeMode.demo;
}

abbrev pub real_account : Mt5Account Nano
real_account = record demo_account { trade_mode = TradeMode.real }

abbrev pub validator : DemoAccountValidator
validator = record { server_patterns = "demo" ∷ []; require_permissions = true }

abbrev pub terminal : TerminalInfo
terminal = record {
  available = true;
  connected = true;
  permissions_known = true;
  tradeapi_disabled = false;
}

abbrev pub verified : DemoAccountResult Nano
verified = record {
  status = DemoValidation.valid_demo;
  reasons = "ACCOUNT_IS_DEMO" ∷ [];
  account = some demo_account;
  terminal = some terminal;
}

abbrev pub quote : Quote Nano
quote = record { bid = some (dec 11000 4); ask = some (dec 11001 4) }

abbrev pub order : DemoOrderRequest Nano
order = record {
  request_id = "R1";
  symbol = "EURUSD";
  side = OrderSide.buy;
  volume = dec 1 1;
  order_type = OrderType.market;
  price = none;
  stop_loss = some (dec 10900 4);
  take_profit = some (dec 11200 4);
  strategy_id = none;
  strategy_version = none;
  model_version = none;
  feature_version = none;
  signal_id = none;
  risk_snapshot_id = none;
  timestamp = 36_000;
  reason = "signal";
  intent = ExecutionIntent.new_entry;
  magic_number = 7;
  comment = "";
  risk_percent = some (dec 1 2);
  risk_amount = none;
  stop_distance = none;
}

abbrev pub day : DailyRiskState Nano
day = record {
  trading_day = 0;
  starting_equity = dec 10000 0;
  equity = dec 10000 0;
  peak_equity = dec 10000 0;
  daily_pnl = dec 0 0;
  daily_drawdown = dec 0 0;
  total_drawdown = dec 0 0;
  trade_count = 0;
  blocked = false;
  reasons = [];
  updated_at = 36_000;
}

abbrev pub context : DemoExecutionContext Nano
context = record default_context {
  account = some verified;
  connected = true;
  quote = some quote;
  data_quality_ok = some true;
  risk_allowed = some true;
  equity = some (dec 10000 0);
  daily = some day;
  order_notional = dec 11000 0;
  strategy_status = some "CHAMPION";
  strategy_decision = some "EXECUTABLE_SIMULATION";
  timestamp = some 36_000;
}

abbrev pub chain : DemoGateChain Nano
chain = record {
  settings = armed_settings;
  limits = limits;
  guard = guard;
  sessions = sessions;
  default_mode = ExecutionMode.observation;
  mode_settings = armed_settings;
  minimum_confidence = dec 6 1;
  minimum_direction_probability = dec 6 1;
  require_prediction = false;
  executable_statuses = "CHAMPION" ∷ [];
  allow_challenger_execution = false;
  allow_experimental_execution = false;
  allowed_sessions = "LONDON" ∷ [];
  data_stale_seconds = dec 180 0;
}

abbrev pub released_switch : ExecutionKillSwitch
released_switch = record { engaged = false; events = [] }

abbrev pub engaged_switch : ExecutionKillSwitch
engaged_switch = record { engaged = true; events = [] }
