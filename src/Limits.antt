-- ===== src/Limits.antt =====
-- The hard risk limits (execution/demo/limits.py): one record, filled from the configuration.
use alm_trading.Base.{ℕ, String}

pub record DemoRiskLimits {ℓ} (F : Type ℓ) : Type ℓ where
  pub max_risk_per_trade : F
  pub max_daily_loss : F
  pub max_total_drawdown : F
  pub max_open_positions : ℕ
  pub max_symbol_exposure : F
  pub max_total_exposure : F
  pub max_dca_levels : ℕ
  pub max_total_dca_exposure : F
  pub max_trades_per_day : ℕ
  pub max_spread : F
  pub max_slippage : F
  pub max_margin_usage : F
  pub max_position_size : F
  pub min_volume : F
  pub volume_step : F
  pub min_stop_distance : F

-- the codes of the limits
abbrev pub max_risk_per_trade_code : String
max_risk_per_trade_code = "MAX_RISK_PER_TRADE_EXCEEDED"

abbrev pub max_daily_loss_code : String
max_daily_loss_code = "MAX_DAILY_LOSS_EXCEEDED"

abbrev pub max_total_drawdown_code : String
max_total_drawdown_code = "MAX_TOTAL_DRAWDOWN_EXCEEDED"

abbrev pub max_open_positions_code : String
max_open_positions_code = "MAX_OPEN_POSITIONS_REACHED"

abbrev pub max_symbol_exposure_code : String
max_symbol_exposure_code = "MAX_SYMBOL_EXPOSURE_EXCEEDED"

abbrev pub max_total_exposure_code : String
max_total_exposure_code = "MAX_TOTAL_EXPOSURE_EXCEEDED"

abbrev pub max_dca_levels_code : String
max_dca_levels_code = "MAX_DCA_LEVELS_REACHED"

abbrev pub max_dca_exposure_code : String
max_dca_exposure_code = "MAX_TOTAL_DCA_EXPOSURE_EXCEEDED"

abbrev pub max_trades_per_day_code : String
max_trades_per_day_code = "MAX_TRADES_PER_DAY_REACHED"

abbrev pub max_spread_code : String
max_spread_code = "MAX_SPREAD_EXCEEDED"

abbrev pub max_slippage_code : String
max_slippage_code = "MAX_SLIPPAGE_EXCEEDED"

abbrev pub max_margin_usage_code : String
max_margin_usage_code = "MAX_MARGIN_USAGE_EXCEEDED"

abbrev pub max_position_size_code : String
max_position_size_code = "MAX_POSITION_SIZE_EXCEEDED"
