-- ===== src/Daily.antt =====
-- The trading day and its risk budget (execution/demo/daily_risk.py). Moments are whole seconds.
-- How the configured time zone places a moment on the calendar is not the repository's: the tracker
-- holds `local_time`, the seconds on the local calendar. The bounds of the day, which are only
-- displayed, are left out.
pub mod Budget
use alm_trading.Base.{
  ℕ, ◌+◌, ◌-◌, ◌*◌, ◌/◌, String, Bool, true, false, not, Option, none, some, List, [], ◌∷◌, ◌++◌,
  ◌==◌, leb, if◌then◌else◌, or_else, is_empty,
}
use alm_trading.Float.{Float, nought, fmax, truthy}
use alm_trading.Limits.{
  DemoRiskLimits, max_daily_loss_code, max_total_drawdown_code, max_trades_per_day_code,
}

abbrev pub no_starting_equity_code : String
no_starting_equity_code = "DAILY_STARTING_EQUITY_UNKNOWN"

pub record DailyRiskState {ℓ} (F : Type ℓ) : Type ℓ where
  pub trading_day : ℕ
  pub starting_equity : F
  pub equity : F
  pub peak_equity : F
  pub daily_pnl : F
  pub daily_drawdown : F
  pub total_drawdown : F
  pub trade_count : ℕ
  pub blocked : Bool
  pub reasons : List String
  pub updated_at : ℕ

pub record DailyRiskTracker {ℓ} (F : Type ℓ) : Type ℓ where
  pub limits : DemoRiskLimits F
  pub local_time : ℕ → ℕ
  pub reset_hour : ℕ
  pub day : Option ℕ
  pub starting_equity : Option F
  pub peak_equity : Option F
  pub trade_count : ℕ
  pub state : Option (DailyRiskState F)

abbrev code_if : Bool → String → List String
code_if b code = if b then code ∷ [] else []

abbrev is_day : Option ℕ → ℕ → Bool
is_day none d = false
is_day (some e) d = e == d

module _ {ℓ} {F : Type ℓ} where
  -- the number of the day that the local time less the reset hour lies in
  unfoldable pub trading_day : DailyRiskTracker F → ℕ → ℕ
  trading_day t moment = (t.local_time moment - t.reset_hour * 3600) / 86_400

  unfoldable pub record_trade : DailyRiskTracker F → ℕ → DailyRiskTracker F
  record_trade t count = record t { trade_count = t.trade_count + count }

  unfoldable pub restore : DailyRiskTracker F → DailyRiskState F → DailyRiskTracker F
  restore t s = record t {
    day = some s.trading_day;
    starting_equity = some s.starting_equity;
    peak_equity = some s.peak_equity;
    trade_count = s.trade_count;
    state = some s;
  }

module _ {ℓ} {F : Type ℓ} ⦃f : Float F⦄ where
  open f use {lt, le, sub, div, neg}

  -- the fall below the start of the day, and below the peak, as fractions
  unfoldable pub daily_drawdown : F → F → F
  daily_drawdown start value =
      if truthy start then fmax nought (div (neg (sub value start)) start) else nought

  unfoldable pub total_drawdown : F → F → F
  total_drawdown peak value =
      if truthy peak then fmax nought (div (sub peak value) peak) else nought

  unfoldable pub day_reasons : DemoRiskLimits F → F → F → F → ℕ → List String
  unfolding daily_drawdown total_drawdown
  day_reasons limits start peak value trades =
      code_if (not (truthy start)) no_starting_equity_code
      ++ (code_if (le limits.max_daily_loss (daily_drawdown start value)) max_daily_loss_code
          ++ (code_if (le limits.max_total_drawdown (total_drawdown peak value))
                max_total_drawdown_code
              ++ code_if (leb limits.max_trades_per_day trades) max_trades_per_day_code))

  -- the tracker at the start of an update: a new day starts a new budget
  unfoldable pub roll : DailyRiskTracker F → F → ℕ → DailyRiskTracker F
  roll t value day =
      if is_day t.day day
      then t
      else record t { day = some day; starting_equity = some value; trade_count = 0 }

  -- `self._peak_equity`, after an update with a value
  unfoldable pub raise_peak : Option F → F → F
  raise_peak none value = value
  raise_peak (some peak) value = fmax peak value

  unfoldable pub update : DailyRiskTracker F → F → ℕ → DailyRiskTracker F × DailyRiskState F
  unfolding trading_day day_reasons roll raise_peak
  update t value now =
      let day = trading_day t now in
      let rolled = roll t value day in
      let start = or_else rolled.starting_equity value in
      let peak = raise_peak rolled.peak_equity value in
      let reasons = day_reasons t.limits start peak value rolled.trade_count in
      let state : DailyRiskState F = record {
        trading_day = day;
        starting_equity = start;
        equity = value;
        peak_equity = peak;
        daily_pnl = sub value start;
        daily_drawdown = daily_drawdown start value;
        total_drawdown = total_drawdown peak value;
        trade_count = rolled.trade_count;
        blocked = not (is_empty reasons);
        reasons = reasons;
        updated_at = now;
      } in
      (
        record rolled { starting_equity = some start; peak_equity = some peak; state = some state },
        state,
      )
