-- ===== src/Examples/Days.antt =====
-- The theorems on the trading day, run on a day that a loss has blocked.
use alm_trading.Base.{◌≡◌, refl, true, false, some, [], ◌∷◌, arith, mem, string_eq}
use alm_trading.Float.Nano.{Nano, nano_float}
use alm_trading.Float.{fmax}
use alm_trading.Daily.{
  DailyRiskState, DailyRiskTracker, trading_day, record_trade, restore, update, daily_drawdown,
  total_drawdown,
}
use alm_trading.Daily.Budget.{restore-update, update-recovers, update-trades}
use alm_trading.Limits.{max_trades_per_day_code}
use alm_trading.Examples.{limits, day, dec}

-- a day on which the loss limit was met
abbrev lost : DailyRiskState Nano
lost = record day { equity = dec 9600 0; blocked = true; reasons = "MAX_DAILY_LOSS_EXCEEDED" ∷ [] }

abbrev pub tracker : DailyRiskTracker Nano
tracker = record {
  limits = limits;
  local_time = λ t. t;
  reset_hour = 0;
  day = some 0;
  starting_equity = some (dec 10000 0);
  peak_equity = some (dec 10000 0);
  trade_count = 1;
  state = some lost;
}

restore-update_example :
    let s' = (update (restore tracker lost) (dec 9900 0) 40_000).1 in
    (s'.starting_equity ≡ lost.starting_equity)
    × (s'.trade_count ≡ lost.trade_count)
    × (s'.peak_equity ≡ fmax lost.peak_equity (dec 9900 0))
unfolding trading_day
restore-update_example = restore-update tracker lost (dec 9900 0) 40_000 refl

update-recovers_example :
    let s' = (update tracker (dec 9900 0) 40_000).1 in (s'.blocked ≡ false) × (s'.trading_day ≡ 0)
unfolding trading_day daily_drawdown total_drawdown
update-recovers_example =
    update-recovers tracker lost (dec 10000 0) (dec 10000 0) (dec 9900 0) 40_000 refl refl refl refl
      refl refl (refl, refl, refl, omega arith)

update-trades_example :
    let s = (update (record_trade tracker 4) (dec 10000 0) 40_000).1 in
    (s.blocked ≡ true) × (mem max_trades_per_day_code s.reasons ≡ true)
unfolding trading_day
update-trades_example = update-trades tracker 4 (dec 10000 0) 40_000 refl (omega arith)
