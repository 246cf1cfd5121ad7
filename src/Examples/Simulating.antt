-- ===== src/Examples/Simulating.antt =====
-- The theorem on paper trading, run on a service that holds one position.
use alm_trading.Base.{◌≡◌, refl, false, none, [], ◌∷◌, ok}
use alm_trading.Float.Nano.{Nano, nano_float}
use alm_trading.Paper.{Direction, PositionState, PaperPosition, mark_position}
use alm_trading.Paper.Trading.{
  PaperService, PaperServiceState, lookup, put, mark, close_position, on_key,
}
use alm_trading.Paper.Held.{IsClosing}
use alm_trading.Paper.Runs.{Call, after, run, run-closes}
use alm_trading.Examples.{dec}

abbrev position : PaperPosition Nano
position = record {
  position_id = "p1";
  symbol = "EURUSD";
  direction = Direction.long;
  entry_price = dec 110 2;
  average_entry_price = dec 110 2;
  quantity = dec 1 0;
  notional = dec 110 2;
  unrealized_pnl = dec 0 0;
  realized_pnl = dec 0 0;
  opened_at = 0;
  updated_at = 0;
  state = PositionState.opened;
  dca_entries = 0;
  stop_loss = none;
  take_profit = none;
}

abbrev service : PaperService Nano
service = record {
  account = record {
    account_id = "paper-default";
    initial_balance = dec 1000 0;
    balance = dec 1000 0;
    equity = dec 1000 0;
    margin = dec 0 0;
    free_margin = dec 1000 0;
    used_margin = dec 0 0;
    realized_pnl = dec 0 0;
    unrealized_pnl = dec 0 0;
    commission = dec 0 0;
    slippage = dec 0 0;
    updated_at = 0;
    peak_equity = dec 1000 0;
    max_drawdown = dec 0 0;
  };
  execution = record {
    fallback_spread = dec 1 4;
    fixed_slippage = dec 2 5;
    percentage_slippage = dec 0 0;
    volatility_slippage_multiplier = dec 5 2;
    commission_per_trade = dec 0 0;
    commission_percentage = dec 0 0;
    live_trading_enabled = false;
  };
  risk = record {
    max_drawdown = dec 2 1;
    max_exposure = dec 100000 0;
    max_position_size = dec 10 0;
    max_dca_entries = 3;
    max_daily_loss = dec 3 2;
    max_concurrent_positions = 3;
    max_spread = dec 5 3;
    kill_switch_enabled = false;
  };
  daily = record {
    daily_loss_limit = dec 3 2;
    day = none;
    daily_start_equity = dec 0 0;
    daily_pnl = dec 0 0;
    daily_drawdown = dec 0 0;
    paused = false;
  };
  state = PaperServiceState.running;
  positions = position ∷ [];
  orders = [];
}

-- the position is marked, and another one, which the service does not hold, is closed
run-closes_example :
    let s = run (Call.marking "p1" (dec 112 2) 60 ∷ Call.closing "p2" (dec 1 0) 61 ∷ []) service in
    (x : PaperService Nano × PaperPosition Nano) × (close_position s "p1" (dec 113 2) 90 ≡ ok x)
    × IsClosing "p1" x
unfolding run after mark lookup put mark_position on_key close_position
run-closes_example =
    run-closes (Call.marking "p1" (dec 112 2) 60 ∷ Call.closing "p2" (dec 1 0) 61 ∷ []) service "p1"
      (mark_position position (dec 112 2) 60) (dec 113 2) 90 (refl, tt) refl
