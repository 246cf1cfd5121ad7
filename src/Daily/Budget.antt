-- ===== src/Daily/Budget.antt =====
-- The budget of a day across updates, trades and restarts.
use alm_trading.Base.{
  ℕ, ◌+◌, ◌≤◌, ◌<◌, ◌≡◌, ◌≢◌, ◌↔◌, true, false, some, arith, or_else, mem, string_eq, is_empty,
}
use alm_trading.Float.{Float, IsOrdered, IsNumber, ◌≼◌, fmax, fmax-le}
use alm_trading.Limits.{DemoRiskLimits, max_trades_per_day_code}
use alm_trading.Daily.{
  DailyRiskTracker, DailyRiskState, trading_day, record_trade, restore, daily_drawdown,
  total_drawdown, day_reasons, raise_peak, update,
}

module _ {ℓ} {F : Type ℓ} ⦃f : Float F⦄ where
  open f use {lt, le}

  -- For a tracker whose start is known, an update on the same trading day keeps the day's start
  -- and trade count; one on another day starts a new budget at the present equity.
  pub update-budget :
      (t : DailyRiskTracker F) (value start : F) (now : ℕ)
      → t.starting_equity ≡ some start
      → let s = (update t value now).1 in
        (t.day ≡ some (trading_day t now)
          → (s.starting_equity ≡ start) × (s.trade_count ≡ t.trade_count))
        × (t.day ≢ some (trading_day t now) → (s.starting_equity ≡ value) × (s.trade_count ≡ 0))
  unfolding update
  update-budget t value start now h = (λ same. ground arith, λ other. ground arith)

  -- no limit is met, as tests of the figures
  abbrev pub IsWithin : DemoRiskLimits F → F → F → F → ℕ → Type 0
  IsWithin limits start daily total trades =
      (f.eq start (f.lit 0 0) ≡ false)
      × (le limits.max_daily_loss daily ≡ false)
      × (le limits.max_total_drawdown total ≡ false)
      × (trades < limits.max_trades_per_day)

  day_reasons-IsWithin :
      (l : DemoRiskLimits F) (start peak value : F) (n : ℕ)
      → (is_empty (day_reasons l start peak value n) ≡ true)
        ↔ IsWithin l start (daily_drawdown start value) (total_drawdown peak value) n
  unfolding day_reasons
  day_reasons-IsWithin l start peak value n = (λ h. ground arith, λ h. ground arith)

  -- A day is open for trading exactly when its start is known and its daily loss, its drawdown and
  -- its trade count are below their limits.
  pub update-blocked :
      (t : DailyRiskTracker F) (value : F) (now : ℕ)
      → let s = (update t value now).1 in
        (s.blocked ≡ false)
        ↔ IsWithin t.limits s.starting_equity s.daily_drawdown s.total_drawdown s.trade_count
  unfolding update
  update-blocked t value now =
      let s = (update t value now).1 in
      let equally =
        day_reasons-IsWithin t.limits s.starting_equity s.peak_equity value s.trade_count in
      (λ h. equally.0 (ground arith), λ h. ground (arith, equally.1 h))

  -- A tracker restored from a persisted state goes on with that state's budget: on the same
  -- trading day its start and its trade count are those of the state, and its peak is the state's
  -- raised by the equity.
  pub restore-update :
      (t : DailyRiskTracker F) (s : DailyRiskState F) (value : F) (now : ℕ)
      → s.trading_day ≡ trading_day t now
      → let s' = (update (restore t s) value now).1 in
        (s'.starting_equity ≡ s.starting_equity)
        × (s'.trade_count ≡ s.trade_count)
        × (s'.peak_equity ≡ fmax s.peak_equity value)
  unfolding update restore
  restore-update t s value now h = ground arith

  -- A day that an update has blocked is not held blocked: on the same day, an equity back within
  -- the limits, with trades to spare, gives an unblocked state of that same day.
  pub update-recovers :
      (t : DailyRiskTracker F) (s : DailyRiskState F) (start peak value : F) (now : ℕ)
      → t.state ≡ some s
      → s.blocked ≡ true
      → s.trading_day ≡ trading_day t now
      → t.day ≡ some s.trading_day
      → t.starting_equity ≡ some start
      → t.peak_equity ≡ some peak
      → IsWithin t.limits start
          (daily_drawdown start value)
          (total_drawdown (fmax peak value) value)
          t.trade_count
      → let s' = (update t value now).1 in (s'.blocked ≡ false) × (s'.trading_day ≡ s.trading_day)
  unfolding update
  update-recovers t s start peak value now e b d day_of st pk w =
      ground (arith, day_reasons-IsWithin t.limits start (fmax peak value) value t.trade_count)

  day_reasons-trades :
      (l : DemoRiskLimits F) (start peak value : F) (n : ℕ)
      → l.max_trades_per_day ≤ n
      → (is_empty (day_reasons l start peak value n) ≡ false)
        × (mem max_trades_per_day_code (day_reasons l start peak value n) ≡ true)
  unfolding day_reasons
  day_reasons-trades l start peak value n h = (ground arith, ground arith)

  -- On the tracker's own day, once the trades recorded reach the limit, an update is blocked, with
  -- the code of that limit among its reasons.
  pub update-trades :
      (t : DailyRiskTracker F) (n : ℕ) (value : F) (now : ℕ)
      → t.day ≡ some (trading_day t now)
      → t.limits.max_trades_per_day ≤ t.trade_count + n
      → let s = (update (record_trade t n) value now).1 in
        (s.blocked ≡ true) × (mem max_trades_per_day_code s.reasons ≡ true)
  unfolding update record_trade
  update-trades t n value now same used =
      let start = or_else t.starting_equity value in
      let peak = raise_peak t.peak_equity value in
      ground (arith, day_reasons-trades t.limits start peak value (t.trade_count + n) used)

  -- In an arithmetic with the laws of the order, the peak never falls and is at least the equity,
  -- where both are numbers.
  pub update-peak :
      (laws : IsOrdered F) (t : DailyRiskTracker F) (peak value : F) (now : ℕ)
      → t.peak_equity ≡ some peak
      → IsNumber peak
      → IsNumber value
      → let s = (update t value now).1 in (peak ≼ s.peak_equity) × (value ≼ s.peak_equity)
  unfolding update
  update-peak laws t peak value now e p v =
      let reached : (update t value now).1.peak_equity ≡ fmax peak value = ground arith in
      rw reached (fmax-le laws peak value p v)
