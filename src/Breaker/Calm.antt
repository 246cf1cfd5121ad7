-- ===== src/Breaker/Calm.antt =====
-- The conditions under which a check leaves the breaker closed.
use alm_trading.Base.{
  ℕ, String, ◌≡◌, ◌↔◌, ap, Bool, true, false, not, ◌||◌, List, [], ◌++◌, arith, ◌<◌, leb, ltb,
  is_empty, dedup, dedup-nil, nil_of_is_empty,
}
use alm_trading.Float.{Float}
use alm_trading.KillSwitch.{ExecutionKillSwitch, engage}
use alm_trading.Breaker.{
  CircuitBreaker, BreakerSignals, trigger_eq, is_open, fires_if, given_and, unexpected_type,
  differs, outside,
}
use alm_trading.Breaker.Trip.{fired, evaluate, trip, check}

pub fires_if-nil {ℓ} :
    {A : Type ℓ} (b : Bool) (t : A) (rest : List A)
    → fires_if b t ++ rest ≡ []
    → (b ≡ false) × (rest ≡ [])
fires_if-nil b t rest h = ground arith

pub fires_if-false {ℓ} : {A : Type ℓ} (b : Bool) (t : A) → fires_if b t ≡ [] → b ≡ false
fires_if-false b t h = ground arith

pub lt_of_leb : (m n : ℕ) → leb m n ≡ false → n < m
lt_of_leb m n h = ground arith

zero_of_ltb : (n : ℕ) → ltb 0 n ≡ false → n ≡ 0
zero_of_ltb n h = ground arith

module _ {ℓ} {F : Type ℓ} ⦃f : Float F⦄ where
  open f use {lt, le, mul}

  -- Every condition is absent: a measured value is within its limit, no reconciliation has failed,
  -- failures are fewer than their limit, account, broker and symbol are as expected, and the
  -- components work.
  pub record IsCalm (b : CircuitBreaker F) (s : BreakerSignals F) : Type 0 where
    pub daily_loss : given_and (le b.limits.max_daily_loss) s.daily_drawdown ≡ false
    pub drawdown : given_and (le b.limits.max_total_drawdown) s.total_drawdown ≡ false
    pub reconciled : s.reconciliation_failures ≡ 0
    pub executed : s.execution_failures < b.max_execution_failures
    pub fresh : given_and (lt b.data_stale_seconds) s.data_age_seconds ≡ false
    pub model : s.model_failed ≡ false
    pub risk_engine : s.risk_engine_failed ≡ false
    pub account : unexpected_type s.expected_account_type s.account_type ≡ false
    pub broker : differs s.broker s.expected_broker ≡ false
    pub symbol : outside s.allowed_symbols s.symbol ≡ false
    pub spread : given_and (lt (mul b.limits.max_spread b.abnormal_spread_ratio)) s.spread ≡ false

  fired-IsCalm : (b : CircuitBreaker F) (s : BreakerSignals F) → fired b s ≡ [] → IsCalm b s
  unfolding fired
  fired-IsCalm b s h =
      let p1 = fires_if-nil (given_and (le b.limits.max_daily_loss) s.daily_drawdown) _ _ h in
      let p2 =
        fires_if-nil (given_and (le b.limits.max_total_drawdown) s.total_drawdown) _ _ p1.1 in
      let p3 = fires_if-nil (ltb 0 s.reconciliation_failures) _ _ p2.1 in
      let p4 = fires_if-nil (leb b.max_execution_failures s.execution_failures) _ _ p3.1 in
      let p5 = fires_if-nil (given_and (lt b.data_stale_seconds) s.data_age_seconds) _ _ p4.1 in
      let p6 = fires_if-nil s.model_failed _ _ p5.1 in
      let p7 = fires_if-nil s.risk_engine_failed _ _ p6.1 in
      let p8 = fires_if-nil (unexpected_type s.expected_account_type s.account_type) _ _ p7.1 in
      let p9 = fires_if-nil (differs s.broker s.expected_broker) _ _ p8.1 in
      let p10 = fires_if-nil (outside s.allowed_symbols s.symbol) _ _ p9.1 in
      record {
        daily_loss = p1.0;
        drawdown = p2.0;
        reconciled = zero_of_ltb _ p3.0;
        executed = lt_of_leb _ _ p4.0;
        fresh = p5.0;
        model = p6.0;
        risk_engine = p7.0;
        account = p8.0;
        broker = p9.0;
        symbol = p10.0;
        spread = fires_if-false _ _ p10.1;
      }

  IsCalm-fired : (b : CircuitBreaker F) (s : BreakerSignals F) → IsCalm b s → fired b s ≡ []
  unfolding fired
  IsCalm-fired b s q = ground (
    arith, q.daily_loss, q.drawdown, q.reconciled, q.executed, q.fresh, q.model, q.risk_engine,
    q.account, q.broker, q.symbol, q.spread,
  )

  evaluate-IsCalm :
      (b : CircuitBreaker F) (s : BreakerSignals F) → (is_empty (evaluate b s) ≡ true) ↔ IsCalm b s
  unfolding evaluate dedup
  evaluate-IsCalm b s = (
    λ h. fired-IsCalm b s (dedup-nil (fired b s) (nil_of_is_empty (dedup (fired b s)) h)),
    λ q. ap (λ ts. is_empty (dedup ts)) (IsCalm-fired b s q),
  )

  check-empty :
      (s : BreakerSignals F) (actor : String) (now : ℕ) (b : CircuitBreaker F)
      (k : ExecutionKillSwitch)
      → b.enabled ≡ true
      → is_open b ≡ false
      → let (b', k') = check s actor now b k in
        (is_open b' ≡ not (is_empty (evaluate b s))) × (k'.engaged ≡ (is_open b' || k.engaged))
  unfolding check trip engage
  check-empty s actor now b k on shut = (ground arith, ground arith)

  -- A check of an enabled, closed breaker leaves it closed exactly if each of the eleven
  -- conditions is absent, and afterwards the kill switch is engaged exactly if it was or the check
  -- has opened the breaker.
  pub check-IsCalm :
      (s : BreakerSignals F) (actor : String) (now : ℕ) (b : CircuitBreaker F)
      (k : ExecutionKillSwitch)
      → b.enabled ≡ true
      → is_open b ≡ false
      → let (b', k') = check s actor now b k in
        ((is_open b' ≡ false) ↔ IsCalm b s) × (k'.engaged ≡ (is_open b' || k.engaged))
  check-IsCalm s actor now b k on shut =
      let now_open = check-empty s actor now b k on shut in
      let calm = evaluate-IsCalm b s in
      ((λ h. calm.0 (ground arith), λ q. let e = calm.1 q in ground arith), now_open.1)
