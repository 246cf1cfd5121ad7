-- ===== src/Emergency/Shutdown.antt =====
-- Which observations shut execution down, and what a shutdown does.
use alm_trading.Base.{
  ℕ, String, ◌≡◌, ◌↔◌, refl, ap, Bool, true, false, not, ◌&&◌, ◌||◌, some, [], arith, ◌<◌, is_empty,
  if◌then◌else◌, join, dedup, dedup-nil, nil_of_is_empty, leb, Bool-cases, inl, inr,
}
use alm_trading.Float.{Float}
use alm_trading.KillSwitch.{ExecutionKillSwitch, engage}
use alm_trading.Breaker.Calm.{fires_if-nil, fires_if-false, lt_of_leb}
use alm_trading.Breaker.{given_and, unexpected_type, differs}
use alm_trading.Emergency.{
  emergency_eq, EmergencyController, EmergencySignals, EmergencyDecision, fired, evaluate, shutdown,
  check,
}

stable-connected : (a b : Bool) → (not a || b) ≡ false → a ≡ true
stable-connected a b h = ground arith

stable-count : (a b : Bool) → (not a || b) ≡ false → b ≡ false
stable-count a b h = ground arith

shutdown-engages :
    (d : EmergencyDecision) (actor : String) (now : ℕ) (k : ExecutionKillSwitch)
    → (k' : ExecutionKillSwitch) × (shutdown d actor now (some k) ≡ some k')
      × (k'.engaged ≡ (d.shutdown || k.engaged))
      × ((d.shutdown && not k.engaged) ≡ false → k' ≡ k)
unfolding shutdown engage
shutdown-engages d actor now k = elim (Bool-cases (d.shutdown && not k.engaged)) [
  | inr same ↦ (k, ground arith, ground arith, λ e. refl)
  | inl new ↦ (
    (engage (if is_empty d.reasons then "EXECUTION_SHUTDOWN" else join ", " d.reasons) actor now
        k).0,
    ground arith,
    ground arith,
    λ e. absurd (ground arith),
  )
]

module _ {ℓ} {F : Type ℓ} ⦃f : Float F⦄ where
  open f use {lt, le}

  -- Every condition is absent: a measured value is within its limit, a count is below its, what is
  -- known of the account is as expected, and the components work.
  pub record IsQuiet (c : EmergencyController F) (s : EmergencySignals F) : Type 0 where
    pub daily_loss : given_and (le c.limits.max_daily_loss) s.daily_drawdown ≡ false
    pub drawdown : given_and (le c.limits.max_total_drawdown) s.total_drawdown ≡ false
    pub errors : s.execution_errors < c.max_execution_errors
    pub connected : s.connected ≡ true
    pub stable : s.connection_failures < c.connection_failure_threshold
    pub fresh : given_and (lt c.data_stale_seconds) s.data_age_seconds ≡ false
    pub reconciled : s.reconciliation_failures < c.max_reconciliation_failures
    pub account : unexpected_type s.expected_account_type s.account_type ≡ false
    pub broker : differs s.broker s.expected_broker ≡ false
    pub server : differs s.server s.expected_server ≡ false
    pub spread : given_and (lt c.limits.max_spread) s.spread ≡ false
    pub model : s.model_failed ≡ false
    pub risk_engine : s.risk_engine_failed ≡ false

  fired-IsQuiet :
      (c : EmergencyController F) (s : EmergencySignals F) → fired c s ≡ [] → IsQuiet c s
  unfolding fired
  fired-IsQuiet c s h =
      let p1 = fires_if-nil (given_and (le c.limits.max_daily_loss) s.daily_drawdown) _ _ h in
      let p2 =
        fires_if-nil (given_and (le c.limits.max_total_drawdown) s.total_drawdown) _ _ p1.1 in
      let p3 = fires_if-nil (leb c.max_execution_errors s.execution_errors) _ _ p2.1 in
      let p4 =
        fires_if-nil (not s.connected || leb c.connection_failure_threshold s.connection_failures) _
          _ p3.1 in
      let p5 = fires_if-nil (given_and (lt c.data_stale_seconds) s.data_age_seconds) _ _ p4.1 in
      let p6 =
        fires_if-nil (leb c.max_reconciliation_failures s.reconciliation_failures) _ _ p5.1 in
      let p7 = fires_if-nil (unexpected_type s.expected_account_type s.account_type) _ _ p6.1 in
      let p8 = fires_if-nil (differs s.broker s.expected_broker) _ _ p7.1 in
      let p9 = fires_if-nil (differs s.server s.expected_server) _ _ p8.1 in
      let p10 = fires_if-nil (given_and (lt c.limits.max_spread) s.spread) _ _ p9.1 in
      let p11 = fires_if-nil s.model_failed _ _ p10.1 in
      record {
        daily_loss = p1.0;
        drawdown = p2.0;
        errors = lt_of_leb _ _ p3.0;
        connected = stable-connected s.connected _ p4.0;
        stable = lt_of_leb _ _ (stable-count s.connected _ p4.0);
        fresh = p5.0;
        reconciled = lt_of_leb _ _ p6.0;
        account = p7.0;
        broker = p8.0;
        server = p9.0;
        spread = p10.0;
        model = p11.0;
        risk_engine = fires_if-false s.risk_engine_failed _ p11.1;
      }

  IsQuiet-fired :
      (c : EmergencyController F) (s : EmergencySignals F) → IsQuiet c s → fired c s ≡ []
  unfolding fired
  IsQuiet-fired c s q = ground (
    arith, q.daily_loss, q.drawdown, q.errors, q.connected, q.stable, q.fresh, q.reconciled,
    q.account, q.broker, q.server, q.spread, q.model, q.risk_engine,
  )

  -- The emergency controller stays silent exactly when every condition is absent.
  pub evaluate-IsQuiet :
      (c : EmergencyController F) (s : EmergencySignals F) (now : ℕ)
      → ((evaluate c s now).shutdown ≡ false) ↔ IsQuiet c s
  unfolding evaluate dedup
  evaluate-IsQuiet c s now = (
    λ h.
        fired-IsQuiet c s
          (dedup-nil (fired c s) (nil_of_is_empty (dedup (fired c s)) (ground arith))),
    λ q. ap (λ ts. not (is_empty (dedup ts))) (IsQuiet-fired c s q),
  )

  -- A check of the emergency controller does not shut down exactly if every condition is absent;
  -- afterwards the kill switch is engaged exactly if it was or the check shuts down, and it is as
  -- it was unless the check shuts down and it was not engaged.
  pub check-IsQuiet :
      (c : EmergencyController F) (s : EmergencySignals F) (actor : String) (now : ℕ)
      (k : ExecutionKillSwitch)
      → let (after, decision) = check c s actor now (some k) in
        ((decision.shutdown ≡ false) ↔ IsQuiet c s)
        × ((k' : ExecutionKillSwitch) × (after ≡ some k')
            × (k'.engaged ≡ (decision.shutdown || k.engaged))
            × ((decision.shutdown && not k.engaged) ≡ false → k' ≡ k))
  unfolding check
  check-IsQuiet c s actor now k =
      (evaluate-IsQuiet c s now, shutdown-engages (evaluate c s now) actor now k)
