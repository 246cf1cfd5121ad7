-- ===== src/Breaker/Trip.antt =====
-- Evaluating, tripping and resetting the breaker (validation/circuit_breaker.py).
use alm_trading.Base.{
  ℕ, String, false, not, Option, none, some, List, [], ◌∷◌, ◌++◌, map, ltb, leb, if◌then◌else◌,
  Result, ok, raise, recovery_refused, dedup, is_empty, or_text, or_else, join,
}
use alm_trading.Float.{Float}
use alm_trading.KillSwitch.{ExecutionKillSwitch, engage}
use alm_trading.Breaker.{
  CircuitBreaker, BreakerSignals, BreakerTrigger, BreakerEvent, RecoveryChecklist, closed,
  open_state, trigger_eq, trigger_name, missing, fires_if, given_and, unexpected_type, differs,
  outside,
}

module _ {ℓ} {F : Type ℓ} ⦃f : Float F⦄ where
  open f use {lt, le, mul}

  -- the conditions, in the order in which they are tested
  unfoldable pub fired : CircuitBreaker F → BreakerSignals F → List BreakerTrigger
  fired b s =
      fires_if (given_and (le b.limits.max_daily_loss) s.daily_drawdown)
        BreakerTrigger.daily_loss_exceeded
      ++ (fires_if (given_and (le b.limits.max_total_drawdown) s.total_drawdown)
            BreakerTrigger.drawdown_exceeded
          ++ (fires_if (ltb 0 s.reconciliation_failures) BreakerTrigger.reconciliation_failure
              ++ (fires_if (leb b.max_execution_failures s.execution_failures)
                    BreakerTrigger.repeated_execution_failures
                  ++ (fires_if (given_and (lt b.data_stale_seconds) s.data_age_seconds)
                        BreakerTrigger.stale_market_data
                      ++ (fires_if s.model_failed BreakerTrigger.model_failure
                          ++ (fires_if s.risk_engine_failed BreakerTrigger.risk_engine_failure
                              ++ (fires_if (unexpected_type s.expected_account_type s.account_type)
                                    BreakerTrigger.unexpected_account
                                  ++ (fires_if (differs s.broker s.expected_broker)
                                        BreakerTrigger.unexpected_broker
                                      ++ (fires_if (outside s.allowed_symbols s.symbol)
                                            BreakerTrigger.unexpected_symbol
                                          ++ fires_if
                                              (given_and
                                                (lt
                                                  (mul b.limits.max_spread b.abnormal_spread_ratio))
                                                s.spread)
                                              BreakerTrigger.abnormal_spread)))))))))

  unfoldable pub evaluate : CircuitBreaker F → BreakerSignals F → List BreakerTrigger
  evaluate b s = dedup (fired b s)

module _ {ℓ} {F : Type ℓ} where
  -- `_record`
  abbrev pub recorded : CircuitBreaker F → BreakerEvent → CircuitBreaker F
  recorded b event = record b { events = b.events ++ (event ∷ []) }

  -- Opens the breaker, and engages the kill switch if it is not engaged.
  unfoldable pub trip :
      List BreakerTrigger
      → String
      → ℕ
      → CircuitBreaker F
      → ExecutionKillSwitch
      → CircuitBreaker F × ExecutionKillSwitch
  trip collected actor now b switch =
      let reasons = map trigger_name collected in
      let event : BreakerEvent = record {
        timestamp = now;
        state = open_state;
        triggers = collected;
        reasons = reasons;
        actor = actor;
        checklist = none;
        positions_closed = false;
      } in
      (
        recorded (record b { state = open_state; triggers = collected }) event,
        if switch.engaged
            then switch
            else (engage (if is_empty reasons then "CIRCUIT_BREAKER_OPEN" else join ", " reasons)
                actor now switch).0,
      )

  unfoldable pub reset :
      RecoveryChecklist → Option String → ℕ → CircuitBreaker F → Result (CircuitBreaker F)
  reset checklist actor now b =
      let event : BreakerEvent = record {
        timestamp = now;
        state = closed;
        triggers = [];
        reasons = "RECOVERED" ∷ [];
        actor = or_text actor (or_else checklist.approved_by "None");
        checklist = some checklist;
        positions_closed = false;
      } in
      if not (is_empty (missing checklist))
      then raise (recovery_refused (missing checklist))
      else ok (recorded (record b { state = closed; triggers = [] }) event)

module _ {ℓ} {F : Type ℓ} ⦃f : Float F⦄ where
  unfoldable pub check :
      BreakerSignals F
      → String
      → ℕ
      → CircuitBreaker F
      → ExecutionKillSwitch
      → CircuitBreaker F × ExecutionKillSwitch
  check s actor now b switch =
      if not b.enabled
      then (b, switch)
      else if is_empty (evaluate b s)
      then (b, switch)
      else trip (evaluate b s) actor now b switch
