-- ===== src/Gates/Setup.antt =====
-- The gates on averaging down, the strategy, the model, the session and the kill switch
-- (execution/demo/gates.py, `_dca_gate` to `_kill_switch_gate`).
use alm_trading.Base.{
  ℕ, String, not, ◌&&◌, List, [], ◌∷◌, ◌++◌, leb, if◌then◌else◌, dedup, mem, upper, strip, is_blank,
  is_empty, is_some, or_else, or_text, join, string_eq, ◌=?◌,
}
use alm_trading.Float.{Float}
use alm_trading.Limits.{max_dca_levels_code, max_dca_exposure_code}
use alm_trading.Order.{DemoOrderRequest, intent_is_dca}
use alm_trading.KillSwitch.{ExecutionKillSwitch, blocking_reasons}
use alm_trading.Breaker.{given_and}
use alm_trading.Session.{session_for, session_value}
use alm_trading.Gates.{
  DemoExecutionContext, DemoGateChain, GateOutcome, outcome, passed_with, code_if,
}

module _ {ℓ} {F : Type ℓ} ⦃f : Float F⦄ where
  open f use {lt, add}

  unfoldable pub dca_gate :
      DemoGateChain F → DemoOrderRequest F → DemoExecutionContext F → GateOutcome
  dca_gate g request c =
      let projected = add c.dca_exposure c.order_notional in
      if not (intent_is_dca request.intent)
      then passed_with "DcaSafetyGate" "NOT_A_DCA_ORDER"
      else outcome "DcaSafetyGate" (
          code_if (not g.settings.demo_dca_enabled) "DCA_DISABLED"
          ++ (code_if (leb g.limits.max_dca_levels c.dca_levels) max_dca_levels_code
              ++ (code_if (lt g.limits.max_total_dca_exposure projected) max_dca_exposure_code
                  ++ code_if c.dca_invalidated "DCA_INVALIDATED")))

  unfoldable pub model_gate : DemoGateChain F → DemoExecutionContext F → GateOutcome
  model_gate g c =
      let failed = code_if c.model_failed "MODEL_FAILED" in
      if not (is_some c.model_confidence) && not (is_some c.model_direction_probability)
      then outcome "ModelConfidenceGate"
          (failed ++ code_if g.require_prediction "MODEL_PREDICTION_UNAVAILABLE")
      else outcome "ModelConfidenceGate" (
          dedup (
            failed
            ++ (code_if (given_and (λ p. lt p g.minimum_confidence) c.model_confidence)
                  "MODEL_CONFIDENCE_BELOW_MINIMUM"
                ++ code_if
                    (given_and (λ p. lt p g.minimum_direction_probability)
                      c.model_direction_probability)
                    "MODEL_CONFIDENCE_BELOW_MINIMUM")))

module _ {ℓ} {F : Type ℓ} where
  -- `allowed`: the statuses that may execute
  unfoldable pub executable : DemoGateChain F → String → List String
  executable g status =
      g.executable_statuses
      ++ (code_if g.allow_challenger_execution "CHALLENGER"
          ++ ((if g.allow_experimental_execution then "EXPERIMENTAL" ∷ "TESTING" ∷ [] else [])
              ++ code_if (status =? "EXECUTABLE_SIMULATION") "EXECUTABLE_SIMULATION"))

  unfoldable pub strategy_gate : DemoGateChain F → DemoExecutionContext F → GateOutcome
  strategy_gate g c =
      let status = upper (strip (or_text c.strategy_status "")) in
      if is_blank status
      then outcome "StrategyGate" ("STRATEGY_UNKNOWN" ∷ [])
      else if not (mem status (executable g status))
      then outcome "StrategyGate" ("STRATEGY_NOT_CHAMPION" ∷ [])
      else passed_with "StrategyGate" (join "_" ("STRATEGY" ∷ status ∷ []))

  unfoldable pub session_gate : DemoGateChain F → DemoExecutionContext F → ℕ → GateOutcome
  session_gate g c now =
      let moment = or_else c.timestamp now in
      let session = or_text c.session (session_value (session_for g.sessions moment)) in
      if is_empty g.allowed_sessions
      then passed_with "SessionGate" "NO_SESSION_RESTRICTION"
      else outcome "SessionGate"
          (code_if (not (mem session g.allowed_sessions)) "SESSION_NOT_ALLOWED")

  unfoldable pub kill_switch_gate : DemoOrderRequest F → ExecutionKillSwitch → GateOutcome
  kill_switch_gate request switch =
      let dca_order = intent_is_dca request.intent in
      let blocked = blocking_reasons (not dca_order) dca_order switch in
      if not (is_empty blocked)
      then outcome "KillSwitch" ("KILL_SWITCH_ENGAGED" ∷ blocked)
      else passed_with "KillSwitch" "KILL_SWITCH_RELEASED"
