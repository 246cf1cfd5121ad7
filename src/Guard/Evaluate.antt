-- ===== src/Guard/Evaluate.antt =====
-- The guard's verdict: every check runs, and every reason is reported
-- (execution/mt5/execution_guard.py, `evaluate`).
use alm_trading.Base.{ℕ, String, Bool, not, List, [], ◌∷◌, ◌++◌, dedup, is_empty, string_eq}
use alm_trading.Float.{Float}
use alm_trading.Order.{OrderRequest, intent_is_dca}
use alm_trading.KillSwitch.{ExecutionKillSwitch, blocking_reasons}
use alm_trading.Settings.{environment}
use alm_trading.Guard.{
  ExecutionGuard, GuardContext, GuardDecision, reason_if, environment_reasons, account_reasons,
  symbol_reasons, strategy_reasons, session_reasons,
}
use alm_trading.Guard.Quotes.{
  volume_reasons, price_reasons, spread_reasons, stop_reasons, risk_reasons,
}

module _ {ℓ} {F : Type ℓ} ⦃f : Float F⦄ where
  -- `groups`, in the order in which the checks run
  unfoldable pub groups :
      ExecutionGuard F
      → ExecutionKillSwitch
      → OrderRequest F
      → GuardContext F
      → ℕ
      → List (String × List String)
  groups g switch request context now =
      let dca_order = intent_is_dca request.intent in
      let blocked = blocking_reasons (not dca_order) dca_order switch in
      ("environment", environment_reasons g.settings)
      ∷ ("kill_switch", reason_if (not (is_empty blocked)) "KILL_SWITCH_ENGAGED")
      ∷ ("connection", reason_if (not context.connected) "NOT_CONNECTED")
      ∷ ("account", account_reasons g context.account)
      ∷ ("symbol", symbol_reasons g request context)
      ∷ ("volume", volume_reasons g request)
      ∷ ("price", price_reasons g request context)
      ∷ ("spread", spread_reasons g context)
      ∷ ("stops", stop_reasons g request context)
      ∷ ("risk", risk_reasons g request context)
      ∷ ("session", session_reasons g context now)
      ∷ ("strategy", strategy_reasons request context)
      ∷ []

-- the reasons of all groups in a row, and the verdict of each
abbrev pub all_reasons : List (String × List String) → List String
all_reasons [] = []
all_reasons ((name, group) ∷ gs) = group ++ all_reasons gs

abbrev pub verdicts : List (String × List String) → List (String × Bool)
verdicts [] = []
verdicts ((name, group) ∷ gs) = (name, is_empty group) ∷ verdicts gs

module _ {ℓ} {F : Type ℓ} ⦃f : Float F⦄ where
  unfoldable pub evaluate :
      ExecutionGuard F → ExecutionKillSwitch → OrderRequest F → GuardContext F → ℕ → GuardDecision
  evaluate g switch request context now =
      let found = groups g switch request context now in
      let reasons = dedup (all_reasons found) in
      record {
        approved = is_empty reasons;
        request_id = request.request_id;
        reasons = reasons;
        checks = verdicts found;
        environment = environment g.settings;
      }
