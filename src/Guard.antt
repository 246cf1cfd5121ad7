-- ===== src/Guard.antt =====
-- The Phase 11 execution guard, check by check (execution/mt5/execution_guard.py). A reason is the
-- text of its code. The clock is an argument, `now`.
pub mod Quotes
pub mod Evaluate
pub mod Approval
use alm_trading.Base.{
  ℕ, String, Bool, true, false, not, ◌&&◌, ◌||◌, Option, none, some, List, [], ◌∷◌, ◌++◌, map, leb,
  if◌then◌else◌, mem, dedup, upper, lower, strip, is_blank, is_empty, is_some, or_else, or_text,
  string_eq, ◌=?◌,
}
use alm_trading.Float.{Float, nought}
use alm_trading.Settings.{Settings, environment}
use alm_trading.Order.{
  OrderRequest, OrderSide, ExecutionIntent, is_buy, intent_is_dca, intent_is_manual_test,
}
use alm_trading.Account.{Mt5Account, TradeMode, is_demo_mode, is_real_mode, any_pattern}
use alm_trading.KillSwitch.{ExecutionKillSwitch, blocking_reasons}
use alm_trading.Session.{SessionEngine, session_for, session_value}

-- `quote`, a dictionary with two keys that may be missing or None
pub record Quote {ℓ} (F : Type ℓ) : Type ℓ where
  pub bid : Option F
  pub ask : Option F

pub record GuardContext {ℓ} (F : Type ℓ) : Type ℓ where
  pub account : Option (Mt5Account F)
  pub connected : Bool
  pub quote : Option (Quote F)
  pub open_positions : ℕ
  pub dca_entries : ℕ
  pub exposure : F
  pub daily_drawdown : F
  pub risk_allowed : Bool
  pub risk_reasons : List String
  pub strategy_status : Option String
  pub known_symbols : List String
  pub session : Option String
  pub timestamp : Option ℕ

pub record GuardDecision : Type 0 where
  pub approved : Bool
  pub request_id : String
  pub reasons : List String
  pub checks : List (String × Bool)
  pub environment : String

-- What the guard holds beside its kill switch.
pub record ExecutionGuard {ℓ} (F : Type ℓ) : Type ℓ where
  pub settings : Settings
  pub sessions : SessionEngine
  pub demo_server_patterns : List String
  pub min_volume : F
  pub max_volume : F
  pub volume_step : F
  pub max_open_positions : ℕ
  pub max_dca_entries : ℕ
  pub max_spread : F
  pub max_daily_drawdown : F
  pub max_exposure : F
  pub min_stop_distance : F
  pub allowed_sessions : List String
  pub price_tolerance : F
  pub symbol_allowlist : List String

-- `if test: reasons.append(code)`
abbrev pub reason_if : Bool → String → List String
reason_if b code = if b then code ∷ [] else []

-- `(context.quote or {}).get("bid")`, and `ask`
abbrev pub quoted_bid {ℓ} : {F : Type ℓ} → Option (Quote F) → Option F
quoted_bid none = none
quoted_bid (some q) = q.bid

abbrev pub quoted_ask {ℓ} : {F : Type ℓ} → Option (Quote F) → Option F
quoted_ask none = none
quoted_ask (some q) = q.ask

unfoldable pub environment_reasons : Settings → List String
environment_reasons s =
    reason_if (not (environment s =? "DEMO")) "ENVIRONMENT_NOT_DEMO"
    ++ (reason_if s.live_trading_enabled "LIVE_TRADING_ENABLED"
        ++ (reason_if (not s.demo_trading_enabled) "DEMO_TRADING_DISABLED"
            ++ (reason_if (not s.mt5_execution_enabled) "MT5_EXECUTION_DISABLED"
                ++ reason_if s.mt5_read_only "MT5_READ_ONLY")))

unfoldable pub account_reasons {ℓ} :
    {F : Type ℓ} → ExecutionGuard F → Option (Mt5Account F) → List String
account_reasons g none = "ACCOUNT_UNAVAILABLE" ∷ []
account_reasons g (some account) =
    let server = lower (or_else account.server "") in
    (if is_real_mode account.trade_mode
      then "ACCOUNT_IS_REAL" ∷ []
      else reason_if (not (is_demo_mode account.trade_mode)) "ACCOUNT_UNAVAILABLE")
    ++ reason_if (is_blank server || not (any_pattern g.demo_server_patterns server))
        "SERVER_NOT_DEMO"

unfoldable pub symbol_reasons {ℓ} :
    {F : Type ℓ} → ExecutionGuard F → OrderRequest F → GuardContext F → List String
symbol_reasons g request context =
    let symbol = upper (strip request.symbol) in
    if is_blank symbol
    then "INVALID_SYMBOL" ∷ []
    else if not (is_empty context.known_symbols)
        && not (mem symbol (map upper context.known_symbols))
    then "INVALID_SYMBOL" ∷ []
    else if not (is_empty g.symbol_allowlist) && not (mem symbol g.symbol_allowlist)
    then "SYMBOL_NOT_ALLOWED" ∷ []
    else []

-- A manual test carries no strategy.
unfoldable pub strategy_reasons {ℓ} : {F : Type ℓ} → OrderRequest F → GuardContext F → List String
strategy_reasons request context =
    if intent_is_manual_test request.intent
    then []
    else reason_if (not (or_else context.strategy_status "" =? "EXECUTABLE_SIMULATION"))
        "STRATEGY_NOT_EXECUTABLE"

unfoldable pub session_reasons {ℓ} :
    {F : Type ℓ} → ExecutionGuard F → GuardContext F → ℕ → List String
session_reasons g context now =
    let session =
      or_text context.session
        (session_value (session_for g.sessions (or_else context.timestamp now))) in
    reason_if (not (is_empty g.allowed_sessions) && not (mem session g.allowed_sessions))
      "SESSION_NOT_ALLOWED"
