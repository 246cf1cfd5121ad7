-- ===== src/Gates.antt =====
-- The gate chain of a DEMO order: its data (execution/demo/gates.py). A `None` is `none`; what only
-- displays and records read (`details`, `strategy_id`, `regime`, the time frames, the risk snapshot's
-- id) is left out.
pub mod Budget
pub mod Setup
pub mod Chain
pub mod Sound
pub mod Nan
pub mod Approval
pub mod Funded
pub mod Names
pub mod Decision
use alm_trading.Base.{
  ℕ, String, Bool, true, false, not, Option, none, some, List, [], ◌∷◌, or_else, if◌then◌else◌,
  is_empty,
}
use alm_trading.Float.{Float, nought}
use alm_trading.Settings.{Settings}
use alm_trading.Session.{SessionEngine}
use alm_trading.Account.{Mt5Account, DemoAccountResult}
use alm_trading.Guard.{ExecutionGuard, GuardContext, GuardDecision, Quote}
use alm_trading.Mode.{ExecutionMode, ModeDecision}
use alm_trading.Limits.{DemoRiskLimits}
use alm_trading.Idempotency.{IdempotencyVerdict}
use alm_trading.Daily.{DailyRiskState}

pub record GateOutcome : Type 0 where
  pub name : String
  pub passed : Bool
  pub reasons : List String

-- `data_quality` holds each time frame's verdict as a text, "" where there is none; a missing
-- dictionary and an empty one are treated alike.
pub record DemoExecutionContext {ℓ} (F : Type ℓ) : Type ℓ where
  pub account : Option (DemoAccountResult F)
  pub connected : Bool
  pub quote : Option (Quote F)
  pub data_quality : List (String × String)
  pub data_quality_ok : Option Bool
  pub data_age_seconds : Option F
  pub risk_allowed : Option Bool
  pub risk_reasons : List String
  pub equity : Option F
  pub free_margin : Option F
  pub used_margin : Option F
  pub daily : Option (DailyRiskState F)
  pub open_positions : ℕ
  pub symbol_exposure : F
  pub total_exposure : F
  pub order_notional : F
  pub dca_levels : ℕ
  pub dca_exposure : F
  pub dca_invalidated : Bool
  pub strategy_status : Option String
  pub strategy_decision : Option String
  pub model_confidence : Option F
  pub model_direction_probability : Option F
  pub model_failed : Bool
  pub expected_slippage : Option F
  pub session : Option String
  pub known_symbols : List String
  pub idempotency : Option IdempotencyVerdict
  pub mode : Option ModeDecision
  pub timestamp : Option ℕ

-- `self.account.account if self.account else None`
abbrev account_of {ℓ} : {F : Type ℓ} → Option (DemoAccountResult F) → Option (Mt5Account F)
account_of none = none
account_of (some result) = result.account

module _ {ℓ} {F : Type ℓ} ⦃f : Float F⦄ where
  -- `self.daily.daily_drawdown if self.daily else 0.0`
  abbrev drawdown_of : Option (DailyRiskState F) → F
  drawdown_of none = nought
  drawdown_of (some daily) = daily.daily_drawdown

  unfoldable pub guard_context : DemoExecutionContext F → GuardContext F
  guard_context c = record {
    account = account_of c.account;
    connected = c.connected;
    quote = c.quote;
    open_positions = c.open_positions;
    dca_entries = c.dca_levels;
    exposure = c.total_exposure;
    daily_drawdown = drawdown_of c.daily;
    risk_allowed = or_else c.risk_allowed false;
    risk_reasons = c.risk_reasons;
    strategy_status = c.strategy_decision;
    known_symbols = c.known_symbols;
    session = c.session;
    timestamp = c.timestamp;
  }

  -- `DemoExecutionContext()`
  abbrev pub default_context : DemoExecutionContext F
  default_context = record {
    account = none;
    connected = false;
    quote = none;
    data_quality = [];
    data_quality_ok = none;
    data_age_seconds = none;
    risk_allowed = none;
    risk_reasons = [];
    equity = none;
    free_margin = none;
    used_margin = none;
    daily = none;
    open_positions = 0;
    symbol_exposure = nought;
    total_exposure = nought;
    order_notional = nought;
    dca_levels = 0;
    dca_exposure = nought;
    dca_invalidated = false;
    strategy_status = none;
    strategy_decision = none;
    model_confidence = none;
    model_direction_probability = none;
    model_failed = false;
    expected_slippage = none;
    session = none;
    known_symbols = [];
    idempotency = none;
    mode = none;
    timestamp = none;
  }

pub record GateChainDecision : Type 0 where
  pub approved : Bool
  pub request_id : String
  pub gates : List GateOutcome
  pub reasons : List String
  pub guard : GuardDecision
  pub mode : ModeDecision
  pub timestamp : ℕ
  pub environment : String

-- What the chain holds beside the kill switch of its guard. The mode resolver is its default mode
-- and its settings.
pub record DemoGateChain {ℓ} (F : Type ℓ) : Type ℓ where
  pub settings : Settings
  pub limits : DemoRiskLimits F
  pub guard : ExecutionGuard F
  pub sessions : SessionEngine
  pub default_mode : ExecutionMode
  pub mode_settings : Settings
  pub minimum_confidence : F
  pub minimum_direction_probability : F
  pub require_prediction : Bool
  pub executable_statuses : List String
  pub allow_challenger_execution : Bool
  pub allow_experimental_execution : Bool
  pub allowed_sessions : List String
  pub data_stale_seconds : F

-- `GateOutcome(name, not reasons, reasons)`
abbrev pub outcome : String → List String → GateOutcome
outcome name reasons = record { name = name; passed = is_empty reasons; reasons = reasons }

-- `GateOutcome(name, True, (note,))`
abbrev pub passed_with : String → String → GateOutcome
passed_with name note = record { name = name; passed = true; reasons = note ∷ [] }

-- `if test: reasons.append(code)`
abbrev pub code_if : Bool → String → List String
code_if b code = if b then code ∷ [] else []
