-- ===== src/Breaker.antt =====
-- The circuit breaker and its recovery (validation/circuit_breaker.py). It shares the kill switch, so
-- its operations take and return both. Persistence and alerts of an event, which change neither, and
-- an event's free-form `details` are left out.
pub mod Trip
pub mod Recovery
pub mod Calm
use alm_trading.Base.{
  ℕ, String, Bool, true, false, not, ◌&&◌, ◌||◌, Option, none, some, List, [], ◌∷◌, ◌++◌, map, ltb,
  leb, if◌then◌else◌, Result, ok, raise, recovery_refused, mem, dedup, upper, lower, strip,
  is_blank, is_empty, or_else, or_text, Eq, enum_eq, ◌=?◌, string_eq,
}
use alm_trading.Float.{Float}
use alm_trading.Limits.{DemoRiskLimits}
use alm_trading.KillSwitch.{ExecutionKillSwitch, engage}

pub data BreakerState : Type 0 where
  closed open_state : BreakerState

pub data BreakerTrigger : Type 0 where
  daily_loss_exceeded drawdown_exceeded reconciliation_failure : BreakerTrigger
  repeated_execution_failures stale_market_data model_failure risk_engine_failure : BreakerTrigger
  unexpected_account unexpected_broker unexpected_symbol abnormal_spread : BreakerTrigger

BreakerTrigger-discrete : Discrete BreakerTrigger
BreakerTrigger-discrete = hlevel

instance unfoldable pub trigger_eq : Eq BreakerTrigger
unfolding BreakerTrigger-discrete enum_eq
trigger_eq = enum_eq BreakerTrigger-discrete

abbrev pub trigger_name : BreakerTrigger → String
trigger_name BreakerTrigger.daily_loss_exceeded = "DAILY_LOSS_EXCEEDED"
trigger_name BreakerTrigger.drawdown_exceeded = "DRAWDOWN_EXCEEDED"
trigger_name BreakerTrigger.reconciliation_failure = "RECONCILIATION_FAILURE"
trigger_name BreakerTrigger.repeated_execution_failures = "REPEATED_EXECUTION_FAILURES"
trigger_name BreakerTrigger.stale_market_data = "STALE_MARKET_DATA"
trigger_name BreakerTrigger.model_failure = "MODEL_FAILURE"
trigger_name BreakerTrigger.risk_engine_failure = "RISK_ENGINE_FAILURE"
trigger_name BreakerTrigger.unexpected_account = "UNEXPECTED_ACCOUNT"
trigger_name BreakerTrigger.unexpected_broker = "UNEXPECTED_BROKER"
trigger_name BreakerTrigger.unexpected_symbol = "UNEXPECTED_SYMBOL"
trigger_name BreakerTrigger.abnormal_spread = "ABNORMAL_SPREAD"

-- What was observed; `none` where nothing was.
pub record BreakerSignals {ℓ} (F : Type ℓ) : Type ℓ where
  pub daily_drawdown : Option F
  pub total_drawdown : Option F
  pub reconciliation_failures : ℕ
  pub execution_failures : ℕ
  pub data_age_seconds : Option F
  pub model_failed : Bool
  pub risk_engine_failed : Bool
  pub account_type : Option String
  pub expected_account_type : String
  pub broker : Option String
  pub expected_broker : Option String
  pub symbol : Option String
  pub allowed_symbols : List String
  pub spread : Option F

pub record RecoveryChecklist : Type 0 where
  pub health_check : Bool
  pub risk_check : Bool
  pub account_validation : Bool
  pub approved_by : Option String
  pub reason : Option String

unfoldable pub human_approval : RecoveryChecklist → Bool
human_approval c =
    not (is_blank (strip (or_text c.approved_by "")))
    && not (is_blank (strip (or_text c.reason "")))

abbrev unless : Bool → String → List String
unless b name = if b then [] else name ∷ []

unfoldable pub missing : RecoveryChecklist → List String
unfolding human_approval
missing c =
    unless c.health_check "health_check"
    ++ (unless c.risk_check "risk_check"
        ++ (unless c.account_validation "account_validation"
            ++ unless (human_approval c) "human_approval"))

pub record BreakerEvent : Type 0 where
  pub timestamp : ℕ
  pub state : BreakerState
  pub triggers : List BreakerTrigger
  pub reasons : List String
  pub actor : String
  pub checklist : Option RecoveryChecklist
  pub positions_closed : Bool

pub record CircuitBreaker {ℓ} (F : Type ℓ) : Type ℓ where
  -- the setting `circuit_breaker_enabled`
  pub enabled : Bool
  pub limits : DemoRiskLimits F
  pub max_execution_failures : ℕ
  pub data_stale_seconds : F
  pub abnormal_spread_ratio : F
  pub state : BreakerState
  pub events : List BreakerEvent
  pub triggers : List BreakerTrigger

abbrev pub state_is_open : BreakerState → Bool
state_is_open BreakerState.closed = false
state_is_open BreakerState.open_state = true

-- the property `open`
abbrev pub is_open {ℓ} : {F : Type ℓ} → CircuitBreaker F → Bool
is_open b = state_is_open b.state

unfoldable pub blocking_reasons {ℓ} : {F : Type ℓ} → CircuitBreaker F → List String
blocking_reasons b =
    if not (is_open b) then [] else "CIRCUIT_BREAKER_OPEN" ∷ map trigger_name b.triggers

abbrev pub fires_if {ℓ} : {A : Type ℓ} → Bool → A → List A
fires_if b t = if b then t ∷ [] else []

-- `value is not None and test(value)`
abbrev pub given_and {ℓ} : {A : Type ℓ} → (A → Bool) → Option A → Bool
given_and p none = false
given_and p (some a) = p a

-- `account_type is not None and account_type.upper() not in {expected.upper(), "CONTEST"}`
abbrev pub unexpected_type : String → Option String → Bool
unexpected_type expected = given_and (λ a. not (upper a =? upper expected || upper a =? "CONTEST"))

-- `expected and observed and observed.strip().lower() != expected.strip().lower()`
abbrev pub differs : Option String → Option String → Bool
differs observed expected =
    let o = or_text observed "" in
    let e = or_text expected "" in
    not (is_blank e) && not (is_blank o) && not (lower (strip o) =? lower (strip e))

abbrev pub outside : List String → Option String → Bool
outside names symbol =
    let s = or_text symbol "" in
    not (is_empty names) && not (is_blank s) && not (mem (upper s) (map upper names))
