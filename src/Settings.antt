-- ===== src/Settings.antt =====
-- The settings that the execution path reads, and the startup invariants (config/settings.py). A
-- setting keeps its name; those that no modelled code reads are left out.
pub mod Safety
use Prim.Native.Char.{Char, code}
use alm_trading.Base.{
  ℕ, String, Bool, true, false, not, ◌&&◌, ◌||◌, Option, none, some, List, [], ◌∷◌, ◌==◌, leb,
  if◌then◌else◌, Result, ok, raise, value_error, mem, upper, strip, is_blank, ◌=?◌, string_eq,
}

pub record Settings : Type 0 where
  pub live_trading_enabled : Bool
  pub demo_trading_enabled : Bool
  pub trading_environment : String
  pub read_only_mode : Bool
  pub mt5_read_only : Bool
  pub mt5_execution_enabled : Bool
  pub mt5_server : Option String
  pub mt5_broker : String
  pub mt5_magic_number : ℕ
  pub execution_kill_switch : Bool
  pub demo_execution_symbols : String
  pub real_account_execution : Bool
  pub demo_execution_mode : String
  pub demo_automated_execution_enabled : Bool
  pub demo_dca_enabled : Bool
  pub demo_trading_day_reset_hour : ℕ
  pub shadow_mode_enabled : Bool
  pub circuit_breaker_enabled : Bool
  pub demo_automation_approved : Bool
  pub ai_auto_promote : Bool
  pub ai_online_learning_enabled : Bool
  pub ai_automatic_training : Bool

-- the property `environment`
abbrev pub environment : Settings → String
environment s = upper (strip s.trading_environment)

-- the property `execution_mode`
abbrev pub execution_mode : Settings → String
execution_mode s = upper (strip s.demo_execution_mode)

abbrev pub execution_modes : List String
execution_modes =
    "OBSERVATION" ∷ "SHADOW" ∷ "PAPER" ∷ "DEMO_MANUAL_APPROVAL" ∷ "DEMO_AUTOMATED" ∷ "LIVE_DISABLED"
    ∷ []

abbrev pub broker_execution_modes : List String
broker_execution_modes = "DEMO_MANUAL_APPROVAL" ∷ "DEMO_AUTOMATED" ∷ []

-- The reset hour is a number here, so only its upper bound is left to test.
unfoldable pub enforce_phase_safety : Settings → Result Settings
enforce_phase_safety s =
    if s.live_trading_enabled
    then raise value_error
    else if not (environment s =? "DEMO")
    then raise value_error
    else if not s.read_only_mode
    then raise value_error
    else if s.demo_trading_enabled && s.mt5_read_only
    then raise value_error
    else if s.ai_auto_promote
    then raise value_error
    else if s.ai_online_learning_enabled
    then raise value_error
    else if s.ai_automatic_training
    then raise value_error
    else if s.real_account_execution
    then raise value_error
    else if not (mem (execution_mode s) execution_modes)
    then raise value_error
    else if execution_mode s =? "DEMO_AUTOMATED" && not s.demo_automated_execution_enabled
    then raise value_error
    else if mem (execution_mode s) broker_execution_modes && not s.demo_trading_enabled
    then raise value_error
    else if not (leb s.demo_trading_day_reset_hour 23)
    then raise value_error
    else if s.demo_automation_approved
        && execution_mode s =? "DEMO_AUTOMATED"
        && not s.demo_automated_execution_enabled
    then raise value_error
    else ok s

unfoldable pub execution_allowed_by_config : Settings → Bool
execution_allowed_by_config s =
    environment s =? "DEMO"
    && not s.live_trading_enabled
    && s.demo_trading_enabled
    && s.mt5_execution_enabled
    && not s.mt5_read_only
    && not s.execution_kill_switch

-- the property `broker_execution_configured`
unfoldable pub broker_execution_configured : Settings → Bool
broker_execution_configured s = mem (execution_mode s) broker_execution_modes

abbrev put_char : Char → List String → List String
put_char c [] = (String.◌∷◌ c String.[]) ∷ []
put_char c (w ∷ ws) = (String.◌∷◌ c w) ∷ ws

-- `text.split(",")`
split_commas : String → List String
split_commas String.[] = String.[] ∷ []
split_commas (String.◌∷◌ c s) =
    let rest = split_commas s in if code c == b',' then String.[] ∷ rest else put_char c rest

-- `tuple(item.strip().upper() for item in items if item.strip())`
clean : List String → List String
clean [] = []
clean (w ∷ ws) = let rest = clean ws in if is_blank (strip w) then rest else upper (strip w) ∷ rest

unfoldable pub demo_execution_symbol_allowlist : Settings → List String
unfolding split_commas clean
demo_execution_symbol_allowlist s = clean (split_commas s.demo_execution_symbols)
