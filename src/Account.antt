-- ===== src/Account.antt =====
-- Account identity (execution/mt5/account.py) and the verdict on it that clears before any
-- execution (observation/demo_account.py). The fields that only displays read are left out.
pub mod Verdict
use alm_trading.Base.{
  ℕ, String, Bool, true, false, not, ◌&&◌, ◌||◌, Option, none, some, List, [], ◌∷◌, ◌++◌,
  if◌then◌else◌, mem, upper, lower, strip, is_blank, has_substring, or_else, is_empty, string_eq,
}

pub data TradeMode : Type 0 where
  demo contest real unknown : TradeMode

pub record Mt5Account {ℓ} (F : Type ℓ) : Type ℓ where
  pub server : Option String
  pub broker : String
  pub equity : F
  pub margin : F
  pub free_margin : F
  pub trade_mode : TradeMode

-- `trade_mode in {TradeMode.DEMO, TradeMode.CONTEST}`
abbrev pub is_demo_mode : TradeMode → Bool
is_demo_mode TradeMode.demo = true
is_demo_mode TradeMode.contest = true
is_demo_mode _ = false

abbrev pub is_real_mode : TradeMode → Bool
is_real_mode TradeMode.real = true
is_real_mode _ = false

-- What `TerminalInfo` tells the validator.
pub record TerminalInfo : Type 0 where
  pub available : Bool
  pub connected : Bool
  pub permissions_known : Bool
  pub tradeapi_disabled : Bool

pub data DemoValidation : Type 0 where
  valid_demo invalid_account unknown_account connection_error : DemoValidation

pub record DemoAccountResult {ℓ} (F : Type ℓ) : Type ℓ where
  pub status : DemoValidation
  pub reasons : List String
  pub account : Option (Mt5Account F)
  pub terminal : Option TerminalInfo

pub record DemoAccountValidator : Type 0 where
  pub server_patterns : List String
  pub require_permissions : Bool

-- `any(pattern in server for pattern in patterns)`
abbrev pub any_pattern : List String → String → Bool
any_pattern [] server = false
any_pattern (p ∷ ps) server = has_substring p server || any_pattern ps server

unfoldable pub validator_server_reasons {ℓ} :
    {F : Type ℓ} → DemoAccountValidator → Mt5Account F → List String
validator_server_reasons v account =
    let server = strip (or_else account.server "") in
    if is_blank server
    then "SERVER_UNVERIFIED" ∷ []
    else if not (any_pattern v.server_patterns (lower server))
    then "SERVER_NOT_DEMO" ∷ []
    else []

unfoldable pub permission_reasons : DemoAccountValidator → Option TerminalInfo → List String
permission_reasons v none =
    if v.require_permissions then "TERMINAL_PERMISSIONS_UNKNOWN" ∷ [] else []
permission_reasons v (some t) =
    if not t.permissions_known
    then (if v.require_permissions then "TERMINAL_PERMISSIONS_UNKNOWN" ∷ [] else [])
    else if t.tradeapi_disabled
    then "TERMINAL_API_DISABLED" ∷ []
    else []

abbrev pub is_false : Option Bool → Bool
is_false (some false) = true
is_false _ = false

abbrev pub terminal_missing : Option TerminalInfo → Bool
terminal_missing none = false
terminal_missing (some t) = not t.available

module _ {ℓ} {F : Type ℓ} where
  abbrev result :
      DemoValidation
      → List String
      → Option (Mt5Account F)
      → Option TerminalInfo
      → DemoAccountResult F
  result s rs a t = record { status = s; reasons = rs; account = a; terminal = t }

  broker_reasons : Mt5Account F → List String
  broker_reasons account = if is_blank (strip account.broker) then "BROKER_UNVERIFIED" ∷ [] else []

  -- the checks on an account whose trade mode is DEMO or CONTEST
  judge : DemoAccountValidator → Mt5Account F → Option TerminalInfo → DemoAccountResult F
  unfolding broker_reasons
  judge v account terminal =
      let reasons = broker_reasons account ++ validator_server_reasons v account in
      let permissions = permission_reasons v terminal in
      if mem "SERVER_NOT_DEMO" reasons
      then result DemoValidation.invalid_account reasons (some account) terminal
      else if mem "TERMINAL_API_DISABLED" permissions
      then result DemoValidation.invalid_account (reasons ++ permissions) (some account) terminal
      else if is_empty (reasons ++ permissions)
      then result DemoValidation.valid_demo ("ACCOUNT_IS_DEMO" ∷ []) (some account) terminal
      else result DemoValidation.unknown_account (reasons ++ permissions) (some account) terminal

  abbrev pub account_is_real : Option (Mt5Account F) → Bool
  account_is_real none = false
  account_is_real (some a) = is_real_mode a.trade_mode

  validate_known :
      DemoAccountValidator → Option (Mt5Account F) → Option TerminalInfo → DemoAccountResult F
  unfolding judge
  validate_known v none terminal =
      result DemoValidation.connection_error ("ACCOUNT_UNAVAILABLE" ∷ []) none terminal
  validate_known v (some account) terminal =
      if not (is_demo_mode account.trade_mode)
      then result DemoValidation.unknown_account ("ACCOUNT_TRADE_MODE_UNKNOWN" ∷ []) (some account)
          terminal
      else judge v account terminal

  unfoldable pub validate :
      DemoAccountValidator
      → Option (Mt5Account F)
      → Option TerminalInfo
      → Option Bool
      → DemoAccountResult F
  unfolding validate_known
  validate v account terminal connected =
      if terminal_missing terminal
      then result DemoValidation.connection_error ("TERMINAL_UNAVAILABLE" ∷ []) none terminal
      else if account_is_real account
      then result DemoValidation.invalid_account ("ACCOUNT_IS_REAL" ∷ []) account terminal
      else if is_false connected
      then result DemoValidation.connection_error ("NOT_CONNECTED" ∷ []) account terminal
      else validate_known v account terminal
