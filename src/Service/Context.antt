-- ===== src/Service/Context.antt =====
-- The context of a request, gathered from the live state (execution/demo/service.py,
-- `build_context`). An update of the day is kept in the service.
use alm_trading.Base.{
  ℕ, String, Bool, true, false, Option, none, some, List, [], ◌∷◌, if◌then◌else◌, is_empty, or_else,
  length, string_eq, ◌=?◌,
}
use alm_trading.Float.{Float, nought, truthy}
use alm_trading.Settings.{demo_execution_symbol_allowlist}
use alm_trading.Order.{DemoOrderRequest}
use alm_trading.Account.{Mt5Account, DemoAccountResult}
use alm_trading.Mode.{ModeDecision}
use alm_trading.Idempotency.{check}
use alm_trading.Daily.{DailyRiskState, DailyRiskTracker, update}
use alm_trading.Guard.{Quote}
use alm_trading.Gates.{DemoExecutionContext, default_context}
use alm_trading.Service.{DemoService, World, ReadClient, OpenPosition}

abbrev counted : Option String → String → Bool
counted none symbol = true
counted (some only) symbol = symbol =? only

module _ {ℓ} {F : Type ℓ} where
  abbrev client_connected : Option (ReadClient F) → Bool
  client_connected none = false
  client_connected (some c) = c.connected

  abbrev client_validated : Option (ReadClient F) → Option (DemoAccountResult F)
  client_validated none = none
  client_validated (some c) = some c.validated

  abbrev client_quote : Option (ReadClient F) → Option (Quote F)
  client_quote none = none
  client_quote (some c) = c.quote

  abbrev client_positions : Option (ReadClient F) → List (OpenPosition F)
  client_positions none = []
  client_positions (some c) = c.positions

  -- the allowlist, or where it is empty the symbols of the client
  abbrev known_symbols : List String → Option (ReadClient F) → List String
  known_symbols allowlist none = []
  known_symbols allowlist (some c) = if is_empty allowlist then c.canonical_symbols else allowlist

  abbrev context_account : World F → Option (Mt5Account F)
  context_account w = elim (client_validated w.read_client) [
    | some r ↦ r.account
    | none ↦ w.account
  ]

module _ {ℓ} {F : Type ℓ} ⦃f : Float F⦄ where
  open f use {lit, add, mul}

  -- `sum(volume * open_price * 100_000.0 for ...)`, over all positions or those of a symbol
  unfoldable pub exposure : Option String → F → List (OpenPosition F) → F
  exposure only total [] = total
  exposure only total (p ∷ ps) =
      let larger = add total (mul (mul p.volume p.open_price) (lit 100_000 0)) in
      exposure only (if counted only p.symbol then larger else total) ps

  -- `x or None`
  abbrev given : F → Option F
  given x = if truthy x then some x else none

  abbrev account_figure : (Mt5Account F → F) → Option (Mt5Account F) → F
  account_figure read none = nought
  account_figure read (some a) = read a

  -- `self.daily.update(...) if equity else None`
  unfoldable pub daily_for :
      DailyRiskTracker F → F → ℕ → DailyRiskTracker F × Option (DailyRiskState F)
  daily_for t equity moment =
      let updated = update t equity moment in
      if truthy equity then (updated.0, some updated.1) else (t, none)

  -- `build_context`, with the mode that was resolved
  unfoldable pub gathered :
      DemoService F
      → World F
      → DemoOrderRequest F
      → ModeDecision
      → Option (DailyRiskState F)
      → DemoExecutionContext F
  gathered s w request mode daily =
      let account = context_account w in
      let positions = client_positions w.read_client in
      record default_context {
        account = client_validated w.read_client;
        connected = client_connected w.read_client;
        quote = client_quote w.read_client;
        equity = given (account_figure (λ a. a.equity) account);
        free_margin = given (account_figure (λ a. a.free_margin) account);
        used_margin = some (account_figure (λ a. a.margin) account);
        daily = daily;
        open_positions = length positions;
        symbol_exposure = exposure (some request.symbol) nought positions;
        total_exposure = exposure none nought positions;
        order_notional = mul (mul request.volume (or_else request.price nought)) (lit 100_000 0);
        known_symbols = known_symbols (demo_execution_symbol_allowlist s.settings) w.read_client;
        timestamp = some request.timestamp;
        idempotency = some (check s.registry request.request_id);
        mode = some mode;
      }

  unfoldable pub build_context :
      DemoService F
      → World F
      → DemoOrderRequest F
      → ModeDecision
      → DailyRiskTracker F × DemoExecutionContext F
  build_context s w request mode =
      let day =
        daily_for s.daily (account_figure (λ a. a.equity) (context_account w)) request.timestamp in
      (day.0, gathered s w request mode day.1)
