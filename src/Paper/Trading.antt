-- ===== src/Paper/Trading.antt =====
-- The paper trading service (paper/service.py). The repository, the journals, the events of
-- averaging down and the equity curve, which the calls below do not read, are left out. Identifiers
-- that the service draws are arguments of a call.
use alm_trading.Base.{
  ℕ, String, Bool, true, false, not, Option, none, some, List, [], ◌∷◌, ◌++◌, map, if◌then◌else◌,
  Result, ok, raise, key_error, string_eq, ◌=?◌, join, length, or_else,
}
use alm_trading.Float.{Float, nought}
use alm_trading.Paper.{
  PositionState, PaperAccount, PaperPosition, PaperOrderRequest, PaperOrder, PaperExecutionResult,
  moves, mark_account, realize, open_position, mark_position, add_entry,
}
use alm_trading.Paper.Risk.{
  DailyRiskManager, PaperRiskEngine, PaperRiskDecision, Prediction, update, evaluate,
  validate_model_prediction,
}
use alm_trading.Paper.Execution.{ExecutionConfig, Quote, execute, refused}

pub data PaperServiceState : Type 0 where
  stopped running paused : PaperServiceState

pub record PaperService {ℓ} (F : Type ℓ) : Type ℓ where
  pub account : PaperAccount F
  pub execution : ExecutionConfig F
  pub risk : PaperRiskEngine F
  pub daily : DailyRiskManager F
  pub state : PaperServiceState
  -- `positions`, in the order of their entry
  pub positions : List (PaperPosition F)
  pub orders : List (PaperOrder F)

-- What a caller states of the world. `strategy_valid` is for an entry that the setup is executable and
-- the risk decision allows it, and for an averaging down that `strategy_valid` and `htf_valid` hold.
pub record Conditions {ℓ} (F : Type ℓ) : Type ℓ where
  pub quote : Option (Quote F)
  pub strategy_valid : Bool
  pub data_quality : String
  pub provider_status : String
  pub prediction : Option (Prediction F)
  pub volatility : String
  pub news_risk : String

abbrev pub is_running : PaperServiceState → Bool
is_running PaperServiceState.running = true
is_running _ = false

-- `positions[position_id]`, and what is done with it
unfoldable pub on_key {ℓ κ} : {A : Type ℓ} {B : Type κ} → Option A → (A → Result B) → Result B
on_key none k = raise key_error
on_key (some a) k = k a

-- what is done after a call that may raise
unfoldable pub bind {ℓ κ} : {A : Type ℓ} {B : Type κ} → Result A → (A → Result B) → Result B
bind (ok a) k = k a
bind (raise e) k = raise e

-- `if value is None: return default`
unfoldable pub given {ℓ κ} : {A : Type ℓ} {B : Type κ} → Option A → B → (A → B) → B
given none d k = d
given (some a) d k = k a

-- `order.position_id == position_id`
abbrev pub belongs : Option String → String → Bool
belongs none id = false
belongs (some owner) id = owner =? id

module _ {ℓ} {F : Type ℓ} where
  -- `positions[position_id]`, `positions[position_id] = position`, `positions.pop(position_id)`
  unfoldable pub lookup : String → List (PaperPosition F) → Option (PaperPosition F)
  lookup id [] = none
  lookup id (p ∷ rest) = let later = lookup id rest in if p.position_id =? id then some p else later

  unfoldable pub put : PaperPosition F → List (PaperPosition F) → List (PaperPosition F)
  put p [] = p ∷ []
  put p (q ∷ rest) =
      let later = put p rest in if q.position_id =? p.position_id then p ∷ rest else q ∷ later

  unfoldable pub pop : String → List (PaperPosition F) → List (PaperPosition F)
  pop id [] = []
  pop id (p ∷ rest) = let later = pop id rest in if p.position_id =? id then later else p ∷ later

  unfoldable pub orders_of : String → List (PaperOrder F) → List (PaperOrder F)
  orders_of id [] = []
  orders_of id (o ∷ rest) =
      let later = orders_of id rest in if belongs o.position_id id then o ∷ later else later

  -- the refusal of the risk engine
  unfoldable pub rejected : List String → PaperExecutionResult F
  rejected [] = refused "" ""
  rejected (reason ∷ rest) = record {
    accepted = false;
    order = none;
    rejection_reason = some reason;
    reason_codes = map (λ r. join "" ("WHY_REJECTED:" ∷ r ∷ [])) (reason ∷ rest);
  }

module _ {ℓ} {F : Type ℓ} ⦃f : Float F⦄ where
  open f use {add, sub, mul}

  -- `sum(...)`, from a partial sum
  unfoldable pub sum {κ} : {A : Type κ} → (A → F) → F → List A → F
  sum g acc [] = acc
  sum g acc (x ∷ xs) = sum g (add acc (g x)) xs

  -- `float(quote.get("ask", 0) - quote.get("bid", 0)) if quote else 0.`
  unfoldable pub quoted_spread : Option (Quote F) → F
  quoted_spread none = nought
  quoted_spread (some q) = sub (or_else q.ask nought) (or_else q.bid nought)

  unfoldable pub gate : PaperService F → Conditions F → Bool → ℕ → F → PaperRiskDecision
  gate s c new_entry dca_entries quantity = evaluate s.risk (record {
    new_entry = new_entry;
    increases_exposure = not new_entry;
    drawdown = s.account.max_drawdown;
    exposure = sum (λ p. p.notional) nought s.positions;
    quantity = quantity;
    dca_entries = dca_entries;
    daily_drawdown = s.daily.daily_drawdown;
    concurrent_positions = length s.positions;
    volatility = c.volatility;
    spread = quoted_spread c.quote;
    news_risk = c.news_risk;
    data_quality = c.data_quality;
    provider_status = c.provider_status;
    model_valid = validate_model_prediction c.prediction;
    strategy_valid = c.strategy_valid;
  })

  -- an order that was filled, and its position
  unfoldable pub entered :
      PaperService F
      → String
      → PaperOrderRequest F
      → PaperExecutionResult F
      → Result (PaperService F × PaperExecutionResult F)
  entered s id request result =
      given (if result.accepted then result.order else none) (ok (s, result)) (λ order.
        bind (moves PositionState.watching (PositionState.entry_ready ∷ PositionState.opened ∷ []))
          (λ reached.
            let position = open_position id request order.executed_price reached in
            let own = record order { position_id = some id } in
            ok (
              record s { positions = put position s.positions; orders = s.orders ++ (own ∷ []) },
              record result { order = some own },
            )))

  unfoldable pub enter :
      PaperService F
      → String
      → String
      → PaperOrderRequest F
      → Conditions F
      → Result (PaperService F × PaperExecutionResult F)
  enter s id order_id request c =
      let verdict = gate s c true 0 request.quantity in
      if not (is_running s.state)
      then ok (s, refused "PAPER_TRADING_NOT_RUNNING" "WHY_REJECTED:SERVICE_STATE")
      else if not verdict.allowed
      then ok (s, rejected verdict.rejection_reasons)
      else bind (execute s.execution order_id request c.quote nought)
          (λ result. entered s id request result)

  unfoldable pub mark : PaperService F → String → F → ℕ → Result (PaperService F × F)
  mark s id price timestamp = on_key (lookup id s.positions) (λ p.
      let marked = mark_position p price timestamp in
      let positions = put marked s.positions in
      let account =
        mark_account s.account (sum (λ q. q.unrealized_pnl) nought positions) timestamp in
      ok (
        record s {
          positions = positions;
          account = account;
          daily = update s.daily timestamp account.equity;
        },
        marked.unrealized_pnl,
      ))

  -- a position after the transitions, and its entry if the order was filled
  unfoldable pub averaged :
      PaperService F
      → PaperPosition F
      → PaperOrderRequest F
      → PaperExecutionResult F
      → Result (PaperService F × PaperExecutionResult F)
  averaged s p request result = given result.order (ok (s, result)) (λ order.
      bind (moves p.state (PositionState.dca_allowed ∷ PositionState.opened ∷ [])) (λ reached.
        let larger = add_entry p order.executed_price order.quantity request.timestamp in
        ok (
          record s {
            positions = put (record larger { state = reached }) s.positions;
            orders = s.orders ++ (order ∷ []);
          },
          result,
        )))

  unfoldable pub dca_blocked :
      PaperService F
      → PaperPosition F
      → List String
      → Result (PaperService F × PaperExecutionResult F)
  dca_blocked s p reasons =
      bind (moves p.state (PositionState.dca_blocked ∷ PositionState.opened ∷ [])) (λ reached.
        ok (
          record s { positions = put (record p { state = reached }) s.positions },
          rejected reasons,
        ))

  unfoldable pub dca :
      PaperService F
      → String
      → String
      → PaperOrderRequest F
      → Conditions F
      → Result (PaperService F × PaperExecutionResult F)
  dca s id order_id request c = on_key (lookup id s.positions) (λ p.
      let verdict = gate s c false p.dca_entries request.quantity in
      if not verdict.allowed
      then dca_blocked s p verdict.rejection_reasons
      else bind (execute s.execution order_id request c.quote nought)
          (λ result. averaged s p request result))

  unfoldable pub close_position :
      PaperService F → String → F → ℕ → Result (PaperService F × PaperPosition F)
  close_position s id price timestamp = on_key (lookup id s.positions) (λ p.
      bind (moves p.state (PositionState.exit_pending ∷ PositionState.closed ∷ [])) (λ reached.
        let marked = mark_position p price timestamp in
        let own = orders_of id s.orders in
        let commission = sum (λ o. o.commission) nought own in
        let slippage = sum (λ o. mul o.slippage o.quantity) nought own in
        let paid = realize s.account marked.unrealized_pnl commission slippage timestamp in
        ok (
          record s { account = paid.0; positions = pop id s.positions },
          record marked { state = reached; realized_pnl = paid.1 },
        )))
