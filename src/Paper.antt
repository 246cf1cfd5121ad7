-- ===== src/Paper.antt =====
-- The account, the positions and the states of paper trading (paper/models.py,
-- paper/state_machine.py). Identifiers are given, and the moment an account was made is left out.
pub mod Risk
pub mod Execution
pub mod Trading
pub mod Held
pub mod Runs
use alm_trading.Base.{
  ℕ, ◌+◌, String, Bool, true, false, Option, none, some, List, [], ◌∷◌, if◌then◌else◌, Result, ok,
  raise, value_error, ◌==◌, ◌||◌,
}
use alm_trading.Float.{Float, nought, fmax, truthy}

pub data Direction : Type 0 where
  long short : Direction

pub data OrderType : Type 0 where
  market limit dca reduce close : OrderType

pub data PositionState : Type 0 where
  watching entry_ready opened dca_allowed dca_blocked reduce exit_pending closed : PositionState
  invalidated : PositionState

-- `PositionStateMachine.ALLOWED`
unfoldable pub allowed : PositionState → List PositionState
allowed PositionState.watching = PositionState.entry_ready ∷ PositionState.invalidated ∷ []
allowed PositionState.entry_ready = PositionState.opened ∷ PositionState.invalidated ∷ []
allowed PositionState.opened =
    PositionState.dca_allowed ∷ PositionState.dca_blocked ∷ PositionState.reduce
    ∷ PositionState.exit_pending ∷ PositionState.invalidated ∷ []
allowed PositionState.dca_allowed =
    PositionState.opened ∷ PositionState.dca_blocked ∷ PositionState.exit_pending ∷ []
allowed PositionState.dca_blocked =
    PositionState.opened ∷ PositionState.reduce ∷ PositionState.exit_pending ∷ []
allowed PositionState.reduce = PositionState.opened ∷ PositionState.exit_pending ∷ []
allowed PositionState.exit_pending = PositionState.closed ∷ []
allowed PositionState.invalidated = PositionState.exit_pending ∷ PositionState.closed ∷ []
allowed PositionState.closed = []

abbrev pub number : PositionState → ℕ
number PositionState.watching = 0
number PositionState.entry_ready = 1
number PositionState.opened = 2
number PositionState.dca_allowed = 3
number PositionState.dca_blocked = 4
number PositionState.reduce = 5
number PositionState.exit_pending = 6
number PositionState.closed = 7
number PositionState.invalidated = 8

abbrev pub is_among : PositionState → List PositionState → Bool
is_among s [] = false
is_among s (t ∷ rest) = (number s == number t) || is_among s rest

unfoldable pub transition : PositionState → PositionState → Result PositionState
transition current target =
    if is_among target (allowed current) then ok target else raise value_error

-- transitions made one after the other
unfoldable pub moves : PositionState → List PositionState → Result PositionState
moves current [] = ok current
moves current (target ∷ rest) = elim (transition current target) [
  | ok reached ↦ moves reached rest
  | raise e ↦ raise e
]

pub record PaperAccount {ℓ} (F : Type ℓ) : Type ℓ where
  pub account_id : String
  pub initial_balance : F
  pub balance : F
  pub equity : F
  pub margin : F
  pub free_margin : F
  pub used_margin : F
  pub realized_pnl : F
  pub unrealized_pnl : F
  pub commission : F
  pub slippage : F
  pub updated_at : ℕ
  pub peak_equity : F
  pub max_drawdown : F

pub record PaperPosition {ℓ} (F : Type ℓ) : Type ℓ where
  pub position_id : String
  pub symbol : String
  pub direction : Direction
  pub entry_price : F
  pub average_entry_price : F
  pub quantity : F
  pub notional : F
  pub unrealized_pnl : F
  pub realized_pnl : F
  pub opened_at : ℕ
  pub updated_at : ℕ
  pub state : PositionState
  pub dca_entries : ℕ
  pub stop_loss : Option F
  pub take_profit : Option F

pub record PaperOrderRequest {ℓ} (F : Type ℓ) : Type ℓ where
  pub symbol : String
  pub direction : Direction
  pub order_type : OrderType
  pub quantity : F
  pub timestamp : ℕ
  pub requested_price : Option F
  pub position_id : Option String
  pub strategy_version : String
  pub model_version : Option String
  pub stop_loss : Option F
  pub take_profit : Option F
  pub source_timestamp : Option ℕ

pub record PaperOrder {ℓ} (F : Type ℓ) : Type ℓ where
  pub order_id : String
  pub position_id : Option String
  pub symbol : String
  pub direction : Direction
  pub order_type : OrderType
  pub requested_price : Option F
  pub executed_price : F
  pub quantity : F
  pub slippage : F
  pub commission : F
  pub timestamp : ℕ
  pub strategy_version : String
  pub model_version : Option String
  pub spread : F
  pub spread_source : String

-- the latency and the profits, which nothing modelled reads, are left out
pub record PaperExecutionResult {ℓ} (F : Type ℓ) : Type ℓ where
  pub accepted : Bool
  pub order : Option (PaperOrder F)
  pub rejection_reason : Option String
  pub reason_codes : List String

module _ {ℓ} {F : Type ℓ} ⦃f : Float F⦄ where
  open f use {lit, add, sub, mul, div, neg}

  -- `1 if direction is LONG else -1`
  abbrev pub sign : Direction → F
  sign Direction.long = lit 1 0
  sign Direction.short = neg (lit 1 0)

  unfoldable pub mark_account : PaperAccount F → F → ℕ → PaperAccount F
  mark_account a unrealized timestamp =
      let equity = add a.balance unrealized in
      let peak = fmax a.peak_equity equity in
      let drawdown = if truthy peak then div (sub peak equity) peak else nought in
      record a {
        unrealized_pnl = unrealized;
        equity = equity;
        free_margin = sub equity a.used_margin;
        peak_equity = peak;
        max_drawdown = fmax a.max_drawdown drawdown;
        updated_at = timestamp;
      }

  unfoldable pub realize : PaperAccount F → F → F → F → ℕ → PaperAccount F × F
  realize a gross commission slippage_cost timestamp =
      let net = sub (sub gross commission) slippage_cost in
      let paid = record a {
        realized_pnl = add a.realized_pnl net;
        commission = add a.commission commission;
        slippage = add a.slippage slippage_cost;
        balance = add a.balance net;
      } in
      (mark_account paid nought timestamp, net)

  unfoldable pub open_position : String → PaperOrderRequest F → F → PositionState → PaperPosition F
  open_position id request price reached = record {
    position_id = id;
    symbol = request.symbol;
    direction = request.direction;
    entry_price = price;
    average_entry_price = price;
    quantity = request.quantity;
    notional = mul price request.quantity;
    unrealized_pnl = nought;
    realized_pnl = nought;
    opened_at = request.timestamp;
    updated_at = request.timestamp;
    state = reached;
    dca_entries = 0;
    stop_loss = request.stop_loss;
    take_profit = request.take_profit;
  }

  unfoldable pub mark_position : PaperPosition F → F → ℕ → PaperPosition F
  mark_position p price timestamp = record p {
    unrealized_pnl = mul (mul (sub price p.average_entry_price) p.quantity) (sign p.direction);
    updated_at = timestamp;
  }

  unfoldable pub add_entry : PaperPosition F → F → F → ℕ → PaperPosition F
  add_entry p price quantity timestamp =
      let total = add p.quantity quantity in
      let average = div (add (mul p.average_entry_price p.quantity) (mul price quantity)) total in
      record p {
        average_entry_price = average;
        quantity = total;
        notional = mul average total;
        dca_entries = p.dca_entries + 1;
        updated_at = timestamp;
      }
