-- ===== src/Paper/Execution.antt =====
-- The simulated execution of paper orders (paper/execution.py). The identifier of an order is given;
-- the latency is left out.
use alm_trading.Base.{
  ℕ, String, Bool, true, false, Option, none, some, [], ◌∷◌, if◌then◌else◌, Result, ok, raise,
  state_error, ltb,
}
use alm_trading.Float.{Float, nought}
use alm_trading.Paper.{
  Direction, OrderType, PaperOrderRequest, PaperOrder, PaperExecutionResult, sign,
}

pub record ExecutionConfig {ℓ} (F : Type ℓ) : Type ℓ where
  pub fallback_spread : F
  pub fixed_slippage : F
  pub percentage_slippage : F
  pub volatility_slippage_multiplier : F
  pub commission_per_trade : F
  pub commission_percentage : F
  -- `safety.live_trading_enabled`
  pub live_trading_enabled : Bool

-- a quote, where `none` is a price that it lacks
pub record Quote {ℓ} (F : Type ℓ) : Type ℓ where
  pub bid : Option F
  pub ask : Option F
  pub mid_price : Option F

abbrev pub is_exit_order : OrderType → Bool
is_exit_order OrderType.close = true
is_exit_order OrderType.reduce = true
is_exit_order _ = false

-- the source is later than the request
unfoldable pub from_future : Option ℕ → ℕ → Bool
from_future none timestamp = false
from_future (some source) timestamp = ltb timestamp source

module _ {ℓ} {F : Type ℓ} where
  unfoldable pub both : Option F → Option F → Option (F × F)
  both (some bid) (some ask) = some (bid, ask)
  both _ _ = none

  -- both sides of the market, where the quote has them
  unfoldable pub sides : Option (Quote F) → Option (F × F)
  sides none = none
  sides (some q) = both q.bid q.ask

  abbrev pub mid_of : Option (Quote F) → Option F
  mid_of none = none
  mid_of (some q) = q.mid_price

  abbrev pub side_for : Direction → F × F → F
  side_for Direction.long market = market.1
  side_for Direction.short market = market.0

  unfoldable pub refused : String → String → PaperExecutionResult F
  refused reason code = record {
    accepted = false;
    order = none;
    rejection_reason = some reason;
    reason_codes = code ∷ [];
  }

module _ {ℓ} {F : Type ℓ} ⦃f : Float F⦄ where
  open f use {lit, le, add, sub, mul, div, neg, abs}

  -- the price that the order is filled around
  unfoldable pub reference_price :
      ExecutionConfig F → PaperOrderRequest F → Option (Quote F) → Option F
  reference_price config request quote = elim request.requested_price [
    | some price ↦ some price
    | none ↦ elim (sides quote) [
      | some market ↦ some (side_for request.direction market)
      | none ↦ elim (mid_of quote) [
        | some mid ↦
            some (add mid (mul (div config.fallback_spread (lit 2 0)) (sign request.direction)))
        | none ↦ none
      ]
    ]
  ]

  unfoldable pub filled :
      ExecutionConfig F → String → PaperOrderRequest F → Option (Quote F) → F → F → PaperOrder F
  filled config id request quote volatility reference =
      let spread : F = elim (sides quote) [
        | some market ↦ sub market.1 market.0
        | none ↦ config.fallback_spread
      ] in
      let source : String = elim (sides quote) [
        | some market ↦ "PROVIDER_BID_ASK"
        | none ↦ "CONFIGURED_FALLBACK_MODEL"
      ] in
      let slip =
        add (add config.fixed_slippage (mul (abs reference) config.percentage_slippage))
          (mul (abs volatility) config.volatility_slippage_multiplier) in
      let turned = if is_exit_order request.order_type then neg (lit 1 0) else lit 1 0 in
      let executed = add reference (mul (mul (sign request.direction) slip) turned) in
      record {
        order_id = id;
        position_id = request.position_id;
        symbol = request.symbol;
        direction = request.direction;
        order_type = request.order_type;
        requested_price = request.requested_price;
        executed_price = executed;
        quantity = request.quantity;
        slippage = slip;
        commission =
            add config.commission_per_trade
              (mul (abs (mul executed request.quantity)) config.commission_percentage);
        timestamp = request.timestamp;
        strategy_version = request.strategy_version;
        model_version = request.model_version;
        spread = spread;
        spread_source = source;
      }

  unfoldable pub execute :
      ExecutionConfig F
      → String
      → PaperOrderRequest F
      → Option (Quote F)
      → F
      → Result (PaperExecutionResult F)
  execute config id request quote volatility =
      if config.live_trading_enabled
      then raise state_error
      else if from_future request.source_timestamp request.timestamp
      then ok (refused "FUTURE_DATA_REJECTED" "WHY_REJECTED:FUTURE_DATA")
      else if le request.quantity nought
      then ok (refused "INVALID_QUANTITY" "WHY_REJECTED:INVALID_QUANTITY")
      else elim (reference_price config request quote) [
        | none ↦ ok (refused "QUOTE_UNAVAILABLE" "WHY_REJECTED:QUOTE_UNAVAILABLE")
        | some reference ↦ ok (record {
          accepted = true;
          order = some (filled config id request quote volatility reference);
          rejection_reason = none;
          reason_codes =
              (if is_exit_order request.order_type
                then "WHY_EXIT:PAPER_EXECUTION"
                else "WHY_ENTRY:PAPER_EXECUTION")
              ∷ [];
        })
      ]
