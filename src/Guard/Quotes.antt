-- ===== src/Guard/Quotes.antt =====
-- The guard's checks of volume, price, spread, stops and risk (execution/mt5/execution_guard.py).
use alm_trading.Base.{
  String, Bool, not, ◌||◌, Option, none, some, List, [], ◌∷◌, ◌++◌, leb, if◌then◌else◌, string_eq,
}
use alm_trading.Float.{Float, nought}
use alm_trading.Order.{OrderRequest, is_buy, intent_is_dca}
use alm_trading.Guard.{ExecutionGuard, GuardContext, quoted_bid, quoted_ask, reason_if}

module _ {ℓ} {F : Type ℓ} ⦃f : Float F⦄ where
  open f use {lit, lt, le, eq, sub, div, abs, round}

  unfoldable pub volume_reasons : ExecutionGuard F → OrderRequest F → List String
  volume_reasons g request =
      let volume = request.volume in
      let steps = round 6 (div volume g.volume_step) in
      if le volume nought || not (eq volume volume)
      then "INVALID_VOLUME" ∷ []
      else reason_if (lt volume g.min_volume) "INVALID_VOLUME"
        ++ (reason_if (lt g.max_volume volume) "VOLUME_ABOVE_LIMIT"
            ++ reason_if (lt (lit 1 6) (abs (sub steps (round 0 steps)))) "INVALID_VOLUME")

  -- against the price that the request states, if it states one
  unfoldable pub price_deviation : ExecutionGuard F → F → Option F → List String
  price_deviation g reference none = []
  price_deviation g reference (some price) =
      if le price nought
      then "INVALID_PRICE" ∷ []
      else reason_if (lt g.price_tolerance (abs (sub price reference))) "PRICE_DEVIATION"

  unfoldable pub quoted_price_reasons :
      ExecutionGuard F → OrderRequest F → Option F → Option F → List String
  unfolding price_deviation
  quoted_price_reasons g request (some bid) (some ask) =
      if le bid nought || le ask nought || lt ask bid
      then "INVALID_PRICE" ∷ []
      else price_deviation g (if is_buy request.side then ask else bid) request.price
  quoted_price_reasons g request _ _ = "QUOTE_UNAVAILABLE" ∷ []

  unfoldable pub price_reasons : ExecutionGuard F → OrderRequest F → GuardContext F → List String
  unfolding quoted_price_reasons
  price_reasons g request context =
      quoted_price_reasons g request (quoted_bid context.quote) (quoted_ask context.quote)

  unfoldable pub quoted_spread_reasons : ExecutionGuard F → Option F → Option F → List String
  quoted_spread_reasons g (some bid) (some ask) =
      reason_if (lt g.max_spread (sub ask bid)) "SPREAD_TOO_WIDE"
  quoted_spread_reasons g _ _ = "QUOTE_UNAVAILABLE" ∷ []

  unfoldable pub spread_reasons : ExecutionGuard F → GuardContext F → List String
  unfolding quoted_spread_reasons
  spread_reasons g context =
      quoted_spread_reasons g (quoted_bid context.quote) (quoted_ask context.quote)

  unfoldable pub stop_loss_reasons : ExecutionGuard F → Bool → F → Option F → List String
  stop_loss_reasons g buying entry none = []
  stop_loss_reasons g buying entry (some sl) =
      reason_if
        (le sl nought
          || (if buying then le entry sl else le sl entry)
          || lt (abs (sub entry sl)) g.min_stop_distance)
        "INVALID_STOP_LOSS"

  unfoldable pub take_profit_reasons : ExecutionGuard F → Bool → F → Option F → List String
  take_profit_reasons g buying entry none = []
  take_profit_reasons g buying entry (some tp) =
      reason_if
        (le tp nought
          || (if buying then le tp entry else le entry tp)
          || lt (abs (sub tp entry)) g.min_stop_distance)
        "INVALID_TAKE_PROFIT"

  unfoldable pub quoted_stop_reasons :
      ExecutionGuard F → OrderRequest F → Option F → Option F → List String
  unfolding stop_loss_reasons take_profit_reasons
  quoted_stop_reasons g request (some bid) (some ask) =
      let buying = is_buy request.side in
      let entry = if buying then ask else bid in
      stop_loss_reasons g buying entry request.sl ++ take_profit_reasons g buying entry request.tp
  quoted_stop_reasons g request _ _ = []

  unfoldable pub stop_reasons : ExecutionGuard F → OrderRequest F → GuardContext F → List String
  unfolding quoted_stop_reasons
  stop_reasons g request context =
      quoted_stop_reasons g request (quoted_bid context.quote) (quoted_ask context.quote)

  unfoldable pub risk_reasons : ExecutionGuard F → OrderRequest F → GuardContext F → List String
  risk_reasons g request context =
      reason_if (not context.risk_allowed) "RISK_BLOCKED"
      ++ (reason_if (le g.max_daily_drawdown context.daily_drawdown) "DAILY_DRAWDOWN_EXCEEDED"
          ++ (reason_if (le g.max_exposure context.exposure) "MAXIMUM_EXPOSURE"
              ++ (if intent_is_dca request.intent
                  then reason_if (leb g.max_dca_entries context.dca_entries) "DCA_LIMIT"
                  else reason_if (leb g.max_open_positions context.open_positions)
                      "POSITION_LIMIT")))
