-- ===== src/Sizing/Calculate.antt =====
-- The calculation itself (execution/demo/sizing.py, `PositionSizer.calculate`).
use alm_trading.Base.{
  String, not, ◌||◌, Option, none, some, List, [], ◌∷◌, ◌++◌, if◌then◌else◌, Result, ok, raise,
  or_else, upper,
}
use alm_trading.Float.{Float, nought, truthy, fmax}
use alm_trading.Limits.{DemoRiskLimits}
use alm_trading.Sizing.{
  SymbolContract, PositionSize, usable, floor_to_step, capped, exposure_caps, margin_volume,
  margin_cap,
}

-- the arguments of `calculate`
pub record SizeRequest {ℓ} (F : Type ℓ) : Type ℓ where
  pub symbol : String
  pub equity : F
  pub entry_price : F
  pub stop_loss : Option F
  pub contract : SymbolContract F
  pub risk_percent : Option F
  pub open_symbol_exposure : F
  pub open_total_exposure : F
  pub free_margin : Option F
  pub margin_per_lot : Option F

module _ {ℓ} {F : Type ℓ} where
  -- `margin_per_lot if margin_per_lot is not None else contract.margin_per_lot`
  abbrev first_given : Option F → Option F → Option F
  first_given none other = other
  first_given (some x) other = some x

module _ {ℓ} {F : Type ℓ} ⦃f : Float F⦄ where
  open f use {lt, le, sub, mul, div, abs, is_finite, round}

  -- a volume of 0, with the reasons
  abbrev pub refused :
      String → F → F → F → F → List String → List (String × F) → Result (PositionSize F)
  refused symbol risk_amount stop_distance risk_percent raw reasons caps = ok (record {
    symbol = upper symbol;
    volume = nought;
    risk_amount = risk_amount;
    stop_distance = stop_distance;
    risk_percent = risk_percent;
    raw_volume = raw;
    notional = nought;
    reasons = reasons;
    caps = caps;
  })

  unfoldable pub per_lot : SizeRequest F → F
  per_lot q = mul q.contract.contract_size q.entry_price

  unfoldable pub allowed_margin : DemoRiskLimits F → SizeRequest F → Option F
  allowed_margin limits q =
      margin_volume limits.max_margin_usage q.free_margin
        (first_given q.margin_per_lot q.contract.margin_per_lot)

  unfoldable pub symbol_room : DemoRiskLimits F → SizeRequest F → F
  symbol_room limits q = sub limits.max_symbol_exposure q.open_symbol_exposure

  unfoldable pub total_room : DemoRiskLimits F → SizeRequest F → F
  total_room limits q = sub limits.max_total_exposure q.open_total_exposure

  -- the volume that the risk pays for, under every cap
  unfoldable pub limited : DemoRiskLimits F → SizeRequest F → F → List String → F × List String
  limited limits q raw reasons = margin_cap (allowed_margin limits q) (
      exposure_caps (symbol_room limits q) (total_room limits q) (per_lot q) (
        capped q.contract.volume_max "CAPPED_BY_BROKER_MAXIMUM"
          (capped limits.max_position_size "CAPPED_BY_MAX_POSITION_SIZE" (raw, reasons))))

  abbrev margin_caps : Option F → List (String × F)
  margin_caps none = []
  margin_caps (some allowed) = ("margin_volume", round 6 allowed) ∷ []

  -- `caps`
  unfoldable pub caps_of : DemoRiskLimits F → SizeRequest F → F → List (String × F)
  caps_of limits q raw =
      let rooms =
        ("symbol_exposure_room", round 2 (symbol_room limits q))
        ∷ ("total_exposure_room", round 2 (total_room limits q))
        ∷ [] in
      ("risk_volume", round 6 raw)
      ∷ ((if lt nought (per_lot q) then rooms else []) ++ margin_caps (allowed_margin limits q))

  -- the smallest volume that is traded
  unfoldable pub floor_volume : DemoRiskLimits F → SizeRequest F → F
  floor_volume limits q = fmax q.contract.volume_min limits.min_volume

  -- what follows the rounding to a step
  unfoldable pub sized :
      DemoRiskLimits F
      → SizeRequest F
      → F
      → F
      → F
      → F
      → List String
      → Result F
      → Result (PositionSize F)
  sized limits q risk_amount stop_distance requested raw reasons (raise e) = raise e
  sized limits q risk_amount stop_distance requested raw reasons (ok v) =
      if lt v (floor_volume limits q)
      then refused q.symbol risk_amount stop_distance requested (round 6 raw)
          (reasons ++ ("BELOW_MINIMUM_VOLUME" ∷ [])) (caps_of limits q raw)
      else ok (record {
        symbol = upper q.symbol;
        volume = round 6 v;
        risk_amount = round 6 risk_amount;
        stop_distance = stop_distance;
        risk_percent = requested;
        raw_volume = round 6 raw;
        notional = round 2 (mul (round 6 v) (per_lot q));
        reasons = reasons;
        caps = caps_of limits q raw;
      })

  -- `contract.volume_step or self.limits.volume_step`
  unfoldable pub step_of : DemoRiskLimits F → SizeRequest F → F
  step_of limits q =
      if truthy q.contract.volume_step then q.contract.volume_step else limits.volume_step

  unfoldable pub loss_per_lot : SizeRequest F → F → F
  loss_per_lot q stop_distance = mul (div stop_distance q.contract.tick_size) q.contract.tick_value

  -- the volume before the caps
  unfoldable pub raw_volume : SizeRequest F → F → F → F
  raw_volume q requested stop_distance = div (mul q.equity requested) (loss_per_lot q stop_distance)

  unfoldable pub size_stop :
      DemoRiskLimits F → SizeRequest F → F → List String → F → Result (PositionSize F)
  size_stop limits q requested reasons stop_distance =
      let raw = raw_volume q requested stop_distance in
      let volume = limited limits q raw reasons in
      sized limits q (mul q.equity requested) stop_distance requested raw volume.1
        (floor_to_step volume.0 (step_of limits q))

  -- with a stop distance
  unfoldable pub calculate_stop :
      DemoRiskLimits F → SizeRequest F → F → List String → F → Result (PositionSize F)
  calculate_stop limits q requested reasons stop_distance =
      if le stop_distance nought || lt stop_distance limits.min_stop_distance
      then refused q.symbol nought stop_distance requested nought
          (reasons ++ ("NO_STOP_DISTANCE" ∷ [])) []
      else if not (usable q.contract)
      then refused q.symbol nought stop_distance requested nought
          (reasons ++ ("NO_TICK_ECONOMICS" ∷ [])) []
      else if le (loss_per_lot q stop_distance) nought
      then refused q.symbol (mul q.equity requested) stop_distance requested nought
          (reasons ++ ("NO_TICK_ECONOMICS" ∷ [])) []
      else size_stop limits q requested reasons stop_distance

  -- with an equity
  unfoldable pub calculate_equity :
      DemoRiskLimits F → SizeRequest F → F → List String → Option F → Result (PositionSize F)
  calculate_equity limits q requested reasons none =
      refused q.symbol nought nought requested nought (reasons ++ ("NO_STOP_DISTANCE" ∷ [])) []
  calculate_equity limits q requested reasons (some stop_loss) =
      if not (is_finite stop_loss) || le stop_loss nought
      then refused q.symbol nought nought requested nought (reasons ++ ("NO_STOP_DISTANCE" ∷ [])) []
      else calculate_stop limits q requested reasons (abs (sub q.entry_price stop_loss))

  -- with a risk within the limit
  unfoldable pub calculate_risk :
      DemoRiskLimits F → SizeRequest F → F → List String → Result (PositionSize F)
  calculate_risk limits q requested reasons =
      if not (is_finite q.equity) || le q.equity nought
      then refused q.symbol nought nought requested nought ("NO_EQUITY" ∷ []) []
      else calculate_equity limits q requested reasons q.stop_loss

  unfoldable pub calculate : DemoRiskLimits F → SizeRequest F → Result (PositionSize F)
  calculate limits q =
      let requested = or_else q.risk_percent limits.max_risk_per_trade in
      if not (is_finite requested) || le requested nought
      then refused q.symbol nought nought nought nought ("INVALID_RISK_PERCENT" ∷ []) []
      else if lt limits.max_risk_per_trade requested
      then calculate_risk limits q limits.max_risk_per_trade ("RISK_PERCENT_CLAMPED_TO_LIMIT" ∷ [])
      else calculate_risk limits q requested []
