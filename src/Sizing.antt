-- ===== src/Sizing.antt =====
-- Position sizing (execution/demo/sizing.py): a volume from the risk, within the limits, or a refusal.
-- The contract of a symbol is what the caller gives; reading it from a configuration or from the
-- terminal is left out.
pub mod Calculate
pub mod Capped
pub mod Sized
use alm_trading.Base.{
  String, Bool, not, ◌&&◌, ◌||◌, Option, none, some, List, [], ◌∷◌, ◌++◌, if◌then◌else◌, Result, ok,
  raise, value_error, overflow_error,
}
use alm_trading.Float.{Float, nought, truthy, fmax}
use alm_trading.Limits.{DemoRiskLimits}

-- what sizing reads of a contract
pub record SymbolContract {ℓ} (F : Type ℓ) : Type ℓ where
  pub tick_size : F
  pub tick_value : F
  pub contract_size : F
  pub volume_min : F
  pub volume_max : F
  pub volume_step : F
  pub margin_per_lot : Option F

pub record PositionSize {ℓ} (F : Type ℓ) : Type ℓ where
  pub symbol : String
  pub volume : F
  pub risk_amount : F
  pub stop_distance : F
  pub risk_percent : F
  pub raw_volume : F
  pub notional : F
  pub reasons : List String
  pub caps : List (String × F)

module _ {ℓ} {F : Type ℓ} ⦃f : Float F⦄ where
  open f use {lt, le, eq, mul, div, is_finite, floor, round}

  unfoldable pub usable : SymbolContract F → Bool
  usable c =
      lt nought c.tick_size
      && lt nought c.tick_value
      && lt nought c.volume_step
      && is_finite c.tick_size
      && is_finite c.tick_value

  -- `floor(x)`, which raises where there is no whole number
  abbrev whole : F → Result F
  whole x =
      if is_finite x then ok (floor x) else raise (if eq x x then overflow_error else value_error)

  abbrev stepped : F → Result F → Result F
  stepped step (raise e) = raise e
  stepped step (ok n) = ok (mul n step)

  -- `_floor_to_step`
  unfoldable pub floor_to_step : F → F → Result F
  floor_to_step volume step =
      if le step nought then ok volume else stepped step (whole (round 9 (div volume step)))

  -- `if limit < volume: volume = limit; reasons.append(code)`
  abbrev pub capped : F → String → F × List String → F × List String
  capped limit code state = if lt limit state.0 then (limit, state.1 ++ (code ∷ [])) else state

  -- the volume that the room of an exposure pays for
  unfoldable pub room_volume : F → F → F
  room_volume room notional_per_lot = div (fmax nought room) notional_per_lot

  unfoldable pub exposure_caps : F → F → F → F × List String → F × List String
  unfolding room_volume
  exposure_caps symbol_room total_room notional_per_lot state =
      let by_symbol =
        capped (room_volume symbol_room notional_per_lot) "CAPPED_BY_SYMBOL_EXPOSURE" state in
      let by_total =
        capped (room_volume total_room notional_per_lot) "CAPPED_BY_TOTAL_EXPOSURE" by_symbol in
      if lt nought notional_per_lot then by_total else state

  -- the volume that the free margin pays for, where both are known
  unfoldable pub margin_volume : F → Option F → Option F → Option F
  margin_volume usage none per_lot = none
  margin_volume usage (some free) none = none
  margin_volume usage (some free) (some per_lot) =
      if truthy per_lot then some (div (mul (fmax nought free) usage) per_lot) else none

  abbrev pub margin_cap : Option F → F × List String → F × List String
  margin_cap none state = state
  margin_cap (some allowed) state = capped allowed "CAPPED_BY_MARGIN" state
