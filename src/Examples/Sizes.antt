-- ===== src/Examples/Sizes.antt =====
-- The theorems on sizing, run on an order whose risk pays for one lot.
use alm_trading.Base.{◌≡◌, ◌⊎◌, refl, none, some, [], ◌∷◌, arith, ok, upper}
use alm_trading.Float.{◌≼◌}
use alm_trading.Float.Nano.{Nano, nano_float, Nano-IsOrdered}
use alm_trading.Sizing.{
  SymbolContract, PositionSize, usable, floor_to_step, room_volume, exposure_caps, margin_volume,
}
use alm_trading.Sizing.Calculate.{
  SizeRequest, per_lot, allowed_margin, symbol_room, total_room, limited, floor_volume, sized,
  step_of, loss_per_lot, raw_volume, size_stop, calculate_stop, calculate_equity, calculate_risk,
  calculate, caps_of,
}
use alm_trading.Sizing.Capped.{IsCapped, limited-IsCapped}
use alm_trading.Sizing.Sized.{IsRefused, IsSized, calculate-IsSized}
use alm_trading.Examples.{dec, limits}

abbrev contract : SymbolContract Nano
contract = record {
  tick_size = dec 1 5;
  tick_value = dec 1 0;
  contract_size = dec 100000 0;
  volume_min = dec 1 2;
  volume_max = dec 100 0;
  volume_step = dec 1 2;
  margin_per_lot = some (dec 1000 0);
}

abbrev request : SizeRequest Nano
request = record {
  symbol = "eurusd";
  equity = dec 10000 0;
  entry_price = dec 11000 4;
  stop_loss = some (dec 10900 4);
  contract = contract;
  risk_percent = some (dec 2 2);
  open_symbol_exposure = dec 0 0;
  open_total_exposure = dec 0 0;
  free_margin = some (dec 9900 0);
  margin_per_lot = none;
}

abbrev size : PositionSize Nano
size = record {
  symbol = "EURUSD";
  volume = dec 10 2;
  risk_amount = dec 100 0;
  stop_distance = dec 100 4;
  risk_percent = dec 1 2;
  raw_volume = dec 1 1;
  notional = dec 11000 0;
  reasons = "RISK_PERCENT_CLAMPED_TO_LIMIT" ∷ [];
  caps = caps_of limits request (dec 1 1);
}

sizes : calculate limits request ≡ ok size
unfolding calculate calculate_risk calculate_equity calculate_stop size_stop sized raw_volume
    loss_per_lot limited exposure_caps floor_to_step step_of room_volume per_lot usable floor_volume
    caps_of symbol_room total_room allowed_margin margin_volume upper
sizes = refl

calculate-IsSized_example : IsRefused size ⊎ IsSized limits request size
calculate-IsSized_example = calculate-IsSized Nano-IsOrdered limits request size sizes

limited-IsCapped_example :
    let v = (limited limits request (dec 1 0) []).0 in IsCapped limits request v × (v ≼ dec 1 0)
unfolding per_lot room_volume symbol_room total_room allowed_margin margin_volume
limited-IsCapped_example = limited-IsCapped Nano-IsOrdered limits request (dec 1 0) [] (record {
  volume = refl;
  position = refl;
  broker = refl;
  rooms = λ h. (refl, refl);
  margin = λ allowed e. ground arith;
})
