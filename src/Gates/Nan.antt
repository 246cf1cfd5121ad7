-- ===== src/Gates/Nan.antt =====
-- A quote that is not a number, in the spread gate.
use alm_trading.Base.{◌≡◌, refl, true, none, some}
use alm_trading.Float.{Float, IsOrdered, IsNan, lt-nan, nought}
use alm_trading.Gates.{DemoExecutionContext, DemoGateChain}
use alm_trading.Gates.Budget.{spread_gate, quoted_spread_gate}

module _ {ℓ} {F : Type ℓ} ⦃f : Float F⦄ where
  quoted_spread_gate-nan :
      (laws : IsOrdered F) (g : DemoGateChain F) (bid ask : F)
      → IsNan ask
      → (quoted_spread_gate g (some bid) (some ask) none).passed ≡ true
  unfolding quoted_spread_gate
  quoted_spread_gate-nan laws g bid ask h =
      let spread = f.sub ask bid in
      let wide = lt-nan laws spread g.limits.max_spread (laws.sub_nan ask bid h) in
      let crossed = lt-nan laws spread nought (laws.sub_nan ask bid h) in
      rw (wide.1, crossed.0) refl

  -- In an arithmetic with the laws of the order, the spread gate passes a quote whose ask is a
  -- NaN, whatever its limit and the bid, where no slippage is expected.
  pub spread_gate-nan :
      (laws : IsOrdered F) (g : DemoGateChain F) (c : DemoExecutionContext F) (bid ask : F)
      → c.quote ≡ some (record { bid = some bid; ask = some ask })
      → c.expected_slippage ≡ none
      → IsNan ask
      → (spread_gate g c).passed ≡ true
  unfolding spread_gate
  spread_gate-nan laws g c bid ask q s h =
      rw (q, s, spread_gate) (quoted_spread_gate-nan laws g bid ask h)
