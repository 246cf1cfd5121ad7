-- ===== src/Gates/Names.antt =====
-- The name that each gate gives its outcome.
use alm_trading.Base.{
  ℕ, String, ◌≡◌, refl, ap, Option, none, some, List, [], ◌∷◌, map, arith, string_eq,
}
use alm_trading.Float.{Float}
use alm_trading.Order.{DemoOrderRequest}
use alm_trading.KillSwitch.{ExecutionKillSwitch}
use alm_trading.Account.{DemoAccountResult}
use alm_trading.Daily.{DailyRiskState}
use alm_trading.Guard.{quoted_bid, quoted_ask}
use alm_trading.Gates.{DemoExecutionContext, DemoGateChain, GateOutcome}
use alm_trading.Gates.Budget.{
  account_gate, data_quality_gate, quoted_spread_gate, spread_gate, risk_gate, drawdown_gate,
  exposure_gate,
}
use alm_trading.Gates.Setup.{dca_gate, strategy_gate, model_gate, session_gate, kill_switch_gate}
use alm_trading.Gates.Chain.{decision_gates, deciding, transmitting}

abbrev pub names : List GateOutcome → List String
names os = map (λ o. o.name) os

module _ {ℓ} {F : Type ℓ} where
  account_gate-name :
      (a : Option (DemoAccountResult F)) → (account_gate a).name ≡ "DemoAccountValidator"
  unfolding account_gate
  account_gate-name none = refl
  account_gate-name (some a) = ground arith

  drawdown_gate-name : (d : Option (DailyRiskState F)) → (drawdown_gate d).name ≡ "DrawdownGate"
  unfolding drawdown_gate
  drawdown_gate-name none = refl
  drawdown_gate-name (some d) = refl

  strategy_gate-name :
      (g : DemoGateChain F) (c : DemoExecutionContext F) → (strategy_gate g c).name ≡ "StrategyGate"
  unfolding strategy_gate
  strategy_gate-name g c = ground arith

  session_gate-name :
      (g : DemoGateChain F) (c : DemoExecutionContext F) (now : ℕ)
      → (session_gate g c now).name ≡ "SessionGate"
  unfolding session_gate
  session_gate-name g c now = ground arith

  pub kill_switch_gate-name :
      (r : DemoOrderRequest F) (k : ExecutionKillSwitch)
      → (kill_switch_gate r k).name ≡ "KillSwitch"
  unfolding kill_switch_gate
  kill_switch_gate-name r k = ground arith

module _ {ℓ} {F : Type ℓ} ⦃f : Float F⦄ where
  data_quality_gate-name :
      (g : DemoGateChain F) (c : DemoExecutionContext F)
      → (data_quality_gate g c).name ≡ "DataQualityGate"
  unfolding data_quality_gate
  data_quality_gate-name g c = ground arith

  quoted_spread_gate-name :
      (g : DemoGateChain F) (b a s : Option F) → (quoted_spread_gate g b a s).name ≡ "SpreadGate"
  unfolding quoted_spread_gate
  quoted_spread_gate-name g (some b) (some a) s = refl
  quoted_spread_gate-name g none none s = refl
  quoted_spread_gate-name g none (some a) s = refl
  quoted_spread_gate-name g (some b) none s = refl

  dca_gate-name :
      (g : DemoGateChain F) (r : DemoOrderRequest F) (c : DemoExecutionContext F)
      → (dca_gate g r c).name ≡ "DcaSafetyGate"
  unfolding dca_gate
  dca_gate-name g r c = ground arith

  model_gate-name :
      (g : DemoGateChain F) (c : DemoExecutionContext F)
      → (model_gate g c).name ≡ "ModelConfidenceGate"
  unfolding model_gate
  model_gate-name g c = ground arith

  pub deciding-names :
      (g : DemoGateChain F) (r : DemoOrderRequest F) (c : DemoExecutionContext F) (now : ℕ)
      → names (deciding g r c now) ≡ decision_gates
  unfolding deciding spread_gate risk_gate exposure_gate
  deciding-names g r c now =
      rw
        (
          account_gate-name c.account,
          data_quality_gate-name g c,
          quoted_spread_gate-name g (quoted_bid c.quote) (quoted_ask c.quote) c.expected_slippage,
          drawdown_gate-name c.daily,
          dca_gate-name g r c,
          strategy_gate-name g c,
          model_gate-name g c,
          session_gate-name g c now,
        )
        refl

  pub transmitting-names :
      (g : DemoGateChain F) (k : ExecutionKillSwitch) (r : DemoOrderRequest F)
      (c : DemoExecutionContext F) (now : ℕ)
      → names (transmitting g k r c now) ≡ "ExecutionGuard" ∷ "KillSwitch" ∷ []
  unfolding transmitting
  transmitting-names g k r c now = ap (λ n. "ExecutionGuard" ∷ n ∷ []) (kill_switch_gate-name r k)
