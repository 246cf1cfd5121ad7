-- ===== src/Gates/Funded.antt =====
-- What the gates that read the account and the budget rule out.
use alm_trading.Base.{◌≡◌, ◌<◌, true, false, some, [], string_eq}
use alm_trading.Float.{Float, nought}
use alm_trading.Order.{DemoOrderRequest, intent_is_dca}
use alm_trading.Account.{DemoAccountResult}
use alm_trading.Daily.{DailyRiskState}
use alm_trading.Gates.{DemoExecutionContext, DemoGateChain}
use alm_trading.Gates.Budget.{is_valid_demo, budget_codes}

module _ {ℓ} {F : Type ℓ} ⦃f : Float F⦄ where
  open f use {lt, le, add, sub}

  pub record IsFunded (g : DemoGateChain F) (r : DemoOrderRequest F) (c : DemoExecutionContext F)
      : Type ℓ where
    pub account : (a : DemoAccountResult F) × (c.account ≡ some a) × (is_valid_demo a.status ≡ true)
    pub risk : c.risk_allowed ≡ some true
    pub sized : le r.volume nought ≡ false
    pub bounded : lt g.limits.max_position_size r.volume ≡ false
    pub day : (d : DailyRiskState F) × (c.daily ≡ some d) × (budget_codes d.reasons ≡ [])
    pub positions : c.open_positions < g.limits.max_open_positions
    pub symbol_room :
        lt g.limits.max_symbol_exposure (add c.symbol_exposure c.order_notional) ≡ false
    pub total_room : lt g.limits.max_total_exposure (add c.total_exposure c.order_notional) ≡ false
    pub levels :
        intent_is_dca r.intent ≡ true
        → (g.settings.demo_dca_enabled ≡ true) × (c.dca_levels < g.limits.max_dca_levels)
