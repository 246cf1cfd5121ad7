-- ===== src/Gates/Budget.antt =====
-- The gates on the account, the data, the spread and the risk budget (execution/demo/gates.py,
-- `_account_gate` to `_exposure_gate`).
use alm_trading.Base.{
  String, Bool, true, false, not, ◌&&◌, ◌||◌, Option, none, some, List, [], ◌∷◌, ◌++◌, leb,
  if◌then◌else◌, dedup, mem, upper, is_empty, string_eq, ◌=?◌,
}
use alm_trading.Float.{Float, nought, truthy}
use alm_trading.Limits.{
  max_risk_per_trade_code, max_daily_loss_code, max_total_drawdown_code, max_open_positions_code,
  max_symbol_exposure_code, max_total_exposure_code, max_trades_per_day_code, max_spread_code,
  max_slippage_code, max_margin_usage_code, max_position_size_code,
}
use alm_trading.Order.{DemoOrderRequest}
use alm_trading.Account.{DemoAccountResult, DemoValidation}
use alm_trading.Breaker.{given_and}
use alm_trading.Guard.{quoted_bid, quoted_ask}
use alm_trading.Daily.{DailyRiskState}
use alm_trading.Gates.{
  DemoExecutionContext, DemoGateChain, GateOutcome, outcome, passed_with, code_if,
}

-- the reasons for a status that is not VALID_DEMO
unfoldable pub refused_account : DemoValidation → List String → List String
refused_account DemoValidation.invalid_account reasons =
    if mem "ACCOUNT_IS_REAL" reasons then "ACCOUNT_IS_REAL" ∷ [] else reasons
refused_account _ reasons = "ACCOUNT_UNKNOWN" ∷ reasons

abbrev pub is_valid_demo : DemoValidation → Bool
is_valid_demo DemoValidation.valid_demo = true
is_valid_demo _ = false

module _ {ℓ} {F : Type ℓ} where
  unfoldable pub account_gate : Option (DemoAccountResult F) → GateOutcome
  unfolding refused_account
  account_gate none = outcome "DemoAccountValidator" ("ACCOUNT_NOT_VERIFIED_DEMO" ∷ [])
  account_gate (some result) =
      if is_valid_demo result.status
      then passed_with "DemoAccountValidator" "ACCOUNT_IS_DEMO"
      else record {
        name = "DemoAccountValidator";
        passed = false;
        reasons = refused_account result.status result.reasons;
      }

-- `failures` is not empty
unfoldable pub any_failure : List (String × String) → Bool
any_failure [] = false
any_failure ((timeframe, verdict) ∷ rest) = upper verdict =? "FAIL" || any_failure rest

abbrev pub is_given : Option Bool → Bool
is_given none = false
is_given (some b) = true

unfoldable pub verdict_reasons : Option Bool → List String → List String
verdict_reasons none codes = "RISK_ENGINE_UNAVAILABLE" ∷ []
verdict_reasons (some true) codes = []
verdict_reasons (some false) codes = "RISK_ENGINE_BLOCKED" ∷ codes

module _ {ℓ} {F : Type ℓ} ⦃f : Float F⦄ where
  open f use {lit, lt, le, add, sub, mul, div, abs}

  unfoldable pub data_quality_gate : DemoGateChain F → DemoExecutionContext F → GateOutcome
  unfolding any_failure
  data_quality_gate g c =
      if not (is_given c.data_quality_ok) && is_empty c.data_quality
      then outcome "DataQualityGate" ("DATA_QUALITY_UNKNOWN" ∷ [])
      else outcome "DataQualityGate" (
          dedup (
            code_if (any_failure c.data_quality) "DATA_QUALITY_FAILED"
            ++ (code_if (given_and not c.data_quality_ok) "DATA_QUALITY_FAILED"
                ++ code_if (given_and (lt g.data_stale_seconds) c.data_age_seconds) "DATA_STALE")))

  unfoldable pub quoted_spread_gate : DemoGateChain F → Option F → Option F → Option F → GateOutcome
  quoted_spread_gate g (some bid) (some ask) slippage =
      let spread = sub ask bid in
      outcome "SpreadGate" (
        code_if (lt spread nought || lt g.limits.max_spread spread) max_spread_code
        ++ code_if (given_and (λ s. lt g.limits.max_slippage (abs s)) slippage) max_slippage_code)
  quoted_spread_gate g _ _ slippage = outcome "SpreadGate" ("SPREAD_UNAVAILABLE" ∷ [])

  unfoldable pub spread_gate : DemoGateChain F → DemoExecutionContext F → GateOutcome
  unfolding quoted_spread_gate
  spread_gate g c =
      quoted_spread_gate g (quoted_bid c.quote) (quoted_ask c.quote) c.expected_slippage

  unfoldable pub size_reasons : DemoGateChain F → F → List String
  size_reasons g volume =
      if le volume nought
      then "VOLUME_NOT_SIZED" ∷ []
      else code_if (lt g.limits.max_position_size volume) max_position_size_code

  unfoldable pub amount_reasons : DemoGateChain F → Option F → Option F → List String
  amount_reasons g (some equity) (some amount) =
      code_if (truthy equity && lt (add (mul equity g.limits.max_risk_per_trade) (lit 1 9)) amount)
        max_risk_per_trade_code
  amount_reasons g _ _ = []

  unfoldable pub margin_reasons : DemoGateChain F → Option F → Option F → List String
  margin_reasons g (some free) (some used) =
      let total = add free used in
      let usage = if truthy total then div used total else nought in
      code_if (lt g.limits.max_margin_usage usage) max_margin_usage_code
  margin_reasons g _ _ = []

  unfoldable pub risk_gate :
      DemoGateChain F → DemoOrderRequest F → DemoExecutionContext F → GateOutcome
  risk_gate g request c = outcome "RiskGate" (
      dedup (
        verdict_reasons c.risk_allowed c.risk_reasons
        ++ (size_reasons g request.volume
            ++ (code_if (given_and (lt g.limits.max_risk_per_trade) request.risk_percent)
                  max_risk_per_trade_code
                ++ (amount_reasons g c.equity request.risk_amount
                    ++ margin_reasons g c.free_margin c.used_margin)))))

  unfoldable pub exposure_gate : DemoGateChain F → DemoExecutionContext F → GateOutcome
  exposure_gate g c =
      let projected_symbol = add c.symbol_exposure c.order_notional in
      let projected_total = add c.total_exposure c.order_notional in
      outcome "ExposureGate" (
        code_if (leb g.limits.max_open_positions c.open_positions) max_open_positions_code
        ++ (code_if (lt g.limits.max_symbol_exposure projected_symbol) max_symbol_exposure_code
            ++ code_if (lt g.limits.max_total_exposure projected_total) max_total_exposure_code))

-- the reasons of the day that the gate refuses for
unfoldable pub budget_codes : List String → List String
budget_codes [] = []
budget_codes (code ∷ codes) =
    let rest = budget_codes codes in
    if code =? max_daily_loss_code
      || (code =? max_total_drawdown_code || code =? max_trades_per_day_code)
    then code ∷ rest
    else rest

unfoldable pub drawdown_gate {ℓ} : {F : Type ℓ} → Option (DailyRiskState F) → GateOutcome
unfolding budget_codes
drawdown_gate none = outcome "DrawdownGate" ("DAILY_RISK_STATE_UNAVAILABLE" ∷ [])
drawdown_gate (some daily) = outcome "DrawdownGate" (budget_codes daily.reasons)
