-- ===== src/Examples/Chain.antt =====
-- The theorems on the guard and the chain of gates, run on an order that passes.
use alm_trading.Base.{
  ◌≡◌, refl, true, false, none, some, [], ◌∷◌, ok, upper, strip, lower, has_substring, dedup, arith,
  ◌≢◌,
}
use alm_trading.Float.Nano.{Nano, nan, nano_float, Nano-IsOrdered}
use alm_trading.Order.{to_order_request}
use alm_trading.Mode.{ExecutionMode, ModeDecision, resolve, parse_mode}
use alm_trading.Guard.{
  environment_reasons, account_reasons, symbol_reasons, strategy_reasons, session_reasons,
}
use alm_trading.Guard.Quotes.{
  volume_reasons, price_reasons, spread_reasons, stop_reasons, risk_reasons,
}
use alm_trading.Guard.Evaluate.{groups, evaluate as guard_evaluate}
use alm_trading.Guard.Approval.{IsCleared, evaluate-IsCleared}
use alm_trading.Session.{session_for}
use alm_trading.KillSwitch.{blocking_reasons}
use alm_trading.Gates.{DemoExecutionContext, GateChainDecision, guard_context}
use alm_trading.Gates.Budget.{
  account_gate, data_quality_gate, spread_gate, risk_gate, verdict_reasons, size_reasons,
  amount_reasons, margin_reasons, drawdown_gate, exposure_gate,
}
use alm_trading.Gates.Setup.{
  dca_gate, strategy_gate, executable, model_gate, session_gate, kill_switch_gate,
}
use alm_trading.Gates.Chain.{
  evaluate, decide, deciding, transmitting, guard_verdict, resolved_mode, decision_approved,
  decision_reasons,
}
use alm_trading.Gates.Approval.{IsApproved, evaluate-IsApproved}
use alm_trading.Gates.Decision.{decide-decision}
use alm_trading.Gates.Nan.{spread_gate-nan}
use alm_trading.Examples.{
  chain, guard, context, order, verified, released_switch, engaged_switch, dec,
}

abbrev automated : ModeDecision
automated = record {
  mode = ExecutionMode.demo_automated;
  configured = "DEMO_AUTOMATED";
  sends_orders = true;
  requires_human_approval = false;
  reasons = [];
}

abbrev verdict : GateChainDecision
verdict = decide chain released_switch order context 36_000 automated

evaluates : evaluate chain released_switch order (some context) 36_000 ≡ ok verdict
unfolding evaluate resolved_mode resolve upper strip parse_mode
evaluates = refl

approves : verdict.approved ≡ true
unfolding decide deciding transmitting guard_verdict guard_evaluate groups guard_context
    to_order_request environment_reasons account_reasons symbol_reasons strategy_reasons
    session_reasons volume_reasons price_reasons spread_reasons stop_reasons risk_reasons
    session_for blocking_reasons account_gate data_quality_gate spread_gate risk_gate
    verdict_reasons size_reasons amount_reasons margin_reasons drawdown_gate exposure_gate dca_gate
    strategy_gate executable model_gate session_gate kill_switch_gate dedup upper strip lower
    has_substring
approves = refl

guard_approves :
    (guard_evaluate guard released_switch
      (to_order_request order)
      (guard_context context)
      36_000).approved
    ≡ true
unfolding guard_evaluate groups guard_context to_order_request environment_reasons account_reasons
    symbol_reasons strategy_reasons session_reasons volume_reasons price_reasons spread_reasons
    stop_reasons risk_reasons session_for blocking_reasons dedup upper strip lower has_substring
guard_approves = refl

given : verified.reasons ≢ []
given e = ground arith

evaluate-IsCleared_example :
    IsCleared guard released_switch (to_order_request order) (guard_context context)
evaluate-IsCleared_example =
    evaluate-IsCleared guard released_switch (to_order_request order) (guard_context context) 36_000
      guard_approves

evaluate-IsApproved_example : IsApproved chain released_switch order context verdict
evaluate-IsApproved_example =
    evaluate-IsApproved chain released_switch order (some context) 36_000 verdict given evaluates
      approves

abbrev shadow_mode : ModeDecision
shadow_mode = record {
  mode = ExecutionMode.shadow;
  configured = "SHADOW";
  sends_orders = false;
  requires_human_approval = false;
  reasons = "MODE_DOES_NOT_EXECUTE" ∷ [];
}

decide-decision_example :
    (decision_approved (
        decide chain engaged_switch order
          (record context { idempotency = none })
          36_000
          shadow_mode)
      ≡ decision_approved verdict)
    × (decision_reasons (
          decide chain engaged_switch order
            (record context { idempotency = none })
            36_000
            shadow_mode)
        ≡ decision_reasons verdict)
decide-decision_example =
    decide-decision chain released_switch engaged_switch order context none 36_000 automated
      shadow_mode

abbrev broken_quote : DemoExecutionContext Nano
broken_quote = record context { quote = some (record { bid = some (dec 11000 4); ask = some nan }) }

spread_gate-nan_example : (spread_gate chain broken_quote).passed ≡ true
spread_gate-nan_example =
    spread_gate-nan Nano-IsOrdered chain broken_quote (dec 11000 4) nan refl refl refl
