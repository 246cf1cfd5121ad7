-- ===== src/Gates/Chain.antt =====
-- The chain: twelve gates in a fixed order, and the verdict on all of them
-- (execution/demo/gates.py, `evaluate` and the properties of its decision).
use alm_trading.Base.{
  ℕ, String, Bool, true, false, not, ◌&&◌, Option, none, some, List, [], ◌∷◌, ◌++◌, if◌then◌else◌,
  dedup, mem, is_empty, or_else, Result, ok, raise, string_eq, ◌=?◌,
}
use alm_trading.Float.{Float}
use alm_trading.Order.{DemoOrderRequest, to_order_request}
use alm_trading.KillSwitch.{ExecutionKillSwitch}
use alm_trading.Settings.{environment}
use alm_trading.Mode.{ModeDecision, resolve}
use alm_trading.Idempotency.{IdempotencyVerdict, allowed, duplicate_code}
use alm_trading.Guard.{GuardDecision}
use alm_trading.Guard.Evaluate.{evaluate as guard_evaluate}
use alm_trading.Gates.{
  DemoExecutionContext, DemoGateChain, GateOutcome, GateChainDecision, guard_context,
  default_context,
}
use alm_trading.Gates.Budget.{
  account_gate, data_quality_gate, spread_gate, risk_gate, drawdown_gate, exposure_gate,
}
use alm_trading.Gates.Setup.{dca_gate, strategy_gate, model_gate, session_gate, kill_switch_gate}

abbrev pub gate_order : List String
gate_order =
    "DemoAccountValidator" ∷ "DataQualityGate" ∷ "SpreadGate" ∷ "RiskGate" ∷ "DrawdownGate"
    ∷ "ExposureGate" ∷ "DcaSafetyGate" ∷ "StrategyGate" ∷ "ModelConfidenceGate" ∷ "SessionGate"
    ∷ "ExecutionGuard" ∷ "KillSwitch" ∷ []

abbrev pub decision_gates : List String
decision_gates =
    "DemoAccountValidator" ∷ "DataQualityGate" ∷ "SpreadGate" ∷ "RiskGate" ∷ "DrawdownGate"
    ∷ "ExposureGate" ∷ "DcaSafetyGate" ∷ "StrategyGate" ∷ "ModelConfidenceGate" ∷ "SessionGate" ∷ []

-- `blocked_by`
abbrev pub blocked_by : List GateOutcome → List String
blocked_by [] = []
blocked_by (o ∷ os) = if o.passed then blocked_by os else o.name ∷ blocked_by os

-- `verdicts.get(name, False)`, for gates whose names all differ
abbrev pub verdict_of : List GateOutcome → String → Bool
verdict_of [] name = false
verdict_of (o ∷ os) name = if name =? o.name then o.passed else verdict_of os name

abbrev pub all_passed : List GateOutcome → List String → Bool
all_passed os [] = true
all_passed os (name ∷ names) = verdict_of os name && all_passed os names

unfoldable pub decision_approved : GateChainDecision → Bool
decision_approved d = all_passed d.gates decision_gates

-- the reasons of the gates that refuse, and those of the ones among them that decide
abbrev pub refusals : List GateOutcome → List String
refusals [] = []
refusals (o ∷ os) = if o.passed then refusals os else o.reasons ++ refusals os

abbrev pub decision_refusals : List GateOutcome → List String
decision_refusals [] = []
decision_refusals (o ∷ os) =
    let rest = decision_refusals os in
    if mem o.name decision_gates && not o.passed then o.reasons ++ rest else rest

unfoldable pub decision_reasons : GateChainDecision → List String
decision_reasons d = dedup (decision_refusals d.gates)

-- `extra`: what the mode and the request's identifier add
abbrev pub mode_refusals : ModeDecision → List String
mode_refusals mode = if mode.sends_orders then [] else "MODE_BLOCKS_EXECUTION" ∷ mode.reasons

abbrev pub duplicate_refusals : Option IdempotencyVerdict → List String
duplicate_refusals none = []
duplicate_refusals (some v) =
    if allowed v then [] else if is_empty v.reasons then duplicate_code ∷ [] else v.reasons

-- `context.mode or self.modes.resolve()`
unfoldable pub resolved_mode {ℓ} :
    {F : Type ℓ} → DemoGateChain F → Option ModeDecision → Result ModeDecision
resolved_mode g (some mode) = ok mode
resolved_mode g none = resolve g.default_mode g.mode_settings

module _ {ℓ} {F : Type ℓ} ⦃f : Float F⦄ where
  unfoldable pub guard_verdict :
      DemoGateChain F
      → ExecutionKillSwitch
      → DemoOrderRequest F
      → DemoExecutionContext F
      → ℕ
      → GuardDecision
  guard_verdict g switch request c now =
      guard_evaluate g.guard switch (to_order_request request) (guard_context c) now

  -- the ten gates that decide, and the two that stand before the broker
  unfoldable pub deciding :
      DemoGateChain F → DemoOrderRequest F → DemoExecutionContext F → ℕ → List GateOutcome
  deciding g request c now =
      account_gate c.account
      ∷ data_quality_gate g c
      ∷ spread_gate g c
      ∷ risk_gate g request c
      ∷ drawdown_gate c.daily
      ∷ exposure_gate g c
      ∷ dca_gate g request c
      ∷ strategy_gate g c
      ∷ model_gate g c
      ∷ session_gate g c now
      ∷ []

  unfoldable pub transmitting :
      DemoGateChain F
      → ExecutionKillSwitch
      → DemoOrderRequest F
      → DemoExecutionContext F
      → ℕ
      → List GateOutcome
  transmitting g switch request c now =
      let verdict = guard_verdict g switch request c now in
      (record { name = "ExecutionGuard"; passed = verdict.approved; reasons = verdict.reasons })
      ∷ kill_switch_gate request switch
      ∷ []

  -- `evaluate`, once the mode is known
  unfoldable pub decide :
      DemoGateChain F
      → ExecutionKillSwitch
      → DemoOrderRequest F
      → DemoExecutionContext F
      → ℕ
      → ModeDecision
      → GateChainDecision
  decide g switch request c now mode =
      let outcomes = deciding g request c now ++ transmitting g switch request c now in
      let extra = mode_refusals mode ++ duplicate_refusals c.idempotency in
      let reasons = dedup (refusals outcomes ++ extra) in
      record {
        approved = is_empty reasons;
        request_id = request.request_id;
        gates = outcomes;
        reasons = reasons;
        guard = guard_verdict g switch request c now;
        mode = mode;
        timestamp = now;
        environment = environment g.settings;
      }

  -- A configured mode that is no mode raises.
  unfoldable pub evaluate :
      DemoGateChain F
      → ExecutionKillSwitch
      → DemoOrderRequest F
      → Option (DemoExecutionContext F)
      → ℕ
      → Result GateChainDecision
  evaluate g switch request context now =
      let c = or_else context default_context in
      elim (resolved_mode g c.mode) [
        | ok mode ↦ ok (decide g switch request c now mode)
        | raise e ↦ raise e
      ]
