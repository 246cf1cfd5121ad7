-- ===== src/Gates/Decision.antt =====
-- The decision beneath the verdict: the part of the chain that does not ask how, or whether, an order
-- would be sent.
use alm_trading.Base.{
  ℕ, String, ◌≡◌, refl, ap, sym, subst, ◌∙◌, true, false, Option, List, [], ◌∷◌, ◌++◌, arith, mem,
  dedup, All, string_eq,
}
use alm_trading.Float.{Float}
use alm_trading.Order.{DemoOrderRequest}
use alm_trading.KillSwitch.{ExecutionKillSwitch}
use alm_trading.Mode.{ModeDecision}
use alm_trading.Idempotency.{IdempotencyVerdict}
use alm_trading.Gates.{DemoExecutionContext, DemoGateChain, GateOutcome}
use alm_trading.Gates.Budget.{data_quality_gate, spread_gate, risk_gate, exposure_gate}
use alm_trading.Gates.Setup.{dca_gate, strategy_gate, model_gate, session_gate}
use alm_trading.Gates.Chain.{
  gate_order, decision_gates, verdict_of, all_passed, decision_approved, decision_refusals,
  decision_reasons, deciding, transmitting, decide,
}
use alm_trading.Gates.Names.{names, kill_switch_gate-name, deciding-names, transmitting-names}

names-append : (os ts : List GateOutcome) → names (os ++ ts) ≡ names os ++ names ts
names-append [] ts = refl
names-append (o ∷ os) ts = ap (λ ns. o.name ∷ ns) (names-append os ts)

verdict_of-append :
    (os ts : List GateOutcome) (name : String)
    → mem name (names os) ≡ true
    → verdict_of (os ++ ts) name ≡ verdict_of os name
verdict_of-append [] ts name h = ground arith
verdict_of-append (o ∷ os) ts name h = ground (arith, verdict_of-append os ts name)

all_passed-append :
    (os ts : List GateOutcome) (wanted : List String)
    → All (λ n. mem n (names os) ≡ true) wanted
    → all_passed (os ++ ts) wanted ≡ all_passed os wanted
all_passed-append os ts [] h = refl
all_passed-append os ts (n ∷ ns) h =
    rw (verdict_of-append os ts n h.0, all_passed-append os ts ns h.1) refl

verdict_of-passed :
    (os : List GateOutcome) (name : String)
    → All (λ o. o.passed ≡ true) os
    → mem name (names os) ≡ true
    → verdict_of os name ≡ true
verdict_of-passed [] name p h = ground arith
verdict_of-passed (o ∷ os) name p h = ground (arith, verdict_of-passed os name p.1, p.0)

all_passed-passed :
    (os : List GateOutcome) (wanted : List String)
    → All (λ o. o.passed ≡ true) os
    → All (λ n. mem n (names os) ≡ true) wanted
    → all_passed os wanted ≡ true
all_passed-passed os [] p h = refl
all_passed-passed os (n ∷ ns) p h =
    rw (verdict_of-passed os n p h.0, all_passed-passed os ns p h.1) refl

decision_refusals-append :
    (os ts : List GateOutcome)
    → All (λ o. mem o.name decision_gates ≡ false) ts
    → decision_refusals (os ++ ts) ≡ decision_refusals os
decision_refusals-append [] [] h = refl
decision_refusals-append [] (t ∷ ts) h = rw (h.0, decision_refusals-append [] ts h.1) refl
decision_refusals-append (o ∷ os) ts h = rw (decision_refusals-append os ts h) refl

-- the order of the decision gates is their own
decision_gates-mem : All (λ n. mem n decision_gates ≡ true) decision_gates
decision_gates-mem =
    (refl, (refl, (refl, (refl, (refl, (refl, (refl, (refl, (refl, (refl, tt))))))))))

gate_order-mem : All (λ n. mem n gate_order ≡ true) decision_gates
gate_order-mem = (refl, (refl, (refl, (refl, (refl, (refl, (refl, (refl, (refl, (refl, tt))))))))))

module _ {ℓ} {F : Type ℓ} ⦃f : Float F⦄ where
  deciding-mem :
      (g : DemoGateChain F) (r : DemoOrderRequest F) (c : DemoExecutionContext F) (now : ℕ)
      → All (λ n. mem n (names (deciding g r c now)) ≡ true) decision_gates
  deciding-mem g r c now =
      subst (λ ns. All (λ n. mem n ns ≡ true) decision_gates) (sym (deciding-names g r c now))
        decision_gates-mem

  transmitting-outside :
      (g : DemoGateChain F) (k : ExecutionKillSwitch) (r : DemoOrderRequest F)
      (c : DemoExecutionContext F) (now : ℕ)
      → All (λ o. mem o.name decision_gates ≡ false) (transmitting g k r c now)
  unfolding transmitting
  transmitting-outside g k r c now =
      (refl, (ap (λ n. mem n decision_gates) (kill_switch_gate-name r k), tt))

  deciding-idempotency :
      (g : DemoGateChain F) (r : DemoOrderRequest F) (c : DemoExecutionContext F)
      (seen : Option IdempotencyVerdict) (now : ℕ)
      → deciding g r (record c { idempotency = seen }) now ≡ deciding g r c now
  unfolding deciding data_quality_gate spread_gate risk_gate exposure_gate dca_gate strategy_gate
      model_gate session_gate
  deciding-idempotency g r c seen now = refl

  decide-decision_approved :
      (g : DemoGateChain F) (k : ExecutionKillSwitch) (r : DemoOrderRequest F)
      (c : DemoExecutionContext F) (now : ℕ) (m : ModeDecision)
      → decision_approved (decide g k r c now m) ≡ all_passed (deciding g r c now) decision_gates
  unfolding decide decision_approved
  decide-decision_approved g k r c now m =
      all_passed-append (deciding g r c now) (transmitting g k r c now) decision_gates
        (deciding-mem g r c now)

  decide-decision_reasons :
      (g : DemoGateChain F) (k : ExecutionKillSwitch) (r : DemoOrderRequest F)
      (c : DemoExecutionContext F) (now : ℕ) (m : ModeDecision)
      → decision_reasons (decide g k r c now m) ≡ dedup (decision_refusals (deciding g r c now))
  unfolding decide decision_reasons
  decide-decision_reasons g k r c now m =
      ap (λ rs. dedup rs)
        (decision_refusals-append (deciding g r c now) (transmitting g k r c now)
          (transmitting-outside g k r c now))

  -- A decision reports the twelve gates, each once and in the stated order, whatever they find.
  pub decide-gates :
      (g : DemoGateChain F) (k : ExecutionKillSwitch) (r : DemoOrderRequest F)
      (c : DemoExecutionContext F) (now : ℕ) (m : ModeDecision)
      → names (decide g k r c now m).gates ≡ gate_order
  unfolding decide
  decide-gates g k r c now m =
      names-append (deciding g r c now) (transmitting g k r c now)
      ∙ rw (deciding-names g r c now, transmitting-names g k r c now) refl

  -- The decision and its reasons do not depend on the kill switch, the mode or whether the request
  -- was seen before: a shadow of an order is decided as the order is.
  pub decide-decision :
      (g : DemoGateChain F) (k k' : ExecutionKillSwitch) (r : DemoOrderRequest F)
      (c : DemoExecutionContext F) (seen : Option IdempotencyVerdict) (now : ℕ)
      (m m' : ModeDecision)
      → let d = decide g k r c now m in
        let shadow = decide g k' r (record c { idempotency = seen }) now m' in
        (decision_approved shadow ≡ decision_approved d)
        × (decision_reasons shadow ≡ decision_reasons d)
  decide-decision g k k' r c seen now m m' =
      let c' : DemoExecutionContext F = record c { idempotency = seen } in
      let same = deciding-idempotency g r c seen now in
      (
        decide-decision_approved g k' r c' now m'
            ∙ (ap (λ os. all_passed os decision_gates) same
                ∙ sym (decide-decision_approved g k r c now m)),
        decide-decision_reasons g k' r c' now m'
            ∙ (ap (λ os. dedup (decision_refusals os)) same
                ∙ sym (decide-decision_reasons g k r c now m)),
      )

  -- A decision all of whose gates have passed is one that would have been taken.
  pub decide-passed :
      (g : DemoGateChain F) (k : ExecutionKillSwitch) (r : DemoOrderRequest F)
      (c : DemoExecutionContext F) (now : ℕ) (m : ModeDecision)
      → All (λ o. o.passed ≡ true) (decide g k r c now m).gates
      → decision_approved (decide g k r c now m) ≡ true
  unfolding decide decision_approved
  decide-passed g k r c now m passed =
      let outcomes = deciding g r c now ++ transmitting g k r c now in
      all_passed-passed outcomes decision_gates passed (
        subst (λ ns. All (λ n. mem n ns ≡ true) decision_gates) (sym (decide-gates g k r c now m))
          gate_order-mem)
