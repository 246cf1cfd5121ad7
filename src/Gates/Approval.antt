-- ===== src/Gates/Approval.antt =====
-- What an approval of the chain rests on.
use alm_trading.Base.{
  ℕ, ◌≡◌, ap, sym, subst, ◌∙◌, true, Option, none, some, List, [], ◌∷◌, ◌++◌, arith, dedup,
  dedup-nil, nil_of_is_empty, All, append-nil_left, append-nil_right, ok, or_else, string_eq,
}
use alm_trading.Float.{Float}
use alm_trading.Order.{DemoOrderRequest, to_order_request}
use alm_trading.KillSwitch.{ExecutionKillSwitch}
use alm_trading.Mode.{ModeDecision}
use alm_trading.Idempotency.{IdempotencyVerdict, allowed}
use alm_trading.Guard.Approval.{IsCleared, evaluate-IsCleared}
use alm_trading.Gates.{
  DemoExecutionContext, DemoGateChain, GateChainDecision, guard_context, default_context,
}
use alm_trading.Gates.Chain.{
  refusals, mode_refusals, duplicate_refusals, deciding, transmitting, guard_verdict, decide,
  evaluate,
}
use alm_trading.Gates.Sound.{
  IsSound, HasReasons, refusals-nil, deciding-IsSound, transmitting-IsSound,
}

All-append {ℓ κ} :
    {A : Type ℓ} (P : A → Type κ) (xs ys : List A) → All P xs → All P ys → All P (xs ++ ys)
All-append P [] ys p q = q
All-append P (x ∷ xs) ys p q = (p.0, All-append P xs ys p.1 q)

All-append_right {ℓ κ} :
    {A : Type ℓ} (P : A → Type κ) (xs ys : List A) → All P (xs ++ ys) → All P ys
All-append_right P [] ys p = p
All-append_right P (x ∷ xs) ys p = All-append_right P xs ys p.1

mode_refusals-sends : (m : ModeDecision) → mode_refusals m ≡ [] → m.sends_orders ≡ true
mode_refusals-sends m h = ground arith

duplicate_refusals-allowed :
    (o : Option IdempotencyVerdict) (v : IdempotencyVerdict)
    → duplicate_refusals o ≡ []
    → o ≡ some v
    → allowed v ≡ true
duplicate_refusals-allowed none v h e = ground arith
duplicate_refusals-allowed (some u) v h e = ground arith

module _ {ℓ} {F : Type ℓ} ⦃f : Float F⦄ where
  pub evaluate-decide :
      (g : DemoGateChain F) (k : ExecutionKillSwitch) (r : DemoOrderRequest F)
      (o : Option (DemoExecutionContext F)) (now : ℕ) (d : GateChainDecision)
      → evaluate g k r o now ≡ ok d
      → d ≡ decide g k r (or_else o default_context) now d.mode
  unfolding evaluate decide
  evaluate-decide g k r o now d e = ground arith

  decide-reasons :
      (g : DemoGateChain F) (k : ExecutionKillSwitch) (r : DemoOrderRequest F)
      (c : DemoExecutionContext F) (now : ℕ) (m : ModeDecision)
      → (decide g k r c now m).approved ≡ true
      → refusals (deciding g r c now ++ transmitting g k r c now)
          ++ (mode_refusals m ++ duplicate_refusals c.idempotency)
        ≡ []
  unfolding decide
  decide-reasons g k r c now m h = dedup-nil _ (nil_of_is_empty (dedup _) h)

  -- What an approval says of the chain's own gates and of the two verdicts folded into it.
  pub record IsApproved (g : DemoGateChain F) (k : ExecutionKillSwitch) (r : DemoOrderRequest F)
      (c : DemoExecutionContext F) (d : GateChainDecision) : Type ℓ where
    pub gates : All (λ o. o.passed ≡ true) d.gates
    pub cleared : IsCleared g.guard k (to_order_request r) (guard_context c)
    pub sends : d.mode.sends_orders ≡ true
    pub first_time : (v : IdempotencyVerdict) → c.idempotency ≡ some v → allowed v ≡ true

  decide-IsApproved :
      (g : DemoGateChain F) (k : ExecutionKillSwitch) (r : DemoOrderRequest F)
      (c : DemoExecutionContext F) (now : ℕ) (m : ModeDecision)
      → HasReasons c.account
      → (decide g k r c now m).approved ≡ true
      → IsApproved g k r c (decide g k r c now m)
  unfolding decide transmitting guard_verdict
  decide-IsApproved g k r c now m given h =
      let quiet = decide-reasons g k r c now m h in
      let outcomes = deciding g r c now ++ transmitting g k r c now in
      let extra = append-nil_right (refusals outcomes) _ quiet in
      let sound =
        All-append IsSound (deciding g r c now) (transmitting g k r c now)
          (deciding-IsSound g r c now given) (transmitting-IsSound g k r c now) in
      let passed = refusals-nil outcomes sound (append-nil_left (refusals outcomes) _ quiet) in
      record {
        gates = passed;
        cleared =
            evaluate-IsCleared g.guard k (to_order_request r) (guard_context c) now
              (All-append_right (λ o. o.passed ≡ true) (deciding g r c now)
                (transmitting g k r c now) passed).0;
        sends = mode_refusals-sends m (append-nil_left (mode_refusals m) _ extra);
        first_time = λ v e.
            duplicate_refusals-allowed c.idempotency v (append-nil_right (mode_refusals m) _ extra)
              e;
      }

  -- The chain approves only if all of its gates have passed, the guard has cleared the order, the
  -- mode sends orders and the request is no duplicate, given that a verdict on the account comes
  -- with a reason.
  pub evaluate-IsApproved :
      (g : DemoGateChain F) (k : ExecutionKillSwitch) (r : DemoOrderRequest F)
      (o : Option (DemoExecutionContext F)) (now : ℕ) (d : GateChainDecision)
      → HasReasons (or_else o default_context).account
      → evaluate g k r o now ≡ ok d
      → d.approved ≡ true
      → IsApproved g k r (or_else o default_context) d
  evaluate-IsApproved g k r o now d given e h =
      let c = or_else o default_context in
      let same = evaluate-decide g k r o now d e in
      subst (λ x. IsApproved g k r c x) (sym same)
        (decide-IsApproved g k r c now d.mode given (ap (λ x. x.approved) (sym same) ∙ h))

  -- what an approval says of the verdict on the identifier alone
  pub evaluate-allowed :
      (g : DemoGateChain F) (k : ExecutionKillSwitch) (r : DemoOrderRequest F)
      (c : DemoExecutionContext F) (now : ℕ) (d : GateChainDecision) (v : IdempotencyVerdict)
      → evaluate g k r (some c) now ≡ ok d
      → d.approved ≡ true
      → c.idempotency ≡ some v
      → allowed v ≡ true
  evaluate-allowed g k r c now d v e h q =
      let same = evaluate-decide g k r (some c) now d e in
      let quiet = decide-reasons g k r c now d.mode (ap (λ x. x.approved) (sym same) ∙ h) in
      let extra =
        append-nil_right (refusals (deciding g r c now ++ transmitting g k r c now)) _ quiet in
      duplicate_refusals-allowed c.idempotency v (append-nil_right (mode_refusals d.mode) _ extra) q
