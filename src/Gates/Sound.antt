-- ===== src/Gates/Sound.antt =====
-- No gate refuses without a reason, so that the verdict, which counts reasons, counts refusals.
use alm_trading.Base.{
  ℕ, String, ◌≡◌, ◌≢◌, refl, true, false, Option, none, some, List, [], ◌∷◌, ◌++◌, arith,
  Bool-cases, inl, inr, All, append-nil_left, append-nil_right, string_eq,
}
use alm_trading.Float.{Float}
use alm_trading.Order.{DemoOrderRequest}
use alm_trading.KillSwitch.{ExecutionKillSwitch}
use alm_trading.Account.{DemoAccountResult, DemoValidation}
use alm_trading.Guard.Evaluate.{evaluate as guard_evaluate}
use alm_trading.Gates.{DemoExecutionContext, DemoGateChain, GateOutcome, outcome}
use alm_trading.Gates.Budget.{
  account_gate, refused_account, is_valid_demo, data_quality_gate, quoted_spread_gate, spread_gate,
  risk_gate, drawdown_gate, exposure_gate,
}
use alm_trading.Gates.Setup.{dca_gate, strategy_gate, model_gate, session_gate, kill_switch_gate}
use alm_trading.Gates.Chain.{refusals, guard_verdict, deciding, transmitting}

-- A gate that gives no reason has passed.
abbrev pub IsSound : GateOutcome → Type 0
IsSound o = o.reasons ≡ [] → o.passed ≡ true

outcome-IsSound : (name : String) (reasons : List String) → IsSound (outcome name reasons)
outcome-IsSound name reasons h = rw h refl

-- Where no refusal has a reason, every gate has passed.
pub refusals-nil :
    (os : List GateOutcome) → All IsSound os → refusals os ≡ [] → All (λ o. o.passed ≡ true) os
refusals-nil [] sound h = tt
refusals-nil (o ∷ os) sound h = elim (Bool-cases o.passed) [
  | inl passed ↦ (passed, refusals-nil os sound.1 (rw passed at h))
  | inr refused ↦
      let quiet : o.reasons ++ refusals os ≡ [] = rw refused at h in
      (
        sound.0 (append-nil_left o.reasons (refusals os) quiet),
        refusals-nil os sound.1 (append-nil_right o.reasons (refusals os) quiet),
      )
]

-- What the chain relies on: the account's verdict comes with a reason, as the validator's does.
abbrev pub HasReasons {ℓ} : {F : Type ℓ} → Option (DemoAccountResult F) → Type 0
HasReasons none = Unit
HasReasons (some result) = result.reasons ≢ []

refused_account-ne-nil :
    (status : DemoValidation) (reasons : List String)
    → is_valid_demo status ≡ false
    → reasons ≢ []
    → refused_account status reasons ≢ []
unfolding refused_account
refused_account-ne-nil DemoValidation.valid_demo reasons v given = ground arith
refused_account-ne-nil DemoValidation.invalid_account reasons v given = ground arith
refused_account-ne-nil DemoValidation.unknown_account reasons v given = ground arith
refused_account-ne-nil DemoValidation.connection_error reasons v given = ground arith

module _ {ℓ} {F : Type ℓ} where
  account_gate-IsSound :
      (a : Option (DemoAccountResult F)) → HasReasons a → IsSound (account_gate a)
  unfolding account_gate
  account_gate-IsSound none given h = ground arith
  account_gate-IsSound (some result) given h = elim (Bool-cases (is_valid_demo result.status)) [
    | inl valid ↦ rw (valid, account_gate) refl
    | inr refused ↦ absurd (
        refused_account-ne-nil result.status result.reasons refused given
          (rw (refused, account_gate) at h))
  ]

  strategy_gate-IsSound :
      (g : DemoGateChain F) (c : DemoExecutionContext F) → IsSound (strategy_gate g c)
  unfolding strategy_gate
  strategy_gate-IsSound g c h = ground arith

  session_gate-IsSound :
      (g : DemoGateChain F) (c : DemoExecutionContext F) (now : ℕ) → IsSound (session_gate g c now)
  unfolding session_gate
  session_gate-IsSound g c now h = ground arith

  kill_switch_gate-IsSound :
      (r : DemoOrderRequest F) (k : ExecutionKillSwitch) → IsSound (kill_switch_gate r k)
  unfolding kill_switch_gate
  kill_switch_gate-IsSound r k h = ground arith

module _ {ℓ} {F : Type ℓ} ⦃f : Float F⦄ where
  quoted_spread_gate-IsSound :
      (g : DemoGateChain F) (b a s : Option F) → IsSound (quoted_spread_gate g b a s)
  unfolding quoted_spread_gate
  quoted_spread_gate-IsSound g (some b) (some a) s = outcome-IsSound "SpreadGate" _
  quoted_spread_gate-IsSound g none none s = ground arith
  quoted_spread_gate-IsSound g none (some a) s = ground arith
  quoted_spread_gate-IsSound g (some b) none s = ground arith

  data_quality_gate-IsSound :
      (g : DemoGateChain F) (c : DemoExecutionContext F) → IsSound (data_quality_gate g c)
  unfolding data_quality_gate
  data_quality_gate-IsSound g c h = ground arith

  drawdown_gate-IsSound : (c : DemoExecutionContext F) → IsSound (drawdown_gate c.daily)
  unfolding drawdown_gate
  drawdown_gate-IsSound c h = ground arith

  dca_gate-IsSound :
      (g : DemoGateChain F) (r : DemoOrderRequest F) (c : DemoExecutionContext F)
      → IsSound (dca_gate g r c)
  unfolding dca_gate
  dca_gate-IsSound g r c h = ground arith

  model_gate-IsSound : (g : DemoGateChain F) (c : DemoExecutionContext F) → IsSound (model_gate g c)
  unfolding model_gate
  model_gate-IsSound g c h = ground arith

  pub deciding-IsSound :
      (g : DemoGateChain F) (r : DemoOrderRequest F) (c : DemoExecutionContext F) (now : ℕ)
      → HasReasons c.account
      → All IsSound (deciding g r c now)
  unfolding deciding spread_gate risk_gate exposure_gate
  deciding-IsSound g r c now given = (
    account_gate-IsSound c.account given,
    (
      data_quality_gate-IsSound g c,
      (
        quoted_spread_gate-IsSound g _ _ _,
        (
          outcome-IsSound "RiskGate" _,
          (
            drawdown_gate-IsSound c,
            (
              outcome-IsSound "ExposureGate" _,
              (
                dca_gate-IsSound g r c,
                (
                  strategy_gate-IsSound g c,
                  (model_gate-IsSound g c, (session_gate-IsSound g c now, tt)),
                ),
              ),
            ),
          ),
        ),
      ),
    ),
  )

  pub transmitting-IsSound :
      (g : DemoGateChain F) (k : ExecutionKillSwitch) (r : DemoOrderRequest F)
      (c : DemoExecutionContext F) (now : ℕ)
      → All IsSound (transmitting g k r c now)
  unfolding transmitting guard_verdict guard_evaluate
  transmitting-IsSound g k r c now =
      (outcome-IsSound "ExecutionGuard" _, (kill_switch_gate-IsSound r k, tt))
