-- ===== src/Breaker/Recovery.antt =====
-- What opens the breaker, and that only a complete checklist closes it.
use alm_trading.Base.{
  ℕ, String, ◌≡◌, ◌↔◌, ◌≢◌, Bool, true, false, ◌||◌, Option, List, [], ◌∷◌, arith, ok, raise,
  recovery_refused, is_empty, is_blank, strip, or_text,
}
use alm_trading.Float.{Float}
use alm_trading.KillSwitch.{ExecutionKillSwitch, engage}
use alm_trading.KillSwitch.Release.{Call, call}
use alm_trading.Breaker.{
  CircuitBreaker, BreakerSignals, RecoveryChecklist, is_open, missing, human_approval,
  blocking_reasons,
}
use alm_trading.Breaker.Trip.{evaluate, trip, reset, check}

module _ {ℓ} {F : Type ℓ} ⦃f : Float F⦄ where
  -- A check that finds a condition opens the breaker, makes the conditions its triggers and leaves
  -- the kill switch engaged; one that finds none, or a disabled breaker's, changes nothing.
  pub check-opens :
      (s : BreakerSignals F) (actor : String) (now : ℕ) (b : CircuitBreaker F)
      (k : ExecutionKillSwitch)
      → let (b', k') = check s actor now b k in
        (b.enabled ≡ true
          → evaluate b s ≢ []
          → (is_open b' ≡ true) × (b'.triggers ≡ evaluate b s) × (k'.engaged ≡ true))
        × (b.enabled ≡ false → (b' ≡ b) × (k' ≡ k))
        × (evaluate b s ≡ [] → (b' ≡ b) × (k' ≡ k))
  unfolding check trip engage
  check-opens s actor now b k =
      (λ on found. ground arith, λ off. ground arith, λ quiet. ground arith)

-- A checklist is complete exactly with its three checks, a named approver and a stated reason.
pub missing-nil :
    (c : RecoveryChecklist)
    → (missing c ≡ []) ↔ (
        (c.health_check ≡ true)
        × (c.risk_check ≡ true)
        × (c.account_validation ≡ true)
        × (is_blank (strip (or_text c.approved_by "")) ≡ false)
        × (is_blank (strip (or_text c.reason "")) ≡ false))
unfolding missing human_approval
missing-nil c = (λ h. ground arith, λ h. ground arith)

module _ {ℓ} {F : Type ℓ} where
  -- A reset with a complete checklist leaves the breaker closed and without reasons to block; any
  -- other is refused with what is missing.
  pub reset-closes :
      (c : RecoveryChecklist) (actor : Option String) (now : ℕ) (b : CircuitBreaker F)
      → (missing c ≡ []
          → (b' : CircuitBreaker F) → reset c actor now b ≡ ok b'
          → (is_open b' ≡ false) × (blocking_reasons b' ≡ []))
        × (missing c ≢ [] → reset c actor now b ≡ raise (recovery_refused (missing c)))
  unfolding reset blocking_reasons
  reset-closes c actor now b = (λ h b' e. ground arith, λ h. ground arith)

-- What can be done around a breaker: a check, a reset (one that raises changes nothing), and a call
-- on the kill switch it shares.
pub data Step {ℓ} (F : Type ℓ) : Type ℓ where
  checks : BreakerSignals F → String → ℕ → Step F
  resets : RecoveryChecklist → Option String → ℕ → Step F
  calls : Call → Step F

module _ {ℓ} {F : Type ℓ} ⦃f : Float F⦄ where
  unfoldable pub step :
      Step F → CircuitBreaker F × ExecutionKillSwitch → CircuitBreaker F × ExecutionKillSwitch
  step (Step.checks s actor now) (b, k) = check s actor now b k
  step (Step.resets c actor now) (b, k) = elim (reset c actor now b) [
    | ok b' ↦ (b', k)
    | raise x ↦ (b, k)
  ]
  step (Step.calls c) (b, k) = (b, call c k)

  unfoldable pub steps :
      List (Step F)
      → CircuitBreaker F × ExecutionKillSwitch
      → CircuitBreaker F × ExecutionKillSwitch
  steps [] s = s
  steps (x ∷ xs) s = steps xs (step x s)

  -- The step is a reset with a complete checklist.
  abbrev pub recovers : Step F → Bool
  recovers (Step.resets c actor now) = is_empty (missing c)
  recovers _ = false

  abbrev pub any_recovers : List (Step F) → Bool
  any_recovers [] = false
  any_recovers (x ∷ xs) = recovers x || any_recovers xs

  step-is_open :
      (x : Step F) (b : CircuitBreaker F) (k : ExecutionKillSwitch)
      → recovers x ≡ false
      → is_open b ≡ true
      → is_open (step x (b, k)).0 ≡ true
  unfolding step check trip reset
  step-is_open (Step.checks s actor now) b k h o = ground arith
  step-is_open (Step.resets c actor now) b k h o = rw (h, step) o
  step-is_open (Step.calls c) b k h o = o

  -- An open breaker stays open through any run of checks, of calls on the kill switch, releases
  -- included, and of resets whose checklist is incomplete.
  pub steps-is_open :
      (xs : List (Step F)) (b : CircuitBreaker F) (k : ExecutionKillSwitch)
      → any_recovers xs ≡ false
      → is_open b ≡ true
      → is_open (steps xs (b, k)).0 ≡ true
  unfolding steps
  steps-is_open [] b k h o = o
  steps-is_open (x ∷ xs) b k h o =
      let first : recovers x ≡ false = ground arith in
      let next = step x (b, k) in
      steps-is_open xs next.0 next.1 (ground arith) (step-is_open x b k first o)
