-- ===== src/KillSwitch/Release.antt =====
-- Sequences of calls on the kill switch: who can lift the block, and what the events record.
use alm_trading.Base.{
  ℕ, String, ◌≡◌, refl, sym, ap, ◌∙◌, inl, inr, Bool, true, false, not, ◌||◌, List, [], ◌∷◌, ◌++◌,
  arith, ok, raise, strip, is_blank, is_empty, Bool-cases,
}
use alm_trading.KillSwitch.{
  ExecutionKillSwitch, KillSwitchEvent, engage, release, blocking_reasons, permits,
}
use mathlib.Core.List.{append-nil, append_assoc}

-- One call made on a switch. A release that raises leaves the switch as it was.
pub data Call : Type 0 where
  engages : String → String → ℕ → Call
  releases : String → String → ℕ → Call

unfoldable pub call : Call → ExecutionKillSwitch → ExecutionKillSwitch
call (Call.engages reason actor now) k = (engage reason actor now k).0
call (Call.releases reason actor now) k = elim (release reason actor now k) [
  | ok r ↦ r.0
  | raise x ↦ k
]

unfoldable pub calls : List Call → ExecutionKillSwitch → ExecutionKillSwitch
calls [] k = k
calls (c ∷ cs) k = calls cs (call c k)

-- The call is a release that states a reason.
abbrev pub lifts : Call → Bool
lifts (Call.engages reason actor now) = false
lifts (Call.releases reason actor now) = not (is_blank (strip reason))

abbrev pub any_lifts : List Call → Bool
any_lifts [] = false
any_lifts (c ∷ cs) = lifts c || any_lifts cs

call-engaged :
    (c : Call) (k : ExecutionKillSwitch)
    → lifts c ≡ false
    → k.engaged ≡ true
    → (call c k).engaged ≡ true
unfolding call engage release
call-engaged (Call.engages reason actor now) k h e = refl
call-engaged (Call.releases reason actor now) k h e = ground arith

-- An engaged switch stays engaged through any sequence of calls in which no release states a
-- reason.
pub calls-engaged :
    (cs : List Call) (k : ExecutionKillSwitch)
    → any_lifts cs ≡ false
    → k.engaged ≡ true
    → (calls cs k).engaged ≡ true
unfolding calls
calls-engaged [] k h e = e
calls-engaged (c ∷ cs) k h e =
    let first : lifts c ≡ false = ground arith in
    calls-engaged cs (call c k) (ground arith) (call-engaged c k first e)

-- The flag that the last event of a list records.
abbrev pub last_flag : Bool → List KillSwitchEvent → Bool
last_flag b [] = b
last_flag b (e ∷ es) = last_flag e.engaged es

last_flag-append :
    (b : Bool) (xs ys : List KillSwitchEvent)
    → last_flag b (xs ++ ys) ≡ last_flag (last_flag b xs) ys
last_flag-append b [] ys = refl
last_flag-append b (x ∷ xs) ys = last_flag-append x.engaged xs ys

-- What a run of calls has done to the record: it has only added events, and the last of them all
-- states the switch's flag.
pub record Recorded (before after : ExecutionKillSwitch) : Type 0 where
  pub added : List KillSwitchEvent
  pub appended : after.events ≡ before.events ++ added
  pub latest : last_flag before.engaged added ≡ after.engaged

call-Recorded : (c : Call) (k : ExecutionKillSwitch) → Recorded k (call c k)
unfolding call engage release
call-Recorded (Call.engages reason actor now) k = record {
  added = _;
  appended = refl;
  latest = refl;
}
call-Recorded (Call.releases reason actor now) k = elim (Bool-cases (is_blank (strip reason))) [
  | inl blank ↦
      rw (blank, call) (record { added = []; appended = sym (append-nil k.events); latest = refl })
  | inr stated ↦ rw (stated, call) (record { added = _; appended = refl; latest = refl })
]

-- The history of the kill switch only grows, and its last entry states whether the switch is
-- engaged.
pub calls-Recorded : (cs : List Call) (k : ExecutionKillSwitch) → Recorded k (calls cs k)
unfolding calls
calls-Recorded [] k = record { added = []; appended = sym (append-nil k.events); latest = refl }
calls-Recorded (c ∷ cs) k =
    let first = call-Recorded c k in
    let rest = calls-Recorded cs (call c k) in
    record {
      added = first.added ++ rest.added;
      appended =
          rest.appended
          ∙ (ap (λ es. es ++ rest.added) first.appended
              ∙ append_assoc k.events first.added rest.added);
      latest = rw (last_flag-append k.engaged first.added rest.added, first.latest) rest.latest;
    }

-- Asked about an action that adds exposure, the two ways to ask the kill switch agree.
pub permits-blocking_reasons :
    (n i : Bool) (k : ExecutionKillSwitch)
    → (n || i) ≡ true
    → permits n i k ≡ is_empty (blocking_reasons n i k)
unfolding permits blocking_reasons
permits-blocking_reasons n i k h = ground arith
