-- ===== src/Observation/Checkpoint.antt =====
-- The analysis of an exit at even-hour checkpoints (observation/time_exit.py). Moments are whole
-- seconds of the clock that the hours are read from; the conditions, which are only displayed, are
-- left out.
use alm_trading.Base.{
  ap, ℕ, zero, suc, ◌+◌, ◌*◌, ◌/◌, ◌%◌, ◌≤◌, ◌<◌, ◌≡◌, ◌⊎◌, inl, inr, refl, true, false, Option,
  none, some, arith, ltb, ◌==◌, if◌then◌else◌, string_eq, Bool-cases, sym, subst,
}
use native.Mathlib.Nat.{zero-mod}

pub data ExitDecision : Type 0 where
  hold exit wait : ExitDecision

pub data TrendAlignment : Type 0 where
  with_trend counter_trend neutral : TrendAlignment

pub record TimeExitAnalyzer {ℓ} (F : Type ℓ) : Type ℓ where
  pub checkpoint_hours : ℕ
  -- in seconds
  pub max_holding : ℕ
  pub counter_trend_min_confidence : F
  pub base_min_confidence : F

-- `max(1, self.checkpoint_hours)`
abbrev pub step_of : ℕ → ℕ
step_of hours = if hours == 0 then 1 else hours

-- the hour of the day
abbrev pub hour_of : ℕ → ℕ
hour_of hours = hours % 24

-- the `while` of `next_checkpoint`, on the whole hours that have passed, and on fuel
unfoldable pub search : ℕ → ℕ → ℕ → Option ℕ
search step zero hours = if hour_of hours % step == 0 then some hours else none
search step (suc fuel) hours =
    let later = search step fuel (hours + 1) in
    if hour_of hours % step == 0 then some hours else later

abbrev in_seconds : Option ℕ → Option ℕ
in_seconds none = none
in_seconds (some hours) = some (hours * 3600)

-- `next_checkpoint`: the search starts at the next whole hour; some hour of a day is always found
unfoldable pub next_checkpoint : ℕ → ℕ → Option ℕ
next_checkpoint hours moment = in_seconds (search (step_of hours) 23 (moment / 3600 + 1))

-- `h` is the first checkpoint from an hour on, at most `fuel` hours later
pub record IsFirst (step fuel hours h : ℕ) : Type 0 where
  pub reached : (hour_of h % step == 0) ≡ true
  pub after : hours ≤ h
  pub within : h ≤ hours + fuel
  pub first : (k : ℕ) → hours ≤ k → k < h → (hour_of k % step == 0) ≡ false

midnight : (step hours : ℕ) → hours % 24 ≡ 0 → (hour_of hours % step == 0) ≡ true
midnight step hours h = rw (h, zero-mod step) refl

search-here :
    (step fuel hours : ℕ)
    → (hour_of hours % step == 0) ≡ true
    → (search step fuel hours ≡ some hours) × IsFirst step fuel hours hours
unfolding search
search-here step zero hours h = (
  ground arith,
  record {
    reached = h;
    after = omega arith;
    within = omega arith;
    first = λ k a b. absurd (omega arith);
  },
)
search-here step (suc fuel) hours h = (
  ground arith,
  record {
    reached = h;
    after = omega arith;
    within = omega arith;
    first = λ k a b. absurd (omega arith);
  },
)

next_hour :
    (hours fuel : ℕ)
    → 24 ≤ suc fuel + hours % 24
    → ((hours + 1) % 24 ≡ 0) ⊎ (24 ≤ fuel + (hours + 1) % 24)
next_hour hours fuel h = omega arith

not_midnight :
    (step fuel hours : ℕ)
    → (hours % 24 ≡ 0) ⊎ (24 ≤ suc fuel + hours % 24)
    → (hour_of hours % step == 0) ≡ false
    → ((hours + 1) % 24 ≡ 0) ⊎ (24 ≤ fuel + (hours + 1) % 24)
not_midnight step fuel hours (inl m) h = absurd (ground (arith, midnight step hours m))
not_midnight step fuel hours (inr m) h = next_hour hours fuel m

later-IsFirst :
    (step fuel hours h : ℕ)
    → (hour_of hours % step == 0) ≡ false
    → IsFirst step fuel (hours + 1) h
    → IsFirst step (suc fuel) hours h
later-IsFirst step fuel hours h other f = record {
  reached = f.reached;
  after = omega (arith, f.after);
  within = omega (arith, f.within);
  first = λ k a b. elim (Bool-cases (ltb hours k)) [
    | inl past ↦ f.first k (ground arith) b
    | inr now ↦
        let same : k ≡ hours = ground arith in
        subst (λ x. (hour_of x % step == 0) ≡ false) (sym same) other
  ];
}

search-IsFirst :
    (step fuel hours : ℕ)
    → (hours % 24 ≡ 0) ⊎ (24 ≤ fuel + hours % 24)
    → (h : ℕ) × (search step fuel hours ≡ some h) × IsFirst step fuel hours h
unfolding search
search-IsFirst step zero hours (inl m) =
    let found = search-here step zero hours (midnight step hours m) in (hours, found.0, found.1)
search-IsFirst step zero hours (inr m) = absurd (omega arith)
search-IsFirst step (suc fuel) hours c = elim (Bool-cases (hour_of hours % step == 0)) [
  | inl here ↦ let found = search-here step (suc fuel) hours here in (hours, found.0, found.1)
  | inr other ↦
      let rest = search-IsFirst step fuel (hours + 1) (not_midnight step fuel hours c other) in
      (rest.0, rw (other, search) rest.1, later-IsFirst step fuel hours rest.0 other rest.2)
]

-- what the next checkpoint is
pub record IsCheckpoint (hours moment t : ℕ) : Type 0 where
  pub later : moment < t
  pub soon : t ≤ moment + 24 * 3600
  pub whole : t % 3600 ≡ 0
  pub divisible : (hour_of (t / 3600) % step_of hours == 0) ≡ true
  pub first : (k : ℕ) → moment < k * 3600 → k * 3600 < t → (hour_of k % step_of hours == 0) ≡ false

any_start : (n : ℕ) → (n % 24 ≡ 0) ⊎ (24 ≤ 23 + n % 24)
any_start n = omega arith

whole_hours : (n : ℕ) → n * 3600 / 3600 ≡ n
whole_hours n = omega arith

-- The search for the next checkpoint ends within its 23 steps, with the first whole hour after the
-- moment whose hour of the day the step divides, at most a day later.
pub next_checkpoint-IsCheckpoint :
    (hours moment : ℕ)
    → (t : ℕ) × (next_checkpoint hours moment ≡ some t) × IsCheckpoint hours moment t
unfolding next_checkpoint
next_checkpoint-IsCheckpoint hours moment =
    let start = moment / 3600 + 1 in
    let found = search-IsFirst (step_of hours) 23 start (any_start start) in
    let h = found.0 in
    let f = found.2 in
    (
      h * 3600,
      ap in_seconds found.1,
      (record {
        later = omega (arith, f.after);
        soon = omega (arith, f.within);
        whole = omega arith;
        divisible =
            subst (λ x. (hour_of x % step_of hours == 0) ≡ true) (sym (whole_hours h)) f.reached;
        first = λ k a b. f.first k (omega arith) (omega arith);
      }),
    )
