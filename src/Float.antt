-- ===== src/Float.antt =====
-- Python's `float`, as the operations and comparisons that the code makes, over an abstract type:
-- the definitions of the other modules hold for any arithmetic, rounding and NaN included.
-- `a > b` is `lt b a` and `a >= b` is `le b a`, as they are for floats.
pub mod Nano
use alm_trading.Base.{ℕ, ◌≡◌, arith, inl, inr, Bool, true, false, not, if◌then◌else◌, Bool-cases}

pub record Float {ℓ} (F : Type ℓ) : Type ℓ where
  -- `lit m k` is the literal m * 10 ** -k
  pub lit : ℕ → ℕ → F
  pub lt : F → F → Bool
  pub le : F → F → Bool
  pub eq : F → F → Bool
  pub add : F → F → F
  pub sub : F → F → F
  pub mul : F → F → F
  pub div : F → F → F
  pub neg : F → F
  pub abs : F → F
  pub is_finite : F → Bool
  -- `floor(x)`, as a float again
  pub floor : F → F
  -- `round(x, digits)`
  pub round : ℕ → F → F

module _ {ℓ} {F : Type ℓ} ⦃f : Float F⦄ where
  open f use {lit, lt, le, eq}

  abbrev pub nought : F
  nought = lit 0 0

  -- `max(a, b)` and `min(a, b)`: the first unless the second is beyond it
  abbrev pub fmax : F → F → F
  fmax a b = if lt a b then b else a

  abbrev pub fmin : F → F → F
  fmin a b = if lt b a then b else a

  -- `if x:`
  abbrev pub truthy : F → Bool
  truthy x = not (eq x nought)

  -- NaN is the value that is not equal to itself.
  abbrev pub IsNumber : F → Type 0
  IsNumber x = eq x x ≡ true

  abbrev pub IsNan : F → Type 0
  IsNan x = eq x x ≡ false

  infix 4 ◌≼◌
  abbrev pub ◌≼◌ : F → F → Type 0
  x ≼ y = le x y ≡ true

-- What IEEE 754 says of the comparisons: a total order away from NaN, and false with a NaN; and that
-- a difference from a NaN is one.
pub record IsOrdered {ℓ} (F : Type ℓ) ⦃f : Float F⦄ : Type ℓ where
  pub lit_number : (m k : ℕ) → IsNumber (f.lit m k)
  pub lt_number : (x y : F) → f.lt x y ≡ true → IsNumber x × IsNumber y
  pub le_number : (x y : F) → x ≼ y → IsNumber x × IsNumber y
  pub le_refl : (x : F) → IsNumber x → x ≼ x
  pub le_trans : (x y z : F) → x ≼ y → y ≼ z → x ≼ z
  pub le_of_lt : (x y : F) → f.lt x y ≡ true → x ≼ y
  pub le_of_not_lt : (x y : F) → IsNumber x → IsNumber y → f.lt x y ≡ false → y ≼ x
  pub not_lt_of_le : (x y : F) → x ≼ y → f.lt y x ≡ false
  pub sub_nan : (x y : F) → IsNan x → IsNan (f.sub x y)

module _ {ℓ} {F : Type ℓ} ⦃f : Float F⦄ (laws : IsOrdered F) where
  pub lt-nan : (x y : F) → IsNan x → (f.lt x y ≡ false) × (f.lt y x ≡ false)
  lt-nan x y h = ground (arith, laws.lt_number x y, laws.lt_number y x)

  -- `max` of two numbers is at least each, and `min` at most each.
  pub fmax-le : (a b : F) → IsNumber a → IsNumber b → (a ≼ fmax a b) × (b ≼ fmax a b)
  fmax-le a b p q = elim (Bool-cases (f.lt a b)) [
    | inl up ↦ rw up (laws.le_of_lt a b up, laws.le_refl b q)
    | inr down ↦ rw down (laws.le_refl a p, laws.le_of_not_lt a b p q down)
  ]

  pub fmin-le : (a b : F) → IsNumber a → IsNumber b → (fmin a b ≼ a) × (fmin a b ≼ b)
  fmin-le a b p q = elim (Bool-cases (f.lt b a)) [
    | inl down ↦ rw down (laws.le_of_lt b a down, laws.le_refl b q)
    | inr up ↦ rw up (laws.le_refl a p, laws.le_of_not_lt b a q p up)
  ]
