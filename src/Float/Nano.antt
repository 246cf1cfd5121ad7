-- ===== src/Float/Nano.antt =====
-- An arithmetic that the tests and the examples run on, and that meets the laws of the order: whole
-- multiples of 10 ** -9, with one NaN, rounded towards zero.
use alm_trading.Base.{
  ℕ, ◌+◌, ◌-◌, ◌*◌, ◌/◌, ◌^◌, Bool, true, false, ◌≡◌, refl, arith, ◌==◌, if◌then◌else◌,
}
use alm_trading.Base.Int.{
  ℤ, pos, negsuc, pos_part, neg_part, sub_ℕ, ◌+ℤ◌, ◌-ℤ◌, ltb_ℤ, leb_ℤ, eqb_ℤ,
}
use alm_trading.Float.{Float, IsOrdered}

pub data Nano : Type 0 where
  nan : Nano
  num : ℤ → Nano

abbrev nano : ℕ
nano = 10 ^ 9

abbrev both : (ℤ → ℤ → ℤ) → Nano → Nano → Nano
both g (num a) (num b) = num (g a b)
both g _ _ = nan

abbrev test : (ℤ → ℤ → Bool) → Nano → Nano → Bool
test g (num a) (num b) = g a b
test g _ _ = false

-- the sign of the product of two numbers, on a magnitude
abbrev signed : ℤ → ℤ → ℕ → ℤ
signed (pos _) (pos _) n = pos n
signed (negsuc _) (negsuc _) n = pos n
signed _ _ n = sub_ℕ 0 n

abbrev magnitude : ℤ → ℕ
magnitude a = pos_part a + neg_part a

abbrev mul_ℤ : ℤ → ℤ → ℤ
mul_ℤ a b = signed a b (magnitude a * magnitude b / nano)

abbrev div_ℤ : ℤ → ℤ → ℤ
div_ℤ a b = signed a b (magnitude a * nano / magnitude b)

-- Python raises on a division by zero; the examples make none, and the model has NaN there.
abbrev div_nano : Nano → Nano → Nano
div_nano (num a) (num b) = if magnitude b == 0 then nan else num (div_ℤ a b)
div_nano _ _ = nan

abbrev on : (ℤ → ℤ) → Nano → Nano
on g nan = nan
on g (num a) = num (g a)

abbrev floor_ℤ : ℤ → ℤ
floor_ℤ (pos n) = pos (n / nano * nano)
floor_ℤ (negsuc n) = sub_ℕ 0 ((n / nano + 1) * nano)

-- halves go up
abbrev round_ℤ : ℕ → ℤ → ℤ
round_ℤ digits a =
    let unit = 10 ^ (9 - digits) in signed a (pos 1) ((magnitude a + unit / 2) / unit * unit)

instance abbrev pub nano_float : Float Nano
nano_float = record {
  lit = λ m k. num (pos (m * nano / 10 ^ k));
  lt = test ltb_ℤ;
  le = test leb_ℤ;
  eq = test eqb_ℤ;
  add = both (λ a b. a +ℤ b);
  sub = both (λ a b. a -ℤ b);
  mul = both mul_ℤ;
  div = div_nano;
  neg = on (λ a. pos 0 -ℤ a);
  abs = on (λ a. pos (magnitude a));
  is_finite = λ x. elim x [ nan ↦ false | num _ ↦ true ];
  floor = on floor_ℤ;
  round = λ k. on (round_ℤ k);
}

pub Nano-IsOrdered : IsOrdered Nano
Nano-IsOrdered = record {
  lit_number = λ m k. ground arith;
  lt_number = λ x y. ground arith;
  le_number = λ x y. ground arith;
  le_refl = λ x. ground arith;
  le_trans = λ x y z. ground arith;
  le_of_lt = λ x y. ground arith;
  le_of_not_lt = λ x y. ground arith;
  not_lt_of_le = λ x y. ground arith;
  sub_nan = λ x y. ground arith;
}

-- -0.5 * 2.5, and 1 / 3 rounded to four places
mul_test :
    nano_float.mul (nano_float.neg (nano_float.lit 5 1)) (nano_float.lit 25 1)
    ≡ nano_float.neg (nano_float.lit 125 2)
mul_test = refl

div_test :
    nano_float.round 4 (nano_float.div (nano_float.lit 1 0) (nano_float.lit 3 0))
    ≡ nano_float.lit 3333 4
div_test = refl
