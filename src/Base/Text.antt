-- ===== src/Base/Text.antt =====
-- The methods of Python's `str` that the code calls, on ASCII texts.
use Prim.Native.Nat.{ℕ, ◌+◌, ◌-◌, ◌<◌}
use Prim.Native.Char.{Char, char, code, IsScalar}
use Prim.Native.String
use Prim.Native.String.{String}
use mathlib.Core.Bool.{Bool, true, false, ◌&&◌, ◌||◌}
use mathlib.Core.Path.{◌≡◌, refl}
use mathlib.Core.Logic.{dite}
use mathlib.Core.List.{List, [], ◌∷◌}
use mathlib.Core.Option.{Option, none, some}
use native.Mathlib.Omega.{arith}
use native.Mathlib.Decide.{dec_lt}
use text.Mathlib.Text.{starts_with}
use alm_trading.Base.Tests.{leb, ◌==◌, if◌then◌else◌}

IsScalar_of_small : (n : ℕ) → n < 55296 → IsScalar n
IsScalar_of_small n h = ground arith

-- the character with a number below 55296, or the one given
of_code : ℕ → Char → Char
unfolding IsScalar_of_small dec_lt
of_code n c = dite (dec_lt n 55296) (λ h. char n (IsScalar_of_small n h)) (λ _. c)

upper_char : Char → Char
unfolding of_code
upper_char c = if leb b'a' (code c) && leb (code c) b'z' then of_code (code c - 32) c else c

lower_char : Char → Char
unfolding of_code
lower_char c = if leb b'A' (code c) && leb (code c) b'Z' then of_code (code c + 32) c else c

unfoldable pub upper : String → String
unfolding upper_char
upper String.[] = String.[]
upper (String.◌∷◌ c s) = String.◌∷◌ (upper_char c) (upper s)

unfoldable pub lower : String → String
unfolding lower_char
lower String.[] = String.[]
lower (String.◌∷◌ c s) = String.◌∷◌ (lower_char c) (lower s)

is_space : Char → Bool
is_space c =
    code c == 32 || (leb 9 (code c) && leb (code c) 13) || (leb 28 (code c) && leb (code c) 31)

abbrev pub is_blank : String → Bool
is_blank String.[] = true
is_blank (String.◌∷◌ c s) = false

lstrip : String → String
unfolding is_space
lstrip String.[] = String.[]
lstrip (String.◌∷◌ c s) = if is_space c then lstrip s else String.◌∷◌ c s

rstrip : String → String
unfolding is_space
rstrip String.[] = String.[]
rstrip (String.◌∷◌ c s) =
    let rest = rstrip s in if is_space c && is_blank rest then String.[] else String.◌∷◌ c rest

unfoldable pub strip : String → String
unfolding lstrip rstrip
strip s = rstrip (lstrip s)

-- `pattern in s`
unfoldable pub has_substring : String → String → Bool
has_substring pattern String.[] = starts_with String.[] pattern
has_substring pattern (String.◌∷◌ c s) =
    starts_with (String.◌∷◌ c s) pattern || has_substring pattern s

-- `text or default`, for a text that may be missing
abbrev pub or_text : Option String → String → String
or_text none d = d
or_text (some String.[]) d = d
or_text (some (String.◌∷◌ c s)) d = String.◌∷◌ c s

-- `separator.join(parts)`
unfoldable pub join : String → List String → String
join separator [] = String.[]
join separator (p ∷ []) = p
join separator (p ∷ (q ∷ ps)) = String.◌++◌ p (String.◌++◌ separator (join separator (q ∷ ps)))

upper_test : upper " eurUsd.1 " ≡ " EURUSD.1 "
unfolding upper
upper_test = refl

strip_test : strip "  eur usd \n" ≡ "eur usd"
unfolding strip
strip_test = refl

sub_test : has_substring "demo" (lower "XM-Demo-7") ≡ true
unfolding has_substring lower
sub_test = refl
