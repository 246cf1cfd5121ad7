-- ===== src/Base/Unique.antt =====
-- Equality as an interface, membership, and the idioms that keep the first occurrences in order:
-- `dict.fromkeys(xs)` and `if x not in xs: xs.append(x)`.
use Prim.Native.String.{String}
use mathlib.Core.Path.{◌≡◌, refl}
use mathlib.Core.Logic.{◌↔◌, ◌≢◌}
use mathlib.Core.Bool.{Bool, true, false, ◌||◌}
use mathlib.Core.List.{List, [], ◌∷◌, ◌++◌}
use native.Mathlib.Omega.{arith}
use text.Mathlib.Text.{◌==◌ as str_eq}
use text.Mathlib.TextEquality.{eq_iff}
use alm_trading.Base.Tests.{if◌then◌else◌}
use alm_trading.Base.Lists.{append-ne-nil}

pub record Eq {ℓ} (A : Type ℓ) : Type ℓ where
  pub beq : A → A → Bool
  pub beq_iff : (a b : A) → (beq a b ≡ true) ↔ (a ≡ b)

infix 50 ◌=?◌
abbrev pub ◌=?◌ {ℓ} : {A : Type ℓ} ⦃e : Eq A⦄ → A → A → Bool
◌=?◌ ⦃e⦄ = e.beq

instance abbrev pub string_eq : Eq String
string_eq = record { beq = str_eq; beq_iff = eq_iff }

pub str_eq_iff : (s t : String) → ((s =? t) ≡ true) ↔ (s ≡ t)
str_eq_iff s t = eq_iff s t

pub str_refl : (s : String) → (s =? s) ≡ true
str_refl s = (eq_iff s s).1 refl

-- Equality of an enumeration, from a decision procedure.
decided {ℓ} : {A : Type ℓ} {a b : A} → Dec (a ≡ b) → Bool
decided (yes p) = true
decided (no n) = false

decided_iff {ℓ} : {A : Type ℓ} {a b : A} (d : Dec (a ≡ b)) → (decided d ≡ true) ↔ (a ≡ b)
unfolding decided
decided_iff (yes p) = (λ _. p, λ _. refl)
decided_iff (no n) = (λ h. cc, λ p. absurd (n p))

unfoldable pub enum_eq {ℓ} : {A : Type ℓ} → Discrete A → Eq A
unfolding decided decided_iff
enum_eq d = record { beq = λ a b. decided (d a b); beq_iff = λ a b. decided_iff (d a b) }

module _ {ℓ} {A : Type ℓ} ⦃e : Eq A⦄ where
  -- `a in xs`
  abbrev pub mem : A → List A → Bool
  mem a [] = false
  mem a (x ∷ xs) = a =? x || mem a xs

  unfoldable pub add_new : List A → A → List A
  add_new xs a = if mem a xs then xs else xs ++ (a ∷ [])

  unfoldable pub add_all : List A → List A → List A
  add_all acc [] = acc
  add_all acc (x ∷ xs) = add_all (add_new acc x) xs

  -- `tuple(dict.fromkeys(xs))`
  unfoldable pub dedup : List A → List A
  unfolding add_all add_new
  dedup xs = add_all [] xs

  mem-append : (a : A) (xs ys : List A) → mem a (xs ++ ys) ≡ (mem a xs || mem a ys)
  mem-append a [] ys = refl
  mem-append a (x ∷ xs) ys = ground (arith, mem-append a xs ys)

  pub mem-append_right : (a : A) (xs ys : List A) → mem a ys ≡ true → mem a (xs ++ ys) ≡ true
  mem-append_right a xs ys h = ground (arith, mem-append a xs ys)

  pub mem-append_left : (a : A) (xs ys : List A) → mem a xs ≡ true → mem a (xs ++ ys) ≡ true
  mem-append_left a xs ys h = ground (arith, mem-append a xs ys)

  mem_self : (a : A) (xs : List A) → mem a (a ∷ xs) ≡ true
  mem_self a xs = rw ((e.beq_iff a a).1 refl)

  mem_eq : (a b : A) (xs : List A) → (a =? b) ≡ true → mem b xs ≡ true → mem a xs ≡ true
  mem_eq a b xs p h = rw ((e.beq_iff a b).0 p) h

  mem-add_new : (a x : A) (acc : List A) → mem a (add_new acc x) ≡ (mem a acc || a =? x)
  unfolding add_new
  mem-add_new a x acc = ground (arith, mem-append a acc (x ∷ []), mem_eq a x acc)

  add_new-ne-nil : (acc : List A) (x : A) → add_new acc x ≢ []
  unfolding add_new
  add_new-ne-nil [] x = ground arith
  add_new-ne-nil (y ∷ acc) x = ground (arith, append-ne-nil (y ∷ acc) x [])

  pub mem-add_all : (a : A) (acc xs : List A) → mem a (add_all acc xs) ≡ (mem a acc || mem a xs)
  unfolding add_all
  mem-add_all a acc [] = ground arith
  mem-add_all a acc (x ∷ xs) = ground (arith, mem-add_all a (add_new acc x) xs, mem-add_new a x acc)

  -- Adding to a list gives nothing only where there was nothing on either side.
  pub add_all-nil : (acc xs : List A) → add_all acc xs ≡ [] → (acc ≡ []) × (xs ≡ [])
  unfolding add_all
  add_all-nil acc [] h = (h, refl)
  add_all-nil acc (x ∷ xs) h = absurd (add_new-ne-nil acc x (add_all-nil (add_new acc x) xs h).0)

  pub dedup-nil : (xs : List A) → dedup xs ≡ [] → xs ≡ []
  unfolding dedup
  dedup-nil xs h = (add_all-nil [] xs h).1

  pub mem-dedup : (a : A) (xs : List A) → mem a (dedup xs) ≡ mem a xs
  unfolding dedup
  mem-dedup a xs = mem-add_all a [] xs

  pub mem-ne-nil : (a : A) (xs : List A) → mem a xs ≡ true → xs ≢ []
  mem-ne-nil a [] h e = cc
  mem-ne-nil a (x ∷ xs) h e = cc
