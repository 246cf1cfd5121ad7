-- ===== src/Evidence/Select.antt =====
-- The names of the rows that a test finds, and tests of a value that may be missing
-- (validation/gates.py).
use alm_trading.Base.{
  String, ◌≡◌, ◌↔◌, Bool, true, false, ◌&&◌, List, [], ◌∷◌, ◌++◌, is_empty, All, arith,
  if◌then◌else◌,
}

module _ {ℓ} {A : Type ℓ} where
  -- `tuple(name for row in rows if test)`
  unfoldable pub select : (A → String) → (A → Bool) → List A → List String
  select name test [] = []
  select name test (row ∷ rows) =
      let rest = select name test rows in if test row then name row ∷ rest else rest

  -- Two selections are empty exactly if every row fails both tests.
  pub select-nil :
      (name : A → String) (p q : A → Bool) (rows : List A)
      → ((is_empty (select name p rows) && is_empty (select name q rows)) ≡ true)
        ↔ All (λ row. (p row ≡ false) × (q row ≡ false)) rows
  unfolding select
  select-nil name p q [] = (λ h. tt, λ h. ground arith)
  select-nil name p q (row ∷ rows) =
      let rest = select-nil name p q rows in
      (
        λ h. ((ground arith, ground arith), rest.0 (ground arith)),
        λ h. let e = rest.1 h.1 in let a = h.0.0 in let b = h.0.1 in ground arith,
      )

pub is_empty-append {ℓ} :
    {A : Type ℓ} (xs ys : List A) → is_empty (xs ++ ys) ≡ (is_empty xs && is_empty ys)
is_empty-append [] ys = ground arith
is_empty-append (x ∷ xs) ys = ground arith
