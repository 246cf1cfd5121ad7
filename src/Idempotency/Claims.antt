-- ===== src/Idempotency/Claims.antt =====
-- One id is claimed once: what `register` leaves behind, and runs of it.
use alm_trading.Base.{
  ℕ, ◌+◌, ◌≤◌, String, ◌≡◌, ◌≢◌, refl, true, false, ◌&&◌, str_eq_iff, none, some, List, [], ◌∷◌,
  arith, ◌=?◌, string_eq, if◌then◌else◌, str_refl, Bool-cases, inl, inr, Option, subst, sym,
}
use alm_trading.Idempotency.{
  IdempotencyRegistry, Lookup, allowed, duplicate_code, unavailable_code, first_seen, stored, check,
  verdict_of, put, register,
}

first_seen-put_old :
    (key other : String) (t u : ℕ) (l : List (String × ℕ))
    → first_seen other l ≡ some u
    → first_seen other (put key t l) ≡ some u
unfolding first_seen put
first_seen-put_old key other t u [] h = cc
first_seen-put_old key other t u ((k, v) ∷ rest) h =
    ground (arith, first_seen-put_old key other t u rest)

first_seen-put_new :
    (key : String) (t : ℕ) (l : List (String × ℕ))
    → first_seen key l ≡ none
    → first_seen key (put key t l) ≡ some t
unfolding first_seen put
first_seen-put_new key t [] h = rw (str_refl key)
first_seen-put_new key t ((k, v) ∷ rest) h = ground (arith, first_seen-put_new key t rest)

-- After a registration that is allowed, the identifier is a duplicate, first seen at that moment.
pub register-check :
    (r : IdempotencyRegistry) (key : String) (t : ℕ)
    → let (r', v) = register r key t in
      allowed v ≡ true
      → ((check r' key).duplicate ≡ true)
        × ((check r' key).first_seen ≡ some t)
        × ((check r' key).reasons ≡ duplicate_code ∷ [])
unfolding register
register-check r key t h = ground (arith, first_seen-put_new key t r.seen)

-- An identifier whose store cannot be asked is refused and is not claimed.
pub register-unavailable :
    (r : IdempotencyRegistry) (key : String) (t : ℕ)
    → first_seen key r.seen ≡ none
    → stored r.repository key ≡ Lookup.unavailable
    → let (r', v) = register r key t in
      (r' ≡ r) × (allowed v ≡ false) × (v.reasons ≡ unavailable_code ∷ [])
unfolding register
register-unavailable r key t h k = ground arith

-- An id that has been seen stays a duplicate whatever is registered.
register_keeps :
    (r : IdempotencyRegistry) (key other : String) (t u : ℕ)
    → first_seen other r.seen ≡ some u
    → first_seen other (register r key t).0.seen ≡ some u
unfolding register
register_keeps r key other t u h = ground (arith, first_seen-put_old key other t u r.seen)

check_seen :
    (r : IdempotencyRegistry) (key : String) (u : ℕ)
    → first_seen key r.seen ≡ some u
    → allowed (check r key) ≡ false
unfolding check
check_seen r key u h = ground arith

register_claims :
    (r : IdempotencyRegistry) (key : String) (t : ℕ)
    → allowed (check r key) ≡ true
    → first_seen key (register r key t).0.seen ≡ some t
unfolding register
register_claims r key t h = ground (arith, first_seen-put_new key t r.seen)

-- How many claims of one id a run of registrations lets through.
pub claims : String → IdempotencyRegistry → List (String × ℕ) → ℕ
claims key r [] = 0
claims key r ((k, t) ∷ rest) =
    (if k =? key && allowed (check r k) then 1 else 0) + claims key (register r k t).0 rest

claims_seen :
    (key : String) (u : ℕ) (r : IdempotencyRegistry) (l : List (String × ℕ))
    → first_seen key r.seen ≡ some u
    → claims key r l ≡ 0
unfolding claims
claims_seen key u r [] h = refl
claims_seen key u r ((k, t) ∷ rest) h = ground (
  arith,
  str_eq_iff k key,
  check_seen r key u h,
  claims_seen key u (register r k t).0 rest (register_keeps r k key t u h),
)

-- Of any sequence of registrations, at most one is allowed for an identifier.
pub claims-le-one :
    (key : String) (r : IdempotencyRegistry) (l : List (String × ℕ)) → claims key r l ≤ 1
unfolding claims
claims-le-one key r [] = omega arith
claims-le-one key r ((k, t) ∷ rest) = ground (
  arith,
  str_eq_iff k key,
  register_claims r k t,
  claims_seen key t (register r k t).0 rest,
  claims-le-one key (register r k t).0 rest,
)

register_kept :
    (r : IdempotencyRegistry) (key : String) (t : ℕ)
    → allowed (check r key) ≡ false
    → (register r key t).0 ≡ r
unfolding register
register_kept r key t h = ground arith

register_repository :
    (r : IdempotencyRegistry) (key : String) (t : ℕ)
    → (register r key t).0.repository ≡ r.repository
unfolding register
register_repository r key t = ground arith

verdict_refused :
    (key : String) (o : Option ℕ) (l : Lookup)
    → allowed (verdict_of key none l) ≡ false
    → allowed (verdict_of key o l) ≡ false
unfolding verdict_of
verdict_refused key (some u) l h = refl
verdict_refused key none l h = h

-- a registration refuses its own identifier from then on, and keeps the others refused
pub register_taken :
    (r : IdempotencyRegistry) (key : String) (t : ℕ)
    → allowed (check (register r key t).0 key) ≡ false
register_taken r key t = elim (Bool-cases (allowed (check r key))) [
  | inl free ↦ check_seen (register r key t).0 key t (register_claims r key t free)
  | inr taken ↦ subst (λ x. allowed (check x key) ≡ false) (sym (register_kept r key t taken)) taken
]

register_stays_seen :
    (r : IdempotencyRegistry) (key other : String) (t : ℕ) (o : Option ℕ)
    → first_seen other r.seen ≡ o
    → allowed (check r other) ≡ false
    → allowed (check (register r key t).0 other) ≡ false
unfolding check
register_stays_seen r key other t (some u) e h =
    check_seen (register r key t).0 other u (register_keeps r key other t u e)
register_stays_seen r key other t none e h =
    verdict_refused other (first_seen other (register r key t).0.seen)
      (stored (register r key t).0.repository other)
      (subst (λ x. allowed (verdict_of other none (stored x other)) ≡ false)
        (sym (register_repository r key t))
        (subst (λ x. allowed (verdict_of other x (stored r.repository other)) ≡ false) e h))

pub register_stays :
    (r : IdempotencyRegistry) (key other : String) (t : ℕ)
    → allowed (check r other) ≡ false
    → allowed (check (register r key t).0 other) ≡ false
register_stays r key other t h = register_stays_seen r key other t (first_seen other r.seen) refl h

-- A store that had a row, or could not be asked, does not come to answer that it has none.
abbrev pub Remembers : Option (String → Lookup) → Option (String → Lookup) → Type 0
Remembers before after =
    (key : String) → stored before key ≢ Lookup.absent → stored after key ≢ Lookup.absent

verdict_stays :
    (key : String) (o : Option ℕ) (l l' : Lookup)
    → (l ≢ Lookup.absent → l' ≢ Lookup.absent)
    → allowed (verdict_of key o l) ≡ false
    → allowed (verdict_of key o l') ≡ false
unfolding verdict_of
verdict_stays key (some u) l l' r h = refl
verdict_stays key none l (Lookup.present t) r h = refl
verdict_stays key none l Lookup.unavailable r h = refl
verdict_stays key none l Lookup.absent r h = absurd (r (λ e. ground arith) refl)

-- a refused identifier stays refused under a store that remembers
pub check-Remembers :
    (r : IdempotencyRegistry) (ask : Option (String → Lookup)) (key : String)
    → Remembers r.repository ask
    → allowed (check r key) ≡ false
    → allowed (check (record r { repository = ask }) key) ≡ false
unfolding check
check-Remembers r ask key m h =
    verdict_stays key (first_seen key r.seen) (stored r.repository key) (stored ask key) (m key) h
