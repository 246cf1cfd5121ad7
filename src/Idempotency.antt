-- ===== src/Idempotency.antt =====
-- Duplicate detection (execution/demo/idempotency.py). The store that outlives the process is a
-- parameter: what `execution_exists` answers, or that it cannot be asked.
pub mod Claims
use alm_trading.Base.{
  ℕ, String, Bool, true, false, not, ◌&&◌, Option, none, some, List, [], ◌∷◌, if◌then◌else◌,
  is_empty, ◌=?◌, string_eq,
}

pub record IdempotencyVerdict : Type 0 where
  pub request_id : String
  pub duplicate : Bool
  pub reasons : List String
  pub first_seen : Option ℕ

-- the property `allowed`
abbrev pub allowed : IdempotencyVerdict → Bool
allowed v = not v.duplicate && is_empty v.reasons

abbrev pub duplicate_code : String
duplicate_code = "DUPLICATE_EXECUTION_REQUEST"

abbrev pub unavailable_code : String
unavailable_code = "IDEMPOTENCY_STORE_UNAVAILABLE"

-- What a lookup in the store comes to: no row, a row with or without a time, or a failure (no such
-- method, or an exception).
pub data Lookup : Type 0 where
  absent : Lookup
  present : Option ℕ → Lookup
  unavailable : Lookup

-- `_seen`, in the order of the claims; `repository` is `none` where there is no store
pub record IdempotencyRegistry : Type 0 where
  pub repository : Option (String → Lookup)
  pub seen : List (String × ℕ)

unfoldable pub first_seen : String → List (String × ℕ) → Option ℕ
first_seen key [] = none
first_seen key ((k, t) ∷ rest) = if k =? key then some t else first_seen key rest

-- `_stored`
abbrev pub stored : Option (String → Lookup) → String → Lookup
stored none key = Lookup.absent
stored (some ask) key = ask key

unfoldable pub verdict_of : String → Option ℕ → Lookup → IdempotencyVerdict
verdict_of key (some t) l = record {
  request_id = key;
  duplicate = true;
  reasons = duplicate_code ∷ [];
  first_seen = some t;
}
verdict_of key none Lookup.unavailable = record {
  request_id = key;
  duplicate = false;
  reasons = unavailable_code ∷ [];
  first_seen = none;
}
verdict_of key none (Lookup.present t) = record {
  request_id = key;
  duplicate = true;
  reasons = duplicate_code ∷ [];
  first_seen = t;
}
verdict_of key none Lookup.absent = record {
  request_id = key;
  duplicate = false;
  reasons = [];
  first_seen = none;
}

unfoldable pub check : IdempotencyRegistry → String → IdempotencyVerdict
unfolding verdict_of
check r key = verdict_of key (first_seen key r.seen) (stored r.repository key)

-- A new key goes to the end, as in a dict; `register` writes only new keys.
unfoldable pub put : String → ℕ → List (String × ℕ) → List (String × ℕ)
put key t [] = (key, t) ∷ []
put key t (e ∷ rest) = e ∷ put key t rest

unfoldable pub register :
    IdempotencyRegistry → String → ℕ → IdempotencyRegistry × IdempotencyVerdict
unfolding check put
register r key moment =
    let verdict = check r key in
    if allowed verdict then (record r { seen = put key moment r.seen }, verdict) else (r, verdict)

remove : String → List (String × ℕ) → List (String × ℕ)
remove key [] = []
remove key ((k, t) ∷ rest) =
    let others = remove key rest in if k =? key then others else (k, t) ∷ others

unfoldable pub forget : IdempotencyRegistry → String → IdempotencyRegistry
unfolding remove
forget r key = record r { seen = remove key r.seen }
