-- ===== src/Observation/Table.antt =====
-- The table of moves, checked over all statuses.
use alm_trading.Base.{
  ℕ, ◌<◌, ◌≡◌, refl, subst, ap, ◌∙◌, Bool, true, false, not, ◌&&◌, ◌||◌, Option, none, some, List,
  [], ◌∷◌, ◌++◌, arith, ltb, some_injective, ◌=?◌,
}
use alm_trading.Observation.{ObservationStatus, status_eq, is_failure, happy_path, next_in, allowed}

-- every status
abbrev statuses : List ObservationStatus
statuses =
    happy_path
    ++ (ObservationStatus.data_invalid ∷ ObservationStatus.model_error
        ∷ ObservationStatus.calculation_error ∷ ObservationStatus.timeout ∷ [])

abbrev all_of : (ObservationStatus → Bool) → List ObservationStatus → Bool
all_of p [] = true
all_of p (s ∷ rest) = p s && all_of p rest

-- a test that holds of every status holds of each
for_each :
    (p : ObservationStatus → Bool) → all_of p statuses ≡ true → (s : ObservationStatus) → p s ≡ true
for_each p h ObservationStatus.created = ground arith
for_each p h ObservationStatus.features_captured = ground arith
for_each p h ObservationStatus.nn_predicted = ground arith
for_each p h ObservationStatus.strategy_evaluated = ground arith
for_each p h ObservationStatus.risk_evaluated = ground arith
for_each p h ObservationStatus.observing = ground arith
for_each p h ObservationStatus.horizon_reached = ground arith
for_each p h ObservationStatus.outcome_calculated = ground arith
for_each p h ObservationStatus.labeled = ground arith
for_each p h ObservationStatus.dataset_ready = ground arith
for_each p h ObservationStatus.data_invalid = ground arith
for_each p h ObservationStatus.model_error = ground arith
for_each p h ObservationStatus.calculation_error = ground arith
for_each p h ObservationStatus.timeout = ground arith

for_each_two :
    (p : ObservationStatus → ObservationStatus → Bool)
    → all_of (λ s. all_of (p s) statuses) statuses ≡ true
    → (s t : ObservationStatus) → p s t ≡ true
for_each_two p h s t = for_each (p s) (for_each (λ s. all_of (p s) statuses) h s) t

-- how many moves a status leaves at most
abbrev pub left : ObservationStatus → ℕ
left ObservationStatus.created = 9
left ObservationStatus.features_captured = 8
left ObservationStatus.nn_predicted = 7
left ObservationStatus.strategy_evaluated = 6
left ObservationStatus.risk_evaluated = 5
left ObservationStatus.observing = 4
left ObservationStatus.horizon_reached = 3
left ObservationStatus.outcome_calculated = 2
left ObservationStatus.labeled = 1
left _ = 0

abbrev lowers : ObservationStatus → ObservationStatus → Bool
lowers s t = not (allowed s t) || ltb (left t) (left s)

lowers_all : all_of (λ s. all_of (lowers s) statuses) statuses ≡ true
unfolding allowed next_in status_eq
lowers_all = refl

pub allowed-left : (s t : ObservationStatus) → allowed s t ≡ true → left t < left s
allowed-left s t h = let checked = for_each_two lowers lowers_all s t in ground arith

-- the statuses that follow one on the path
abbrev pub path_from : ObservationStatus → List ObservationStatus
path_from ObservationStatus.created =
    ObservationStatus.features_captured ∷ ObservationStatus.nn_predicted
    ∷ ObservationStatus.strategy_evaluated ∷ ObservationStatus.risk_evaluated
    ∷ ObservationStatus.observing ∷ ObservationStatus.horizon_reached
    ∷ ObservationStatus.outcome_calculated ∷ ObservationStatus.labeled
    ∷ ObservationStatus.dataset_ready ∷ []
path_from ObservationStatus.features_captured =
    ObservationStatus.nn_predicted ∷ ObservationStatus.strategy_evaluated
    ∷ ObservationStatus.risk_evaluated ∷ ObservationStatus.observing
    ∷ ObservationStatus.horizon_reached ∷ ObservationStatus.outcome_calculated
    ∷ ObservationStatus.labeled ∷ ObservationStatus.dataset_ready ∷ []
path_from ObservationStatus.nn_predicted =
    ObservationStatus.strategy_evaluated ∷ ObservationStatus.risk_evaluated
    ∷ ObservationStatus.observing ∷ ObservationStatus.horizon_reached
    ∷ ObservationStatus.outcome_calculated ∷ ObservationStatus.labeled
    ∷ ObservationStatus.dataset_ready ∷ []
path_from ObservationStatus.strategy_evaluated =
    ObservationStatus.risk_evaluated ∷ ObservationStatus.observing
    ∷ ObservationStatus.horizon_reached ∷ ObservationStatus.outcome_calculated
    ∷ ObservationStatus.labeled ∷ ObservationStatus.dataset_ready ∷ []
path_from ObservationStatus.risk_evaluated =
    ObservationStatus.observing ∷ ObservationStatus.horizon_reached
    ∷ ObservationStatus.outcome_calculated ∷ ObservationStatus.labeled
    ∷ ObservationStatus.dataset_ready ∷ []
path_from ObservationStatus.observing =
    ObservationStatus.horizon_reached ∷ ObservationStatus.outcome_calculated
    ∷ ObservationStatus.labeled ∷ ObservationStatus.dataset_ready ∷ []
path_from ObservationStatus.horizon_reached =
    ObservationStatus.outcome_calculated ∷ ObservationStatus.labeled
    ∷ ObservationStatus.dataset_ready ∷ []
path_from ObservationStatus.outcome_calculated =
    ObservationStatus.labeled ∷ ObservationStatus.dataset_ready ∷ []
path_from ObservationStatus.labeled = ObservationStatus.dataset_ready ∷ []
path_from _ = []

abbrev failing : ObservationStatus → ObservationStatus → Bool
failing s t = not (is_failure s) || not (allowed s t)

failing_all : all_of (λ s. all_of (failing s) statuses) statuses ≡ true
unfolding allowed next_in status_eq
failing_all = refl

pub failed-stuck : (s t : ObservationStatus) → is_failure s ≡ true → allowed s t ≡ false
failed-stuck s t h = let checked = for_each_two failing failing_all s t in ground arith

next-path :
    (s t : ObservationStatus) → next_in happy_path s ≡ some t → path_from s ≡ t ∷ path_from t
unfolding next_in status_eq
next-path ObservationStatus.created t e =
    subst (λ x. path_from ObservationStatus.created ≡ x ∷ path_from x) (some_injective e) refl
next-path ObservationStatus.features_captured t e =
    subst (λ x. path_from ObservationStatus.features_captured ≡ x ∷ path_from x) (some_injective e)
      refl
next-path ObservationStatus.nn_predicted t e =
    subst (λ x. path_from ObservationStatus.nn_predicted ≡ x ∷ path_from x) (some_injective e) refl
next-path ObservationStatus.strategy_evaluated t e =
    subst (λ x. path_from ObservationStatus.strategy_evaluated ≡ x ∷ path_from x) (some_injective e)
      refl
next-path ObservationStatus.risk_evaluated t e =
    subst (λ x. path_from ObservationStatus.risk_evaluated ≡ x ∷ path_from x) (some_injective e)
      refl
next-path ObservationStatus.observing t e =
    subst (λ x. path_from ObservationStatus.observing ≡ x ∷ path_from x) (some_injective e) refl
next-path ObservationStatus.horizon_reached t e =
    subst (λ x. path_from ObservationStatus.horizon_reached ≡ x ∷ path_from x) (some_injective e)
      refl
next-path ObservationStatus.outcome_calculated t e =
    subst (λ x. path_from ObservationStatus.outcome_calculated ≡ x ∷ path_from x) (some_injective e)
      refl
next-path ObservationStatus.labeled t e =
    subst (λ x. path_from ObservationStatus.labeled ≡ x ∷ path_from x) (some_injective e) refl
next-path ObservationStatus.dataset_ready t e = absurd (ground arith)
next-path ObservationStatus.data_invalid t e = absurd (ground arith)
next-path ObservationStatus.model_error t e = absurd (ground arith)
next-path ObservationStatus.calculation_error t e = absurd (ground arith)
next-path ObservationStatus.timeout t e = absurd (ground arith)

allowed-next :
    (s t : ObservationStatus) (o : Option ObservationStatus)
    → next_in happy_path s ≡ o
    → elim o [ none ↦ false | some next ↦ next =? t || is_failure t ] ≡ true
    → is_failure t ≡ false
    → next_in happy_path s ≡ some t
allowed-next s t none e h n = absurd (ground arith)
allowed-next s t (some next) e h n =
    let same : (next =? t) ≡ true = ground arith in e ∙ ap some ((status_eq.beq_iff next t).0 same)

pub allowed-path :
    (s t : ObservationStatus)
    → allowed s t ≡ true
    → is_failure t ≡ false
    → path_from s ≡ t ∷ path_from t
unfolding allowed
allowed-path s t h n = next-path s t (allowed-next s t (next_in happy_path s) refl h n)
