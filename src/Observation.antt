-- ===== src/Observation.antt =====
-- The lifecycle of an observation (observation/lifecycle.py). The identifier, which a hash mints, is
-- given; what the record only carries to the data set (the prediction, the context and the fields of
-- the market) is left out.
pub mod Table
pub mod Path
pub mod Checkpoint
pub mod Exit
use alm_trading.Base.{
  ℕ, ◌+◌, String, Bool, true, false, not, ◌&&◌, ◌||◌, Option, none, some, List, [], ◌∷◌, leb,
  if◌then◌else◌, Result, ok, raise, lifecycle_error, Eq, enum_eq, ◌=?◌,
}

pub data ObservationStatus : Type 0 where
  created features_captured nn_predicted strategy_evaluated risk_evaluated : ObservationStatus
  observing horizon_reached outcome_calculated labeled dataset_ready : ObservationStatus
  data_invalid model_error calculation_error timeout : ObservationStatus

ObservationStatus-discrete : Discrete ObservationStatus
ObservationStatus-discrete = hlevel

instance unfoldable pub status_eq : Eq ObservationStatus
unfolding ObservationStatus-discrete enum_eq
status_eq = enum_eq ObservationStatus-discrete

-- `FAILURE_STATES`
abbrev pub is_failure : ObservationStatus → Bool
is_failure ObservationStatus.data_invalid = true
is_failure ObservationStatus.model_error = true
is_failure ObservationStatus.calculation_error = true
is_failure ObservationStatus.timeout = true
is_failure _ = false

-- `HAPPY_PATH`
abbrev pub happy_path : List ObservationStatus
happy_path =
    ObservationStatus.created ∷ ObservationStatus.features_captured ∷ ObservationStatus.nn_predicted
    ∷ ObservationStatus.strategy_evaluated ∷ ObservationStatus.risk_evaluated
    ∷ ObservationStatus.observing ∷ ObservationStatus.horizon_reached
    ∷ ObservationStatus.outcome_calculated ∷ ObservationStatus.labeled
    ∷ ObservationStatus.dataset_ready ∷ []

-- the state that follows in a path
unfoldable pub next_in : List ObservationStatus → ObservationStatus → Option ObservationStatus
next_in [] s = none
next_in (a ∷ []) s = none
next_in (a ∷ b ∷ rest) s = let later = next_in (b ∷ rest) s in if a =? s then some b else later

-- `ALLOWED_TRANSITIONS`: one step of the path, or a failure, from a state that has a step
unfoldable pub allowed : ObservationStatus → ObservationStatus → Bool
unfolding next_in
allowed s target = elim (next_in happy_path s) [
  | none ↦ false
  | some next ↦ next =? target || is_failure target
]

pub record Observation : Type 0 where
  pub observation_id : String
  pub symbol : String
  pub timestamp : ℕ
  -- the seconds that `resolve_horizon` finds for the horizon's name, if any
  pub horizon : Option ℕ
  pub status : ObservationStatus
  pub updated_at : Option ℕ
  pub failure_reason : Option String

-- the properties `deadline`, `failed` and `terminal`
abbrev pub deadline : Observation → Option ℕ
deadline o = elim o.horizon [ none ↦ none | some length ↦ some (o.timestamp + length) ]

abbrev pub is_terminal : ObservationStatus → Bool
is_terminal s = is_failure s || s =? ObservationStatus.dataset_ready

unfoldable pub horizon_elapsed : Observation → ℕ → Bool
horizon_elapsed o now = elim (deadline o) [ none ↦ false | some d ↦ leb d now ]

unfoldable pub advance : Observation → ObservationStatus → ℕ → Option String → Result Observation
advance o target now failure_reason =
    if allowed o.status target
    then ok (record o { status = target; updated_at = some now; failure_reason = failure_reason })
    else raise lifecycle_error

unfoldable pub fail : Observation → ObservationStatus → String → ℕ → Result Observation
unfolding advance
fail o target reason now =
    if not (is_failure target) then raise lifecycle_error else advance o target now (some reason)
