-- ===== src/Observation/Path.antt =====
-- Runs of an observation: the path they follow, and that they end.
use alm_trading.Base.{
  ℕ, ◌≤◌, String, ◌≡◌, inl, inr, refl, sym, subst, ap, ◌∙◌, true, false, Option, none, some, List,
  [], ◌∷◌, ◌++◌, arith, length, if◌then◌else◌, Bool-cases, Result, ok, raise,
}
use alm_trading.Observation.{
  ObservationStatus, status_eq, Observation, is_failure, is_terminal, next_in, allowed, advance,
}
use alm_trading.Observation.Table.{left, path_from, allowed-left, failed-stuck, allowed-path}

-- an attempt to advance: the target, the moment and the reason
abbrev pub Attempt : Type 0
Attempt = ObservationStatus × ℕ × Option String

abbrev kept : Observation → Result Observation → Observation
kept o (ok o') = o'
kept o (raise e) = o

-- the attempts in turn, one that raises being caught
unfoldable pub run : List Attempt → Observation → Observation
run [] o = o
run (a ∷ rest) o = run rest (kept o (advance o a.0 a.1 a.2))

-- the statuses that they reach
unfoldable pub visited : List Attempt → Observation → List ObservationStatus
visited [] o = []
visited (a ∷ rest) o =
    let later = visited rest (kept o (advance o a.0 a.1 a.2)) in
    if allowed o.status a.0 then a.0 ∷ later else later

kept-refused :
    (o : Observation) (t : ObservationStatus) (now : ℕ) (r : Option String)
    → allowed o.status t ≡ false
    → kept o (advance o t now r) ≡ o
unfolding advance
kept-refused o t now r h = ground arith

kept-status :
    (o : Observation) (t : ObservationStatus) (now : ℕ) (r : Option String)
    → allowed o.status t ≡ true
    → (kept o (advance o t now r)).status ≡ t
unfolding advance
kept-status o t now r h = ground arith

-- A run of advances moves an observation at most as often as its status allows, nine times for a
-- new one.
pub visited-left :
    (tries : List Attempt) (o : Observation) → length (visited tries o) ≤ left o.status
unfolding visited
visited-left [] o = omega arith
visited-left ((t, now, r) ∷ rest) o = elim (Bool-cases (allowed o.status t)) [
  | inr refused ↦
      rw (refused, visited)
        (subst (λ x. length (visited rest x) ≤ left o.status) (sym (kept-refused o t now r refused))
          (visited-left rest o))
  | inl moves ↦
      let later = visited-left rest (kept o (advance o t now r)) in
      let same = ap left (kept-status o t now r moves) in
      let lower = allowed-left o.status t moves in ground arith
]

-- an observation that has failed stays as it is
failed-run : (tries : List Attempt) (o : Observation) → is_failure o.status ≡ true → run tries o ≡ o
unfolding run
failed-run [] o h = refl
failed-run ((t, now, r) ∷ rest) o h =
    let same = kept-refused o t now r (failed-stuck o.status t h) in
    ap (run rest) same ∙ failed-run rest o h

-- The statuses that a run of advances reaches, those that raise being skipped, followed by what is
-- left of the path, are the rest of the path, if the run does not end in a failure.
pub run-path :
    (tries : List Attempt) (o : Observation)
    → is_failure (run tries o).status ≡ false
    → path_from o.status ≡ visited tries o ++ path_from (run tries o).status
unfolding run visited
run-path [] o h = refl
run-path ((t, now, r) ∷ rest) o h =
    let o' = kept o (advance o t now r) in
    let later = run-path rest o' h in
    elim (Bool-cases (allowed o.status t)) [
      | inr refused ↦
          rw (refused, visited)
            (sym (ap (λ x. path_from x.status) (kept-refused o t now r refused)) ∙ later)
      | inl moves ↦
          let moved = kept-status o t now r moves in
          elim (Bool-cases (is_failure t)) [
            | inl fails ↦
                let failed : is_failure o'.status ≡ true = ap is_failure moved ∙ fails in
                let stays = ap (λ x. is_failure x.status) (failed-run rest o' failed) in
                absurd (ground arith)
            | inr lives ↦
                rw (moves, visited)
                  (allowed-path o.status t moves lives
                    ∙ ap (λ l. t ∷ l) (sym (ap path_from moved) ∙ later))
          ]
    ]

-- advancing through statuses in turn, as long as no advance raises
unfoldable pub walk : List ObservationStatus → ℕ → Observation → Result Observation
walk [] now o = ok o
walk (s ∷ rest) now o = elim (advance o s now none) [ raise e ↦ raise e | ok o' ↦ walk rest now o' ]

ready_at : Observation → ℕ → Observation
ready_at o now = record o {
  status = ObservationStatus.dataset_ready;
  updated_at = some now;
  failure_reason = none;
}

reaches :
    (s : ObservationStatus) (o : Observation) (now : ℕ)
    → is_terminal s ≡ false
    → walk (path_from s) now (record o { status = s }) ≡ ok (ready_at o now)
unfolding walk advance allowed next_in status_eq ready_at
reaches ObservationStatus.created o now h = refl
reaches ObservationStatus.features_captured o now h = refl
reaches ObservationStatus.nn_predicted o now h = refl
reaches ObservationStatus.strategy_evaluated o now h = refl
reaches ObservationStatus.risk_evaluated o now h = refl
reaches ObservationStatus.observing o now h = refl
reaches ObservationStatus.horizon_reached o now h = refl
reaches ObservationStatus.outcome_calculated o now h = refl
reaches ObservationStatus.labeled o now h = refl
reaches ObservationStatus.dataset_ready o now h = absurd (ground arith)
reaches ObservationStatus.data_invalid o now h = absurd (ground arith)
reaches ObservationStatus.model_error o now h = absurd (ground arith)
reaches ObservationStatus.calculation_error o now h = absurd (ground arith)
reaches ObservationStatus.timeout o now h = absurd (ground arith)

-- An observation that is neither ready nor failed reaches the data set by advancing through the
-- rest of the path; none of these advances raises.
pub walk-path :
    (o : Observation) (now : ℕ)
    → is_terminal o.status ≡ false
    → (o' : Observation) × (walk (path_from o.status) now o ≡ ok o')
      × (o'.status ≡ ObservationStatus.dataset_ready)
unfolding ready_at
walk-path o now h = (ready_at o now, reaches o.status o now h, refl)
