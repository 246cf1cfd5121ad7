-- ===== src/Examples/Observing.antt =====
-- The theorems on observations and on exits, run on one that walks two steps and fails.
use alm_trading.Base.{
  upper, strip, ◌≢◌, is_some, not, ℕ, ◌≤◌, ◌≡◌, ◌↔◌, refl, true, false, none, some, List, [], ◌∷◌,
  ◌++◌, ok, length,
}
use alm_trading.Float.Nano.{Nano, nano_float, Nano-IsOrdered}
use alm_trading.Observation.{ObservationStatus, status_eq, Observation, advance, allowed, next_in}
use alm_trading.Observation.Table.{path_from}
use alm_trading.Observation.Path.{Attempt, run, visited, walk, visited-left, run-path, walk-path}
use alm_trading.Observation.Checkpoint.{
  TimeExitAnalyzer, IsCheckpoint, next_checkpoint, next_checkpoint-IsCheckpoint,
}
use alm_trading.Observation.Exit.{
  ExitRequest, on_checkpoint, analyse, is_hold, held_out, alignment_for,
}
use alm_trading.Observation.Exit.Hold.{IsHeld, analyse-IsHeld}
use alm_trading.Exits.{ExitCase, decide}
use alm_trading.Exits.Reasons.{is_exit, is_wait, immediate, decide-reason, decide-between}
use alm_trading.Examples.{dec}

abbrev started : Observation
started = record {
  observation_id = "O1";
  symbol = "EURUSD";
  timestamp = 36_000;
  horizon = some 3600;
  status = ObservationStatus.created;
  updated_at = none;
  failure_reason = none;
}

-- a step, a jump that is refused, and a second step
abbrev tries : List Attempt
tries =
    (ObservationStatus.features_captured, 36_001, none)
    ∷ (ObservationStatus.observing, 36_002, none)
    ∷ (ObservationStatus.nn_predicted, 36_003, none)
    ∷ []

visited-left_example : length (visited tries started) ≤ 9
visited-left_example = visited-left tries started

run-path_example :
    path_from ObservationStatus.created
    ≡ visited tries started ++ path_from (run tries started).status
unfolding run advance allowed next_in status_eq
run-path_example = run-path tries started refl

walk-path_example :
    (o' : Observation) × (walk (path_from ObservationStatus.created) 36_000 started ≡ ok o')
    × (o'.status ≡ ObservationStatus.dataset_ready)
unfolding status_eq
walk-path_example = walk-path started 36_000 refl

next_checkpoint-IsCheckpoint_example :
    (t : ℕ) × (next_checkpoint 2 36_500 ≡ some t) × IsCheckpoint 2 36_500 t
next_checkpoint-IsCheckpoint_example = next_checkpoint-IsCheckpoint 2 36_500

abbrev analyzer : TimeExitAnalyzer Nano
analyzer = record {
  checkpoint_hours = 2;
  max_holding = 28_800;
  counter_trend_min_confidence = dec 75 2;
  base_min_confidence = dec 45 2;
}

abbrev open_trade : ExitRequest Nano
open_trade = record {
  direction = "BUY";
  regime = "BULL";
  entry_time = 28_000;
  now = 36_000;
  strategy_confidence = dec 6 1;
  nn_confidence = dec 7 1;
  structure_valid = true;
  liquidity_valid = true;
  indicator_valid = true;
  risk_allowed = true;
}

analyse-IsHeld_example :
    (is_hold (analyse analyzer open_trade).decision ≡ true) ↔ IsHeld analyzer open_trade
unfolding alignment_for upper strip
analyse-IsHeld_example = analyse-IsHeld Nano-IsOrdered analyzer open_trade refl refl refl

abbrev exit_case : ExitCase Nano
exit_case = record {
  request = record open_trade { now = 36_100 };
  current_price = dec 10890 4;
  stop_loss = some (dec 10900 4);
  take_profit = none;
  strategy_exit = false;
  manual_exit = false;
}

decide-reason_example :
    (is_exit (decide analyzer exit_case).action ≡ is_some (decide analyzer exit_case).reason)
    × ((decide analyzer exit_case).reasons ≢ [])
decide-reason_example = decide-reason analyzer exit_case

decide-between_example :
    (is_exit (decide analyzer exit_case).action ≡ immediate exit_case)
    × (is_wait (decide analyzer exit_case).action ≡ not (immediate exit_case))
unfolding held_out on_checkpoint
decide-between_example = decide-between analyzer exit_case refl refl
