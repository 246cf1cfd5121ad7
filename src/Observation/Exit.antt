-- ===== src/Observation/Exit.antt =====
-- The decision at a checkpoint (observation/time_exit.py, `alignment_for` and `analyse`).
pub mod Hold
use alm_trading.Base.{
  ℕ, ◌/◌, ◌%◌, String, Bool, true, false, not, ◌&&◌, Option, List, [], ◌∷◌, arith, ◌==◌,
  if◌then◌else◌, upper, strip, string_eq, mem,
}
use alm_trading.Base.Int.{ℤ, pos, sub_ℕ, leb_ℤ}
use alm_trading.Float.{Float, fmin}
use alm_trading.Observation.Checkpoint.{
  ExitDecision, TrendAlignment, TimeExitAnalyzer, step_of, hour_of, next_checkpoint,
}

abbrev alignment_name : TrendAlignment → String
alignment_name TrendAlignment.with_trend = "ALIGNMENT_WITH_TREND"
alignment_name TrendAlignment.counter_trend = "ALIGNMENT_COUNTER_TREND"
alignment_name TrendAlignment.neutral = "ALIGNMENT_NEUTRAL"

abbrev same : Bool → Bool → Bool
same true b = b
same false b = not b

unfoldable pub alignment_for : String → String → TrendAlignment
alignment_for direction regime =
    let bullish = mem regime ("BULL" ∷ "STRONG_BULL" ∷ []) in
    let long_side = mem (upper (strip direction)) ("BUY" ∷ "LONG" ∷ []) in
    if mem regime ("RANGE" ∷ "UNKNOWN" ∷ [])
    then TrendAlignment.neutral
    else if same bullish long_side
    then TrendAlignment.with_trend
    else TrendAlignment.counter_trend

-- the arguments of `analyse`
pub record ExitRequest {ℓ} (F : Type ℓ) : Type ℓ where
  pub direction : String
  -- the regime's text
  pub regime : String
  pub entry_time : ℕ
  pub now : ℕ
  pub strategy_confidence : F
  pub nn_confidence : F
  pub structure_valid : Bool
  pub liquidity_valid : Bool
  pub indicator_valid : Bool
  pub risk_allowed : Bool

pub record TimeExitAnalysis {ℓ} (F : Type ℓ) : Type ℓ where
  pub decision : ExitDecision
  pub alignment : TrendAlignment
  pub next_checkpoint : Option ℕ
  pub at_checkpoint : Bool
  pub holding_seconds : ℤ
  pub required_confidence : F
  pub strategy_confidence : F
  pub nn_confidence : F
  pub reasons : List String

abbrev pub is_counter : TrendAlignment → Bool
is_counter TrendAlignment.counter_trend = true
is_counter _ = false

abbrev pub is_hold : ExitDecision → Bool
is_hold ExitDecision.hold = true
is_hold _ = false

-- on the hour, at minute 0, of a checkpoint hour
unfoldable pub on_checkpoint : ℕ → ℕ → Bool
on_checkpoint hours moment = hour_of (moment / 3600) % step_of hours == 0 && moment / 60 % 60 == 0

module _ {ℓ} {F : Type ℓ} where
  unfoldable pub required : TimeExitAnalyzer F → TrendAlignment → F
  required a alignment =
      if is_counter alignment then a.counter_trend_min_confidence else a.base_min_confidence

  -- `holding >= max_holding`
  unfoldable pub held_out : TimeExitAnalyzer F → ExitRequest F → Bool
  held_out a q = leb_ℤ (pos a.max_holding) (sub_ℕ q.now q.entry_time)

module _ {ℓ} {F : Type ℓ} ⦃f : Float F⦄ where
  open f use {lt}

  unfoldable pub unsure : TimeExitAnalyzer F → ExitRequest F → Bool
  unsure a q =
      lt (fmin q.strategy_confidence q.nn_confidence)
        (required a (alignment_for q.direction q.regime))

  -- the decision, and the reasons after the alignment
  unfoldable pub decide : TimeExitAnalyzer F → ExitRequest F → ExitDecision × List String
  decide a q =
      let counter = is_counter (alignment_for q.direction q.regime) in
      if not q.risk_allowed
      then (ExitDecision.exit, "RISK_BLOCKED" ∷ [])
      else if not q.structure_valid
      then (ExitDecision.exit, "STRUCTURE_INVALIDATED" ∷ [])
      else if held_out a q
      then (ExitDecision.exit, "MAX_HOLDING_REACHED" ∷ [])
      else if not (on_checkpoint a.checkpoint_hours q.now)
      then (ExitDecision.wait, "AWAITING_NEXT_CHECKPOINT" ∷ [])
      else if unsure a q
      then (
        ExitDecision.exit,
        "CONFIDENCE_BELOW_REQUIREMENT"
            ∷ (if counter then "COUNTER_TREND_STRICTER_BAR" ∷ [] else []),
      )
      else if not (q.liquidity_valid && q.indicator_valid)
      then (ExitDecision.exit, "SUPPORTING_CONTEXT_WEAKENED" ∷ [])
      else (ExitDecision.hold, "CONDITIONS_STILL_VALID" ∷ [])

  unfoldable pub analyse : TimeExitAnalyzer F → ExitRequest F → TimeExitAnalysis F
  analyse a q =
      let alignment = alignment_for q.direction q.regime in
      let decided = decide a q in
      record {
        decision = decided.0;
        alignment = alignment;
        next_checkpoint = next_checkpoint a.checkpoint_hours q.now;
        at_checkpoint = on_checkpoint a.checkpoint_hours q.now;
        holding_seconds = sub_ℕ q.now q.entry_time;
        required_confidence = required a alignment;
        strategy_confidence = q.strategy_confidence;
        nn_confidence = q.nn_confidence;
        reasons = alignment_name alignment ∷ decided.1;
      }
