-- ===== src/Exits.antt =====
-- The exit engine of an open DEMO position (execution/demo/exit_engine.py). The conditions and the
-- moment of a verdict, which are only displayed, are left out.
pub mod Reasons
use alm_trading.Base.{
  ℕ, String, Bool, true, false, not, ◌&&◌, ◌||◌, Option, none, some, List, [], ◌∷◌, if◌then◌else◌,
  upper, mem, string_eq,
}
use alm_trading.Float.{Float, nought, fmin}
use alm_trading.Observation.Checkpoint.{ExitDecision, TrendAlignment, TimeExitAnalyzer}
use alm_trading.Observation.Exit.{ExitRequest, TimeExitAnalysis, analyse}

pub data ExitReason : Type 0 where
  stop_loss take_profit time_exit strategy_exit structure_invalidation : ExitReason
  liquidity_invalidation risk_emergency_exit manual_exit : ExitReason

pub data ExitAction : Type 0 where
  hold exit wait : ExitAction

pub record ExitVerdict {ℓ} (F : Type ℓ) : Type ℓ where
  pub action : ExitAction
  pub reason : Option ExitReason
  pub reasons : List String
  pub at_checkpoint : Bool
  pub alignment : TrendAlignment
  pub required_confidence : F
  pub confidence : F
  pub next_checkpoint : Option ℕ
  pub analysis : TimeExitAnalysis F

-- the arguments of `decide`: those of the analysis, and the position's own
pub record ExitCase {ℓ} (F : Type ℓ) : Type ℓ where
  pub request : ExitRequest F
  pub current_price : F
  pub stop_loss : Option F
  pub take_profit : Option F
  pub strategy_exit : Bool
  pub manual_exit : Bool

-- `str(direction).upper() in {"BUY", "LONG"}`
abbrev pub is_long : String → Bool
is_long direction = mem (upper direction) ("BUY" ∷ "LONG" ∷ [])

-- an action, its reason and the codes
abbrev pub Choice : Type 0
Choice = ExitAction × Option ExitReason × List String

-- what the analysis at the checkpoint comes to
unfoldable pub checkpoint_choice : Bool → ExitDecision → List String → Choice
checkpoint_choice liquidity_valid ExitDecision.wait reasons = (ExitAction.wait, none, reasons)
checkpoint_choice liquidity_valid ExitDecision.exit reasons =
    let weakened = mem "SUPPORTING_CONTEXT_WEAKENED" reasons && not liquidity_valid in
    (
      ExitAction.exit,
      some (if weakened then ExitReason.liquidity_invalidation else ExitReason.time_exit),
      reasons,
    )
checkpoint_choice liquidity_valid ExitDecision.hold reasons = (ExitAction.hold, none, reasons)

abbrev exits : ExitReason → String → Choice
exits reason code = (ExitAction.exit, some reason, code ∷ [])

module _ {ℓ} {F : Type ℓ} ⦃f : Float F⦄ where
  open f use {le}

  -- `_stop_hit` and `_target_hit`
  unfoldable pub stop_hit : String → F → Option F → Bool
  stop_hit direction price none = false
  stop_hit direction price (some stop) =
      if le price nought then false else if is_long direction then le price stop else le stop price

  unfoldable pub target_hit : String → F → Option F → Bool
  target_hit direction price none = false
  target_hit direction price (some target) =
      if le price nought
      then false
      else if is_long direction
      then le target price
      else le price target

  abbrev pub at_stop : ExitCase F → Bool
  at_stop c = stop_hit c.request.direction c.current_price c.stop_loss

  abbrev pub at_target : ExitCase F → Bool
  at_target c = target_hit c.request.direction c.current_price c.take_profit

  -- the conditions in turn, those that do not wait for the clock first
  unfoldable pub choose : ExitCase F → TimeExitAnalysis F → Choice
  choose c a =
      if c.manual_exit
      then exits ExitReason.manual_exit "OPERATOR_REQUESTED_EXIT"
      else if not c.request.risk_allowed
      then exits ExitReason.risk_emergency_exit "RISK_BLOCKED"
      else if at_stop c
      then exits ExitReason.stop_loss "STOP_LOSS_REACHED"
      else if at_target c
      then exits ExitReason.take_profit "TAKE_PROFIT_REACHED"
      else if not c.request.structure_valid
      then exits ExitReason.structure_invalidation "STRUCTURE_INVALIDATED"
      else if c.strategy_exit
      then exits ExitReason.strategy_exit "STRATEGY_REQUESTED_EXIT"
      else checkpoint_choice c.request.liquidity_valid a.decision a.reasons

  unfoldable pub decide : TimeExitAnalyzer F → ExitCase F → ExitVerdict F
  decide analyzer c =
      let a = analyse analyzer c.request in
      let chosen = choose c a in
      record {
        action = chosen.0;
        reason = chosen.1;
        reasons = chosen.2;
        at_checkpoint = a.at_checkpoint;
        alignment = a.alignment;
        required_confidence = a.required_confidence;
        confidence = fmin c.request.strategy_confidence c.request.nn_confidence;
        next_checkpoint = a.next_checkpoint;
        analysis = a;
      }
