-- ===== src/Paper/Risk.antt =====
-- The risk checks of paper trading (paper/risk.py).
use alm_trading.Base.{
  ℕ, ◌/◌, String, Bool, true, false, not, ◌&&◌, ◌||◌, Option, none, some, List, [], ◌∷◌, ◌++◌,
  if◌then◌else◌, leb, ◌==◌, is_empty, mem, string_eq, ◌=?◌,
}
use alm_trading.Float.{Float, nought, fmax, truthy}
use alm_trading.Gates.{code_if}

pub record DailyRiskManager {ℓ} (F : Type ℓ) : Type ℓ where
  pub daily_loss_limit : F
  pub day : Option ℕ
  pub daily_start_equity : F
  pub daily_pnl : F
  pub daily_drawdown : F
  pub paused : Bool

pub record PaperRiskEngine {ℓ} (F : Type ℓ) : Type ℓ where
  pub max_drawdown : F
  pub max_exposure : F
  pub max_position_size : F
  pub max_dca_entries : ℕ
  pub max_daily_loss : F
  pub max_concurrent_positions : ℕ
  pub max_spread : F
  -- `kill_switch.enabled`
  pub kill_switch_enabled : Bool

-- the arguments of `evaluate`
pub record RiskCase {ℓ} (F : Type ℓ) : Type ℓ where
  pub new_entry : Bool
  pub increases_exposure : Bool
  pub drawdown : F
  pub exposure : F
  pub quantity : F
  pub dca_entries : ℕ
  pub daily_drawdown : F
  pub concurrent_positions : ℕ
  pub volatility : String
  pub spread : F
  pub news_risk : String
  pub data_quality : String
  pub provider_status : String
  pub model_valid : Bool
  pub strategy_valid : Bool

pub record PaperRiskDecision : Type 0 where
  pub allowed : Bool
  pub rejection_reasons : List String
  pub risk_state : String

-- a prediction, where an entry that is missing or not a number is `none`
pub record Prediction {ℓ} (F : Type ℓ) : Type ℓ where
  pub prob_up : Option F
  pub prob_down : Option F
  pub prob_neutral : Option F

-- `GlobalKillSwitch.permits`
unfoldable pub permits : Bool → Bool → Bool → Bool
permits enabled new_entry increases_exposure = not (enabled && (new_entry || increases_exposure))

-- `self.day != timestamp.date()`, moments being seconds
unfoldable pub another_day : Option ℕ → ℕ → Bool
another_day none timestamp = true
another_day (some day) timestamp = not (day == timestamp / 86_400)

module _ {ℓ} {F : Type ℓ} ⦃f : Float F⦄ where
  open f use {lit, lt, le, eq, add, sub, div, neg, abs}

  unfoldable pub update : DailyRiskManager F → ℕ → F → DailyRiskManager F
  update d timestamp equity =
      let start = if another_day d.day timestamp then equity else d.daily_start_equity in
      let pnl = sub equity start in
      let drawdown = if truthy start then fmax nought (div (neg pnl) start) else nought in
      record {
        daily_loss_limit = d.daily_loss_limit;
        day = some (timestamp / 86_400);
        daily_start_equity = start;
        daily_pnl = pnl;
        daily_drawdown = drawdown;
        paused = le d.daily_loss_limit drawdown;
      }

  unfoldable pub context_rejections : PaperRiskEngine F → RiskCase F → List String
  context_rejections e c =
      code_if (c.volatility =? "EXTREME_VOLATILITY") "EXTREME_VOLATILITY"
      ++ (code_if (lt e.max_spread c.spread) "SPREAD_TOO_WIDE"
          ++ (code_if (mem c.news_risk ("HIGH" ∷ "EXTREME" ∷ [])) "HIGH_IMPACT_EVENT_NEARBY"
              ++ (code_if (not (c.data_quality =? "VALID")) "DATA_QUALITY_INVALID"
                  ++ (code_if (not (c.provider_status =? "ONLINE")) "PROVIDER_UNAVAILABLE"
                      ++ (code_if (not c.model_valid) "MODEL_FAILURE"
                          ++ code_if (not c.strategy_valid) "STRATEGY_INVALID")))))

  unfoldable pub rejections : PaperRiskEngine F → RiskCase F → List String
  rejections e c =
      code_if (not (permits e.kill_switch_enabled c.new_entry c.increases_exposure))
        "GLOBAL_KILL_SWITCH"
      ++ (code_if (le e.max_drawdown c.drawdown) "MAXIMUM_DRAWDOWN"
          ++ (code_if (le e.max_exposure c.exposure) "MAXIMUM_EXPOSURE"
              ++ (code_if (lt e.max_position_size c.quantity) "MAXIMUM_POSITION_SIZE"
                  ++ (code_if (leb e.max_dca_entries c.dca_entries) "MAXIMUM_DCA_ENTRIES"
                      ++ (code_if (le e.max_daily_loss c.daily_drawdown) "MAXIMUM_DAILY_LOSS"
                          ++ (code_if
                                (leb e.max_concurrent_positions c.concurrent_positions
                                  && c.new_entry)
                                "MAXIMUM_CONCURRENT_POSITIONS"
                              ++ context_rejections e c))))))

  unfoldable pub evaluate : PaperRiskEngine F → RiskCase F → PaperRiskDecision
  evaluate e c =
      let r = rejections e c in
      record {
        allowed = is_empty r;
        rejection_reasons = r;
        risk_state = if is_empty r then "ALLOWED" else "ORDER_REJECTED";
      }

  abbrev is_probability : F → Bool
  is_probability v = eq v v && (le nought v && le v (lit 1 0))

  unfoldable pub sums_to_one : F → F → F → Bool
  sums_to_one u d n =
      is_probability u
      && (is_probability d
          && (is_probability n
              && lt (abs (sub (add (add (add nought u) d) n) (lit 1 0))) (lit 1 6)))

  unfoldable pub three_valid : Option F → Option F → Option F → Bool
  three_valid (some u) (some d) (some n) = sums_to_one u d n
  three_valid _ _ _ = false

  unfoldable pub validate_model_prediction : Option (Prediction F) → Bool
  validate_model_prediction none = false
  validate_model_prediction (some p) = three_valid p.prob_up p.prob_down p.prob_neutral
