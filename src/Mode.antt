-- ===== src/Mode.antt =====
-- Execution modes: what the configured mode permits (execution/demo/modes.py).
pub mod Resolve
use alm_trading.Base.{
  String, Bool, true, false, not, ◌&&◌, List, [], ◌∷◌, ◌++◌, if◌then◌else◌, Result, ok, raise,
  value_error, mem, upper, strip, is_blank, ◌=?◌, string_eq,
}
use alm_trading.Settings.{Settings, execution_mode}

pub data ExecutionMode : Type 0 where
  observation shadow paper demo_manual_approval demo_automated live_disabled : ExecutionMode

-- the name of a member, and its value
abbrev pub mode_name : ExecutionMode → String
mode_name ExecutionMode.observation = "OBSERVATION"
mode_name ExecutionMode.shadow = "SHADOW"
mode_name ExecutionMode.paper = "PAPER"
mode_name ExecutionMode.demo_manual_approval = "DEMO_MANUAL_APPROVAL"
mode_name ExecutionMode.demo_automated = "DEMO_AUTOMATED"
mode_name ExecutionMode.live_disabled = "LIVE_DISABLED"

-- `mode in BROKER_MODES`
abbrev pub is_broker_mode : ExecutionMode → Bool
is_broker_mode ExecutionMode.demo_manual_approval = true
is_broker_mode ExecutionMode.demo_automated = true
is_broker_mode _ = false

-- `mode in SIMULATION_MODES`
abbrev pub is_simulation_mode : ExecutionMode → Bool
is_simulation_mode ExecutionMode.observation = true
is_simulation_mode ExecutionMode.shadow = true
is_simulation_mode ExecutionMode.paper = true
is_simulation_mode ExecutionMode.live_disabled = true
is_simulation_mode _ = false

abbrev pub is_manual : ExecutionMode → Bool
is_manual ExecutionMode.demo_manual_approval = true
is_manual _ = false

abbrev pub is_automated : ExecutionMode → Bool
is_automated ExecutionMode.demo_automated = true
is_automated _ = false

abbrev pub is_live_disabled : ExecutionMode → Bool
is_live_disabled ExecutionMode.live_disabled = true
is_live_disabled _ = false

pub record ModeDecision : Type 0 where
  pub mode : ExecutionMode
  pub configured : String
  pub sends_orders : Bool
  pub requires_human_approval : Bool
  pub reasons : List String

member : String → List ExecutionMode → Result ExecutionMode
member text [] = raise value_error
member text (m ∷ ms) = if text =? mode_name m then ok m else member text ms

-- A text that names no mode is an error.
unfoldable pub parse_mode : String → Result ExecutionMode
unfolding member
parse_mode value = member (upper (strip value)) (
    ExecutionMode.observation ∷ ExecutionMode.shadow ∷ ExecutionMode.paper
    ∷ ExecutionMode.demo_manual_approval ∷ ExecutionMode.demo_automated
    ∷ ExecutionMode.live_disabled ∷ [])

abbrev code_if : Bool → String → List String
code_if b code = if b then code ∷ [] else []

-- the reasons of a mode that is configured
unfoldable pub mode_reasons : Settings → ExecutionMode → List String
mode_reasons s mode =
    code_if (is_live_disabled mode) "LIVE_PERMANENTLY_DISABLED"
    ++ (code_if (is_simulation_mode mode) "MODE_DOES_NOT_EXECUTE"
        ++ (code_if (is_manual mode) "MANUAL_APPROVAL_REQUIRED"
            ++ code_if (is_automated mode && not s.demo_automated_execution_enabled)
                "DEMO_AUTOMATED_EXECUTION_DISABLED"))

resolve_parsed : Settings → String → Result ExecutionMode → Result ModeDecision
unfolding mode_reasons
resolve_parsed s configured (raise e) = raise e
resolve_parsed s configured (ok mode) =
    let reasons = mode_reasons s mode in
    ok (record {
      mode = mode;
      configured = configured;
      sends_orders = is_broker_mode mode && not (mem "DEMO_AUTOMATED_EXECUTION_DISABLED" reasons);
      requires_human_approval = is_manual mode;
      reasons = reasons;
    })

-- `default_mode` is the resolver's own, parsed when it is built.
unfoldable pub resolve : ExecutionMode → Settings → Result ModeDecision
unfolding resolve_parsed
resolve default_mode s =
    let configured = execution_mode s in
    if is_blank configured
    then ok (record {
      mode = default_mode;
      configured = "";
      sends_orders = false;
      requires_human_approval = false;
      reasons = "EXECUTION_MODE_NOT_CONFIGURED" ∷ [];
    })
    else resolve_parsed s configured (parse_mode configured)
