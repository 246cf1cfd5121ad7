-- ===== src/Examples/States.antt =====
-- The theorems on the states that live between orders: configurations, accounts, lifecycles and claims.
use alm_trading.Base.{
  ◌≡◌, ◌≤◌, ◌↔◌, not, ◌&&◌, is_blank, if◌then◌else◌, refl, true, false, none, some, List, [], ◌∷◌,
  ok, mem, ◌=?◌, string_eq, length, upper, lower, strip, has_substring,
}
use alm_trading.Float.Nano.{Nano, nano_float}
use alm_trading.Settings.{
  environment, execution_mode, execution_modes, enforce_phase_safety, broker_execution_configured,
}
use alm_trading.Settings.Safety.{enforce_phase_safety-ok}
use alm_trading.Mode.{
  ExecutionMode, ModeDecision, resolve, parse_mode, is_broker_mode, is_automated, is_manual,
}
use alm_trading.Mode.Resolve.{resolve-sends_orders}
use alm_trading.Account.{
  Mt5Account, DemoValidation, validate, validator_server_reasons, permission_reasons,
}
use alm_trading.Account.Verdict.{IsVerified, validate-IsVerified}
use alm_trading.Lifecycle.{DemoExecutionState, ExecutionLifecycle, create}
use alm_trading.Lifecycle.Reach.{
  IsValid, Attempt, create-IsValid, attempts, attempts-IsValid, is_after_submission, Visits,
}
use alm_trading.Idempotency.{IdempotencyRegistry, Lookup}
use alm_trading.Idempotency.Claims.{claims, claims-le-one}
use alm_trading.Examples.{armed_settings, demo_account, validator, terminal}

starts : enforce_phase_safety armed_settings ≡ ok armed_settings
unfolding enforce_phase_safety upper strip
starts = refl

enforce_phase_safety-ok_example :
    (armed_settings ≡ armed_settings)
    × (false ≡ false)
    × (false ≡ false)
    × ((environment armed_settings =? "DEMO") ≡ true)
    × (mem (execution_mode armed_settings) execution_modes ≡ true)
    × (false ≡ false)
    × (false ≡ false)
    × (false ≡ false)
    × (true ≡ true → false ≡ false)
    × (broker_execution_configured armed_settings ≡ true → true ≡ true)
    × ((execution_mode armed_settings =? "DEMO_AUTOMATED") ≡ true → true ≡ true)
enforce_phase_safety-ok_example = enforce_phase_safety-ok armed_settings armed_settings starts

abbrev automated : ModeDecision
automated = record {
  mode = ExecutionMode.demo_automated;
  configured = "DEMO_AUTOMATED";
  sends_orders = true;
  requires_human_approval = false;
  reasons = [];
}

resolves : resolve ExecutionMode.observation armed_settings ≡ ok automated
unfolding resolve upper strip parse_mode
resolves = refl

resolve-sends_orders_example :
    ((true ≡ true) ↔ (
      (is_blank (execution_mode armed_settings) ≡ false)
      × (is_broker_mode ExecutionMode.demo_automated ≡ true)
      × (is_automated ExecutionMode.demo_automated ≡ true → true ≡ true)))
    × (false ≡ (
        not (is_blank (execution_mode armed_settings)) && is_manual ExecutionMode.demo_automated))
    × ((if is_blank (execution_mode armed_settings)
          then ok ExecutionMode.observation
          else parse_mode (execution_mode armed_settings))
        ≡ ok ExecutionMode.demo_automated)
resolve-sends_orders_example =
    resolve-sends_orders ExecutionMode.observation armed_settings {d = automated} resolves

valid :
    (validate validator (some demo_account) (some terminal) (some true)).status
    ≡ DemoValidation.valid_demo
unfolding validate strip validator_server_reasons has_substring lower permission_reasons
valid = refl

validate-IsVerified_example :
    (a : Mt5Account Nano) × (some demo_account ≡ some a)
    × IsVerified validator a (some terminal) (some true)
validate-IsVerified_example =
    validate-IsVerified validator (some demo_account) (some terminal) (some true) valid

abbrev fresh : ExecutionLifecycle
fresh = create "R1" DemoExecutionState.proposed "system" [] 0

-- a fill before submission is refused
abbrev targets : List Attempt
targets =
    (DemoExecutionState.filled, "broker", [], 1)
    ∷ (DemoExecutionState.approved, "Ann", "ok" ∷ [], 2)
    ∷ (DemoExecutionState.submitted, "service", [], 3)
    ∷ (DemoExecutionState.filled, "broker", [], 4)
    ∷ []

attempts-IsValid_example :
    let l' = attempts targets fresh in
    IsValid l'
    × (length l'.history ≤ 7)
    × (is_after_submission l'.state ≡ true → Visits DemoExecutionState.submitted l'.history)
unfolding create
attempts-IsValid_example =
    attempts-IsValid targets fresh (create-IsValid "R1" DemoExecutionState.proposed "system" [] 0)
      refl

abbrev registry : IdempotencyRegistry
registry = record { repository = none; seen = [] }

claims-le-one_example : claims "R1" registry (("R1", 1) ∷ ("R2", 2) ∷ ("R1", 3) ∷ []) ≤ 1
claims-le-one_example = claims-le-one "R1" registry (("R1", 1) ∷ ("R2", 2) ∷ ("R1", 3) ∷ [])

abbrev offline : IdempotencyRegistry
offline = record { repository = some (λ key. Lookup.unavailable); seen = [] }
