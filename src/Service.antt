-- ===== src/Service.antt =====
-- The DEMO trading service: the state that its methods share (execution/demo/service.py). The kill
-- switch is the guard's, which the emergency controller and the breaker hold too. Audit rows, alerts,
-- the journal, the shadow recorder and the position monitor, which no decision reads, are left out;
-- so is the mode that was announced last. `World` is what a call reads of the outside.
pub mod Context
pub mod Propose
pub mod Shutdown
pub mod Transmit
pub mod Submit
pub mod Once
pub mod Sends
pub mod Queued
pub mod Proposed
pub mod Admitted
pub mod Run
pub mod Wire
pub mod Protected
use alm_trading.Base.{
  ℕ, String, Bool, true, false, Option, none, some, List, [], ◌∷◌, if◌then◌else◌, ◌=?◌, string_eq,
}
use alm_trading.Float.{Float}
use alm_trading.Settings.{Settings}
use alm_trading.Order.{DemoOrderRequest}
use alm_trading.Account.{Mt5Account, DemoAccountResult}
use alm_trading.KillSwitch.{ExecutionKillSwitch}
use alm_trading.Guard.{Quote}
use alm_trading.Mode.{ExecutionMode}
use alm_trading.Lifecycle.{DemoExecutionState, ExecutionLifecycle, create}
use alm_trading.Idempotency.{IdempotencyRegistry}
use alm_trading.Daily.{DailyRiskTracker}
use alm_trading.Breaker.{CircuitBreaker}
use alm_trading.Emergency.{EmergencyController}
use alm_trading.Gates.{DemoGateChain, GateChainDecision}
use alm_trading.Approval.{ManualApprovalQueue, ExecutionProposal}
use alm_trading.Client.{ExecutionClient, OrderResult, Terminal}
use alm_trading.Reconcile.{Reconciler, ReconciliationRecord, Position}

-- a position as `build_context` reads it
pub record OpenPosition {ℓ} (F : Type ℓ) : Type ℓ where
  pub symbol : String
  pub volume : F
  pub open_price : F

-- what `read_client` answers
pub record ReadClient {ℓ} (F : Type ℓ) : Type ℓ where
  pub connected : Bool
  -- `validate_client`
  pub validated : DemoAccountResult F
  pub quote : Option (Quote F)
  pub canonical_symbols : List String
  pub positions : List (OpenPosition F)

pub record World {ℓ} (F : Type ℓ) : Type ℓ where
  pub now : ℕ
  pub read_client : Option (ReadClient F)
  -- `_account()`
  pub account : Option (Mt5Account F)
  pub terminal : Terminal F
  -- `client.get_position(ticket)`
  pub position : ℕ → Option (Position F)

pub record DemoService {ℓ} (F : Type ℓ) : Type ℓ where
  pub settings : Settings
  -- the mode resolver's own default
  pub default_mode : ExecutionMode
  pub chain : DemoGateChain F
  pub emergency : EmergencyController F
  pub reconciler : Reconciler F
  pub switch : ExecutionKillSwitch
  pub registry : IdempotencyRegistry
  pub approvals : ManualApprovalQueue F
  pub daily : DailyRiskTracker F
  pub breaker : CircuitBreaker F
  pub client : ExecutionClient F
  -- `_lifecycles`, each under its own request
  pub lifecycles : List ExecutionLifecycle
  -- `counters`
  pub submitted : ℕ
  pub rejected : ℕ
  pub execution_errors : ℕ
  pub reconciliation_failures : ℕ

pub record DemoExecutionOutcome {ℓ} (F : Type ℓ) : Type ℓ where
  pub request : DemoOrderRequest F
  pub state : DemoExecutionState
  pub decision : Option GateChainDecision
  pub proposal : Option (ExecutionProposal F)
  pub result : Option (OrderResult F)
  pub reconciliation : Option ReconciliationRecord
  pub position : Option (Position F)
  pub lifecycle : Option ExecutionLifecycle
  pub reasons : List String

-- `self._lifecycles.get(request_id)`
unfoldable pub lifecycle_for : String → List ExecutionLifecycle → Option ExecutionLifecycle
lifecycle_for key [] = none
lifecycle_for key (l ∷ ls) = if key =? l.request_id then some l else lifecycle_for key ls

unfoldable pub put_lifecycle :
    ExecutionLifecycle → List ExecutionLifecycle → List ExecutionLifecycle
put_lifecycle l [] = l ∷ []
put_lifecycle l (k ∷ ks) =
    let rest = put_lifecycle l ks in if l.request_id =? k.request_id then l ∷ ks else k ∷ rest

-- `_lifecycle`: the lifecycle of a request, made in a state where there is none
unfoldable pub lifecycle_or_new :
    String → DemoExecutionState → List String → ℕ → List ExecutionLifecycle → ExecutionLifecycle
unfolding lifecycle_for
lifecycle_or_new key state reasons now ls = elim (lifecycle_for key ls) [
  | some l ↦ l
  | none ↦ create key state "system" reasons now
]

abbrev pub is_proposed_state : DemoExecutionState → Bool
is_proposed_state DemoExecutionState.proposed = true
is_proposed_state _ = false
