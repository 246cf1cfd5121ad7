-- ===== src/Service/Propose.antt =====
-- Proposing an order: the gates run, and a proposal is recorded; nothing is sent
-- (execution/demo/service.py, `propose` and `_persist_blocked_result`).
use alm_trading.Base.{
  ◌+◌, String, Bool, Option, none, some, List, [], ◌∷◌, if◌then◌else◌, is_empty, join, Result, ok,
  raise,
}
use alm_trading.Float.{Float, nought}
use alm_trading.Order.{DemoOrderRequest}
use alm_trading.Settings.{environment}
use alm_trading.Mode.{ModeDecision, resolve, mode_name}
use alm_trading.Lifecycle.{DemoExecutionState}
use alm_trading.Idempotency.{check}
use alm_trading.Daily.{DailyRiskTracker}
use alm_trading.Gates.{DemoExecutionContext, GateChainDecision}
use alm_trading.Gates.Chain.{evaluate}
use alm_trading.Approval.Queue.{propose as record_proposal}
use alm_trading.Client.{OrderResult, ExecutionStatus, ErrorCode}
use alm_trading.Service.{DemoService, DemoExecutionOutcome, World, lifecycle_or_new, put_lifecycle}
use alm_trading.Service.Context.{build_context}

abbrev first_code : List String → Option ErrorCode
first_code [] = none
first_code (c ∷ cs) = some (ErrorCode.stated c)

abbrev pub state_of : Bool → DemoExecutionState
state_of approved = if approved then DemoExecutionState.proposed else DemoExecutionState.blocked

module _ {ℓ} {F : Type ℓ} ⦃f : Float F⦄ where
  -- `_persist_blocked_result`
  unfoldable pub blocked_result : DemoService F → DemoOrderRequest F → List String → OrderResult F
  blocked_result s request reasons = record {
    request_id = request.request_id;
    status = ExecutionStatus.blocked;
    symbol = request.symbol;
    side = request.side;
    requested_volume = request.volume;
    filled_volume = nought;
    requested_price = request.price;
    filled_price = none;
    sl = request.stop_loss;
    tp = request.take_profit;
    broker_ticket = none;
    error_code = first_code reasons;
    error_message = if is_empty reasons then none else some (join "; " reasons);
    reasons = reasons;
    environment = environment s.settings;
  }

  -- what is recorded of a decision
  unfoldable pub record_decision :
      DemoService F
      → World F
      → DemoOrderRequest F
      → GateChainDecision
      → DemoService F × DemoExecutionOutcome F
  record_decision s w request decision =
      let queued =
        record_proposal request decision request.timestamp (mode_name decision.mode.mode)
          s.approvals in
      let state = state_of decision.approved in
      let lifecycle =
        lifecycle_or_new request.request_id state decision.reasons w.now s.lifecycles in
      (
        record s {
          approvals = queued.0;
          lifecycles = put_lifecycle lifecycle s.lifecycles;
          rejected = if decision.approved then s.rejected else s.rejected + 1;
        },
        record {
          request = request;
          state = state;
          decision = some decision;
          proposal = some queued.1;
          result = none;
          reconciliation = none;
          position = none;
          lifecycle = some lifecycle;
          reasons = decision.reasons;
        },
      )

  -- a context that is given is used as it is, but for the verdict on the identifier
  unfoldable pub proposal_context :
      DemoService F
      → World F
      → DemoOrderRequest F
      → ModeDecision
      → Option (DemoExecutionContext F)
      → DailyRiskTracker F × DemoExecutionContext F
  proposal_context s w request mode (some c) =
      (s.daily, record c { idempotency = some (check s.registry request.request_id) })
  proposal_context s w request mode none = build_context s w request mode

  -- what follows an answer of the chain
  unfoldable pub propose_decided :
      DemoService F
      → World F
      → DemoOrderRequest F
      → Result GateChainDecision
      → DemoService F × Result (DemoExecutionOutcome F)
  propose_decided s w request (raise e) = (s, raise e)
  propose_decided s w request (ok decision) =
      let recorded = record_decision s w request decision in (recorded.0, ok recorded.1)

  unfoldable pub propose_in :
      DemoService F
      → World F
      → DemoOrderRequest F
      → DailyRiskTracker F
      → DemoExecutionContext F
      → DemoService F × Result (DemoExecutionOutcome F)
  propose_in s w request daily context =
      propose_decided (record s { daily = daily }) w request
        (evaluate s.chain s.switch request (some context) w.now)

  unfoldable pub propose_resolved :
      DemoService F
      → World F
      → DemoOrderRequest F
      → Option (DemoExecutionContext F)
      → Result ModeDecision
      → DemoService F × Result (DemoExecutionOutcome F)
  propose_resolved s w request context (raise e) = (s, raise e)
  propose_resolved s w request context (ok mode) =
      let gathered = proposal_context s w request mode context in
      propose_in s w request gathered.0 gathered.1

  unfoldable pub propose :
      DemoService F
      → World F
      → DemoOrderRequest F
      → Option (DemoExecutionContext F)
      → DemoService F × Result (DemoExecutionOutcome F)
  propose s w request context =
      propose_resolved s w request context (resolve s.default_mode s.settings)
