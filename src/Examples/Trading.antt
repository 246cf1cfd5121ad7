-- ===== src/Examples/Trading.antt =====
-- The theorems on the trading service, run on a fresh service and on an approved proposal.
use alm_trading.Base.{◌≤◌, ◌≡◌, ◌⊎◌, refl, ap, true, none, some, [], ok}
use alm_trading.Float.Nano.{Nano, nano_float}
use alm_trading.Lifecycle.{ExecutionLifecycle, DemoExecutionState, create, advance_if_allowed}
use alm_trading.Breaker.{is_open}
use alm_trading.Mode.{ExecutionMode}
use alm_trading.Order.{to_order_request}
use alm_trading.Reconcile.{
  ReconciliationStatus, ReconciliationRecord, reconcile, reconcile_executed,
}
use alm_trading.Client.Send.{
  verify, send_verified, send_market_order, answered, to_result, reply_status, status_of,
}
use alm_trading.Client.Send.{transmit as transmit_payload}
use alm_trading.Service.{DemoService, DemoExecutionOutcome, World}
use alm_trading.Service.Submit.{submit, approve}
use alm_trading.Service.Transmit.{is_failure, begin, settle, send, finish, transmit}
use alm_trading.Service.Once.{sent_for}
use alm_trading.Service.Sends.{IsSent, transmit-sent}
use alm_trading.Service.Run.{Step, Run, run-sent_once}
use alm_trading.Service.Wire.{WireStep, sent_ids, run-WireStep}
use alm_trading.Service.Protected.{transmit-stops, transmit-switch}
use alm_trading.Examples.{
  armed_settings, chain, context, order, demo_account, released_switch, engaged_switch,
}
use alm_trading.Examples.Days.{tracker}
use alm_trading.Examples.Switches.{breaker, controller}
use alm_trading.Examples.Wire.{filling_terminal, client, reconciler, after_send, wire_order}
use alm_trading.Examples.Proposals.{signed_proposal, request_decision}

abbrev service : DemoService Nano
service = record {
  settings = armed_settings;
  default_mode = ExecutionMode.observation;
  chain = chain;
  emergency = controller;
  reconciler = reconciler;
  switch = released_switch;
  registry = record { repository = none; seen = [] };
  approvals = record { ttl = 900; proposals = [] };
  daily = tracker;
  breaker = breaker;
  client = client;
  lifecycles = [];
  submitted = 0;
  rejected = 0;
  execution_errors = 0;
  reconciliation_failures = 0;
}

-- a terminal that fills, and that then shows no position
abbrev world : World Nano
world = record {
  now = 36_000;
  read_client = none;
  account = some demo_account;
  terminal = filling_terminal;
  position = λ ticket. none;
}

abbrev submitted : DemoService Nano
submitted = (submit service world order (some context)).0

abbrev approved_again : DemoService Nano
approved_again = (approve submitted world "R1" "Ann" "again" 36_000).0

abbrev submits : Run service submitted
submits = Run.then_step (Run.idle service) (Step.submits service world order (some context))

run-sent_once_example : sent_for "R1" submitted.client.sent ≤ 1
run-sent_once_example = run-sent_once "R1" refl refl submits

run-WireStep_example :
    WireStep
      (is_open submitted.breaker)
      (sent_ids submitted.client.sent)
      (sent_ids approved_again.client.sent)
run-WireStep_example =
    run-WireStep refl refl submits (Step.approves submitted world "R1" "Ann" "again" 36_000)

abbrev lifecycle : ExecutionLifecycle
lifecycle = create "R1" DemoExecutionState.approved "system" [] 36_000

transmit-sent_example :
    let s' =
      (transmit service world order
        (some request_decision)
        (some signed_proposal)
        lifecycle
        "Ann").0 in
    (s'.client.sent ≡ []) ⊎ IsSent service s' world order (some request_decision)
transmit-sent_example =
    transmit-sent service world order (some request_decision) (some signed_proposal) lifecycle "Ann"

abbrev claimed : DemoService Nano
claimed = begin service order lifecycle "Ann" 36_000

abbrev settled : DemoService Nano × DemoExecutionOutcome Nano
settled =
    settle claimed world order request_decision (some signed_proposal)
      (advance_if_allowed lifecycle DemoExecutionState.submitted "Ann" [] 36_000) "Ann" after_send.0
      after_send.1

settles :
    transmit service world order (some request_decision) (some signed_proposal) lifecycle "Ann"
    ≡ (settled.0, ok settled.1)
unfolding transmit send finish send_market_order verify send_verified to_order_request
settles = refl

abbrev missing_record : ReconciliationRecord
missing_record = reconcile reconciler wire_order after_send.1 none

reconciles : settled.1.reconciliation ≡ some missing_record
unfolding settle begin transmit_payload answered to_result
reconciles = refl

fails : missing_record.status ≡ ReconciliationStatus.position_missing
unfolding reconcile reconcile_executed transmit_payload answered to_result reply_status status_of
fails = refl

failed : is_failure missing_record.status ≡ true
failed = ap is_failure fails

transmit-stops_example : (settled.0.switch.engaged ≡ true) × (is_open settled.0.breaker ≡ true)
transmit-stops_example =
    transmit-stops service settled.0 world order (some request_decision) (some signed_proposal)
      lifecycle "Ann" settled.1 missing_record refl settles reconciles failed

transmit-switch_example :
    (transmit
      (record service { switch = engaged_switch })
      world
      order
      (some request_decision)
      (some signed_proposal)
      lifecycle
      "Ann").0.client
    ≡ settled.0.client
unfolding transmit send finish send_market_order verify send_verified to_order_request settle
transmit-switch_example =
    transmit-switch service engaged_switch world order (some request_decision)
      (some signed_proposal) lifecycle "Ann"
