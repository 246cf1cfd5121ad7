-- ===== src/Examples/Wire.antt =====
-- The theorems on the order client and on reconciliation, run on an order that the terminal fills.
use alm_trading.Base.{◌≡◌, ◌⊎◌, refl, true, Option, none, some, [], ◌∷◌, ◌++◌, ok}
use alm_trading.Float.Nano.{Nano, nano_float}
use alm_trading.Order.{OrderRequest, to_order_request}
use alm_trading.Guard.{GuardDecision}
use alm_trading.Client.{OrderResult, Reply, Answer, Terminal, ExecutionClient, is_accepted}
use alm_trading.Client.Send.{
  verify, payload_of, status_of, reply_status, to_result, answered, transmit, send_verified,
  send_market_order,
}
use alm_trading.Client.Sent.{
  IsPermitted, IsExecuted, send_market_order-sent, send_market_order-IsExecuted,
}
use alm_trading.Reconcile.{
  Position, Reconciler, is_matched, price_check, stop_check, result_checks, position_checks,
  reconcile_executed, reconcile,
}
use alm_trading.Reconcile.Matched.{Agrees, reconcile-Agrees}
use alm_trading.Examples.{demo_account, order, dec}

-- a terminal that fills every order
abbrev filled_reply : Reply Nano
filled_reply = record {
  retcode = some 10_009;
  volume = some (dec 1 1);
  price = some (dec 11001 4);
  order = some 77;
  deal = none;
  ticket = none;
  comment = none;
}

abbrev pub filling_terminal : Terminal Nano
filling_terminal = record {
  account = some demo_account;
  available = true;
  broker_symbol = λ s. s;
  order_send = λ p. Answer.replied filled_reply;
}

abbrev pub client : ExecutionClient Nano
client = record { environment = "DEMO"; magic_number = 7; results = []; sent = [] }

abbrev approval : Option GuardDecision
approval =
    some (record {
      approved = true;
      request_id = "R1";
      reasons = [];
      checks = [];
      environment = "DEMO";
    })

abbrev pub wire_order : OrderRequest Nano
wire_order = to_order_request order

-- what the call leaves and returns
abbrev pub after_send : ExecutionClient Nano × OrderResult Nano
after_send = transmit client filling_terminal wire_order

sends :
    send_market_order client filling_terminal wire_order approval ≡ ok (after_send.0, after_send.1)
unfolding send_market_order verify send_verified to_order_request
sends = refl

accepted : is_accepted after_send.1.status ≡ true
unfolding transmit answered to_result reply_status status_of
accepted = refl

send_market_order-sent_example :
    (after_send.0.sent ≡ [])
    ⊎ (IsPermitted filling_terminal wire_order approval
        × (after_send.0.sent
            ≡ [] ++ ((wire_order.request_id, payload_of client filling_terminal wire_order) ∷ [])))
send_market_order-sent_example =
    send_market_order-sent client after_send.0 filling_terminal wire_order approval after_send.1
      sends

send_market_order-IsExecuted_example : IsExecuted client filling_terminal wire_order after_send.1
send_market_order-IsExecuted_example =
    send_market_order-IsExecuted client after_send.0 filling_terminal wire_order approval
      after_send.1 sends accepted

abbrev pub reconciler : Reconciler Nano
reconciler = record { volume_tolerance = dec 1 4; price_tolerance = dec 1 3 }

abbrev position : Position Nano
position = record {
  ticket = 77;
  volume = dec 1 1;
  profit = some (dec 0 0);
  stop_loss = some (dec 10900 4);
  take_profit = some (dec 11200 4);
}

matches : is_matched (reconcile reconciler wire_order after_send.1 (some position)).status ≡ true
unfolding reconcile reconcile_executed result_checks position_checks price_check stop_check transmit
    answered to_result reply_status status_of to_order_request
matches = refl

reconcile-Agrees_example : Agrees reconciler wire_order after_send.1 (some position)
reconcile-Agrees_example =
    reconcile-Agrees reconciler wire_order after_send.1 (some position) matches
