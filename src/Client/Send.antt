-- ===== src/Client/Send.antt =====
-- Sending a market order (execution/mt5/execution_client.py, `_verify`, `send_market_order`,
-- `_to_result`, `_record`).
use alm_trading.Base.{
  ℕ, String, Bool, true, false, not, ◌&&◌, Option, none, some, List, [], ◌∷◌, ◌++◌, ◌==◌,
  if◌then◌else◌, or_else, or_text, is_blank, Result, ok, raise, transport_error, string_eq, ◌=?◌,
}
use alm_trading.Float.{Float, nought, truthy}
use alm_trading.Order.{OrderRequest, OrderType, is_buy}
use alm_trading.Account.{Mt5Account, is_real_mode}
use alm_trading.Guard.{GuardDecision}
use alm_trading.Client.{
  ExecutionStatus, ErrorCode, OrderResult, Payload, Reply, Answer, Terminal, ExecutionClient,
  blocked_by, failure,
}

-- `x or 0`, and `x or y` for numbers that may be missing or 0
abbrev or_zero : Option ℕ → ℕ
or_zero x = or_else x 0

abbrev or_next : Option ℕ → Option ℕ → Option ℕ
or_next x y = if or_zero x == 0 then y else x

abbrev pub non_zero : Option ℕ → Option ℕ
non_zero x = if or_zero x == 0 then none else x

abbrev pub is_market : OrderType → Bool
is_market OrderType.market = true
is_market _ = false

abbrev pub is_rejected : ExecutionStatus → Bool
is_rejected ExecutionStatus.rejected = true
is_rejected _ = false

abbrev pub is_executed : ExecutionStatus → Bool
is_executed ExecutionStatus.filled = true
is_executed ExecutionStatus.partial = true
is_executed _ = false

-- the status that a code of the broker stands for
unfoldable pub status_of : ℕ → ExecutionStatus
status_of retcode =
    if retcode == 10_009
    then ExecutionStatus.filled
    else if retcode == 10_010
    then ExecutionStatus.partial
    else ExecutionStatus.rejected

module _ {ℓ} {F : Type ℓ} where
  -- `_verify`: whether it returns
  unfoldable pub verify : OrderRequest F → Option GuardDecision → Bool
  verify request none = false
  verify request (some approval) =
      if not approval.approved then false else approval.request_id =? request.request_id

  unfoldable pub put_result :
      String → OrderResult F → List (String × OrderResult F) → List (String × OrderResult F)
  put_result key r [] = (key, r) ∷ []
  put_result key r ((k, s) ∷ rest) =
      let others = put_result key r rest in if key =? k then (k, r) ∷ rest else (k, s) ∷ others

  -- `_record`
  abbrev pub recorded : ExecutionClient F → OrderResult F → ExecutionClient F
  recorded c r = record c { results = put_result r.request_id r c.results }

  unfoldable pub payload_of : ExecutionClient F → Terminal F → OrderRequest F → Payload F
  payload_of c t request = record {
    symbol = t.broker_symbol request.symbol;
    volume = request.volume;
    order_type = if is_buy request.side then 0 else 1;
    magic = if request.magic_number == 0 then c.magic_number else request.magic_number;
    comment = request.comment;
    price = request.price;
    sl = request.sl;
    tp = request.tp;
  }

module _ {ℓ} {F : Type ℓ} ⦃f : Float F⦄ where
  open f use {le}

  -- the status of a reply: without a volume, an executed order is only submitted
  unfoldable pub reply_status : ℕ → F → ExecutionStatus
  reply_status retcode volume =
      let status = status_of retcode in
      if not (is_rejected status) && le volume nought then ExecutionStatus.submitted else status

  -- `float(price) if price else None`
  abbrev priced : Option F → Option F
  priced none = none
  priced (some p) = if truthy p then some p else none

  unfoldable pub to_result : OrderRequest F → String → Reply F → OrderResult F
  to_result request environment raw =
      let retcode = or_zero raw.retcode in
      let volume = or_else raw.volume nought in
      let status = reply_status retcode volume in
      let text = or_text raw.comment "" in
      record {
        request_id = request.request_id;
        status = status;
        symbol = request.symbol;
        side = request.side;
        requested_volume = request.volume;
        filled_volume = volume;
        requested_price = request.price;
        filled_price = priced raw.price;
        sl = request.sl;
        tp = request.tp;
        broker_ticket = non_zero (or_next raw.order (or_next raw.deal raw.ticket));
        error_code = if is_executed status then none else some (ErrorCode.mt5_retcode retcode);
        error_message = if is_blank text then none else some text;
        reasons = [];
        environment = environment;
      }

  unfoldable pub answered : OrderRequest F → String → Answer F → OrderResult F
  answered request environment (Answer.raised name) =
      failure request "ORDER_SEND_EXCEPTION" name environment
  answered request environment Answer.nothing =
      failure request "NO_RESULT" "terminal returned no result" environment
  answered request environment (Answer.replied raw) = to_result request environment raw

  -- the call of `order_send` itself
  unfoldable pub transmit :
      ExecutionClient F → Terminal F → OrderRequest F → ExecutionClient F × OrderResult F
  transmit c t request =
      let payload = payload_of c t request in
      let result = answered request c.environment (t.order_send payload) in
      (recorded (record c { sent = c.sent ++ ((request.request_id, payload) ∷ []) }) result, result)

  -- the last line of defence: the account is read again
  unfoldable pub send_verified :
      ExecutionClient F
      → Terminal F
      → OrderRequest F
      → Option (Mt5Account F)
      → ExecutionClient F × OrderResult F
  send_verified c t request none =
      let r = blocked_by request "ACCOUNT_UNAVAILABLE" ExecutionStatus.blocked in (recorded c r, r)
  send_verified c t request (some account) =
      let real = blocked_by request "ACCOUNT_IS_REAL" ExecutionStatus.blocked in
      let absent = blocked_by request "MT5_TERMINAL_NOT_AVAILABLE" ExecutionStatus.failed in
      if is_real_mode account.trade_mode
      then (recorded c real, real)
      else if not t.available
      then (recorded c absent, absent)
      else transmit c t request

  unfoldable pub send_market_order :
      ExecutionClient F
      → Terminal F
      → OrderRequest F
      → Option GuardDecision
      → Result (ExecutionClient F × OrderResult F)
  send_market_order c t request approval =
      if not (verify request approval)
      then raise transport_error
      else if not (is_market request.order_type)
      then ok (c, blocked_by request "UNSUPPORTED_ORDER_TYPE" ExecutionStatus.rejected)
      else ok (send_verified c t request t.account)
