-- ===== src/Client.antt =====
-- The order client, the one component that transmits (execution/mt5/execution_client.py,
-- order_result.py), and the state a result stands for (execution/demo/states.py). The terminal is
-- not the repository's: what it answers is a parameter, and `sent` records the calls of its
-- `order_send`.
pub mod Send
pub mod Sent
use alm_trading.Base.{
  ℕ, String, Bool, true, false, not, ◌&&◌, ◌||◌, Option, none, some, List, [], ◌∷◌, ◌==◌,
  if◌then◌else◌, is_empty, join, or_text, is_blank,
}
use alm_trading.Float.{Float, nought, truthy}
use alm_trading.Order.{OrderRequest, OrderSide}
use alm_trading.Account.{Mt5Account}
use alm_trading.Lifecycle.{DemoExecutionState}

pub data ExecutionStatus : Type 0 where
  rejected submitted filled partial failed blocked : ExecutionStatus

-- `error_code`: a stated code, or the text MT5_RETCODE_n of a code of the broker
pub data ErrorCode : Type 0 where
  stated : String → ErrorCode
  mt5_retcode : ℕ → ErrorCode

pub record OrderResult {ℓ} (F : Type ℓ) : Type ℓ where
  pub request_id : String
  pub status : ExecutionStatus
  pub symbol : String
  pub side : OrderSide
  pub requested_volume : F
  pub filled_volume : F
  pub requested_price : Option F
  pub filled_price : Option F
  pub sl : Option F
  pub tp : Option F
  pub broker_ticket : Option ℕ
  pub error_code : Option ErrorCode
  pub error_message : Option String
  pub reasons : List String
  pub environment : String

-- the property `accepted`
abbrev pub is_accepted : ExecutionStatus → Bool
is_accepted ExecutionStatus.filled = true
is_accepted ExecutionStatus.partial = true
is_accepted ExecutionStatus.submitted = true
is_accepted _ = false

-- `payload`, less the constants of the protocol
pub record Payload {ℓ} (F : Type ℓ) : Type ℓ where
  pub symbol : String
  pub volume : F
  pub order_type : ℕ
  pub magic : ℕ
  pub comment : String
  pub price : Option F
  pub sl : Option F
  pub tp : Option F

-- what `order_send` returned, a missing field being `none`
pub record Reply {ℓ} (F : Type ℓ) : Type ℓ where
  pub retcode : Option ℕ
  pub volume : Option F
  pub price : Option F
  pub order : Option ℕ
  pub deal : Option ℕ
  pub ticket : Option ℕ
  pub comment : Option String

-- how a call of `order_send` ends: with an exception of a type, with no result, or with one
pub data Answer {ℓ} (F : Type ℓ) : Type ℓ where
  raised : String → Answer F
  nothing : Answer F
  replied : Reply F → Answer F

pub record Terminal {ℓ} (F : Type ℓ) : Type ℓ where
  -- what `get_account` reads, and whether the package is loaded
  pub account : Option (Mt5Account F)
  pub available : Bool
  -- `_broker_symbol`
  pub broker_symbol : String → String
  pub order_send : Payload F → Answer F

-- `_results` by request, and the calls of `order_send`, with the request that each was made for
pub record ExecutionClient {ℓ} (F : Type ℓ) : Type ℓ where
  pub environment : String
  pub magic_number : ℕ
  pub results : List (String × OrderResult F)
  pub sent : List (String × Payload F)

module _ {ℓ} {F : Type ℓ} ⦃f : Float F⦄ where
  -- `OrderResult.blocked_by`, for codes that are not empty
  unfoldable pub blocked_by : OrderRequest F → String → ExecutionStatus → OrderResult F
  blocked_by request code status = record {
    request_id = request.request_id;
    status = status;
    symbol = request.symbol;
    side = request.side;
    requested_volume = request.volume;
    filled_volume = nought;
    requested_price = request.price;
    filled_price = none;
    sl = request.sl;
    tp = request.tp;
    broker_ticket = none;
    error_code = some (ErrorCode.stated code);
    error_message = some code;
    reasons = code ∷ [];
    environment = "DEMO";
  }

  -- a result without a reply
  unfoldable pub failure : OrderRequest F → String → String → String → OrderResult F
  failure request code message environment = record {
    request_id = request.request_id;
    status = ExecutionStatus.failed;
    symbol = request.symbol;
    side = request.side;
    requested_volume = request.volume;
    filled_volume = nought;
    requested_price = none;
    filled_price = none;
    sl = none;
    tp = none;
    broker_ticket = none;
    error_code = some (ErrorCode.stated code);
    error_message = some message;
    reasons = [];
    environment = environment;
  }

-- `state_for_result`
unfoldable pub state_for_result : ExecutionStatus → DemoExecutionState
state_for_result ExecutionStatus.filled = DemoExecutionState.filled
state_for_result ExecutionStatus.partial = DemoExecutionState.partially_filled
state_for_result ExecutionStatus.submitted = DemoExecutionState.accepted
state_for_result ExecutionStatus.rejected = DemoExecutionState.rejected
state_for_result ExecutionStatus.blocked = DemoExecutionState.blocked
state_for_result ExecutionStatus.failed = DemoExecutionState.error
