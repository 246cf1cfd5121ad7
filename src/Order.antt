-- ===== src/Order.antt =====
-- Order requests: the contract of the wire (execution/mt5/order_request.py) and the DEMO contract
-- around it (execution/demo/order.py).
use alm_trading.Base.{ℕ, String, Option, Bool, true, false}

pub data OrderSide : Type 0 where
  buy sell : OrderSide

pub data OrderType : Type 0 where
  market limit stop : OrderType

pub data ExecutionIntent : Type 0 where
  new_entry dca manual_test : ExecutionIntent

abbrev pub is_buy : OrderSide → Bool
is_buy OrderSide.buy = true
is_buy OrderSide.sell = false

abbrev pub intent_is_dca : ExecutionIntent → Bool
intent_is_dca ExecutionIntent.dca = true
intent_is_dca _ = false

abbrev pub intent_is_manual_test : ExecutionIntent → Bool
intent_is_manual_test ExecutionIntent.manual_test = true
intent_is_manual_test _ = false

pub record OrderRequest {ℓ} (F : Type ℓ) : Type ℓ where
  pub symbol : String
  pub side : OrderSide
  pub volume : F
  pub order_type : OrderType
  pub price : Option F
  pub sl : Option F
  pub tp : Option F
  pub comment : String
  pub strategy_id : Option String
  pub signal_id : Option String
  pub timestamp : ℕ
  pub request_id : String
  pub intent : ExecutionIntent
  pub magic_number : ℕ

pub record DemoOrderRequest {ℓ} (F : Type ℓ) : Type ℓ where
  pub request_id : String
  pub symbol : String
  pub side : OrderSide
  pub volume : F
  pub order_type : OrderType
  pub price : Option F
  pub stop_loss : Option F
  pub take_profit : Option F
  pub strategy_id : Option String
  pub strategy_version : Option String
  pub model_version : Option String
  pub feature_version : Option String
  pub signal_id : Option String
  pub risk_snapshot_id : Option String
  pub timestamp : ℕ
  pub reason : String
  pub intent : ExecutionIntent
  pub magic_number : ℕ
  pub comment : String
  pub risk_percent : Option F
  pub risk_amount : Option F
  pub stop_distance : Option F

unfoldable pub to_order_request {ℓ} : {F : Type ℓ} → DemoOrderRequest F → OrderRequest F
to_order_request r = record {
  symbol = r.symbol;
  side = r.side;
  volume = r.volume;
  order_type = r.order_type;
  price = r.price;
  sl = r.stop_loss;
  tp = r.take_profit;
  comment = r.comment;
  strategy_id = r.strategy_id;
  signal_id = r.signal_id;
  timestamp = r.timestamp;
  request_id = r.request_id;
  intent = r.intent;
  magic_number = r.magic_number;
}
