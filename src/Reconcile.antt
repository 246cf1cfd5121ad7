-- ===== src/Reconcile.antt =====
-- Reconciliation: what was asked for, what the broker reported, and what the position shows
-- (execution/mt5/reconciliation.py). The table of differences, which only displays read, is left
-- out; a position is what the code reads of one.
pub mod Matched
use alm_trading.Base.{
  ℕ, String, Bool, true, false, not, ◌&&◌, Option, none, some, List, [], ◌∷◌, ◌++◌, ◌==◌,
  if◌then◌else◌, is_some,
}
use alm_trading.Float.{Float}
use alm_trading.Order.{OrderRequest}
use alm_trading.Client.{OrderResult, is_accepted}

pub data ReconciliationStatus : Type 0 where
  matched mismatched position_missing not_applicable : ReconciliationStatus

pub record Position {ℓ} (F : Type ℓ) : Type ℓ where
  pub ticket : ℕ
  pub volume : F
  pub profit : Option F
  pub stop_loss : Option F
  pub take_profit : Option F

pub record ReconciliationRecord : Type 0 where
  pub request_id : String
  pub status : ReconciliationStatus
  pub broker_ticket : Option ℕ
  pub symbol : String
  pub checks : List (String × Bool)
  pub reasons : List String

pub record Reconciler {ℓ} (F : Type ℓ) : Type ℓ where
  pub volume_tolerance : F
  pub price_tolerance : F

-- the property `matched`
abbrev pub is_matched : ReconciliationStatus → Bool
is_matched ReconciliationStatus.matched = true
is_matched _ = false

-- `position.ticket == result.broker_ticket`
abbrev pub same_ticket : ℕ → Option ℕ → Bool
same_ticket t none = false
same_ticket t (some u) = t == u

-- `all(checks.values())`
abbrev pub all_true : List (String × Bool) → Bool
all_true [] = true
all_true ((name, b) ∷ rest) = b && all_true rest

abbrev pub unless : Bool → String → List String
unless b code = if b then [] else code ∷ []

module _ {ℓ} {F : Type ℓ} ⦃f : Float F⦄ where
  open f use {le, sub, abs}

  -- `abs(a - b) <= tolerance`
  abbrev pub near : F → F → F → Bool
  near tolerance a b = le (abs (sub a b)) tolerance

  unfoldable pub price_check : F → Option F → Option F → Bool
  price_check tolerance (some asked) (some price) = near tolerance price asked
  price_check tolerance _ price = is_some price

  price_reason : Option F → Option F → String
  price_reason (some asked) (some price) = "PRICE_DEVIATION"
  price_reason _ _ = "MISSING_FILL_PRICE"

  -- a stop that was not asked for is not compared
  unfoldable pub stop_check : F → Option F → Option F → Bool
  stop_check tolerance none actual = true
  stop_check tolerance (some asked) none = false
  stop_check tolerance (some asked) (some actual) = near tolerance actual asked

  stop_reason : String → String → Option F → String
  stop_reason not_set mismatch none = not_set
  stop_reason not_set mismatch (some actual) = mismatch

  -- the comparisons of the request with the result
  unfoldable pub result_checks :
      Reconciler F → OrderRequest F → OrderResult F → List (String × Bool)
  unfolding price_check
  result_checks c request result =
      ("ticket", is_some result.broker_ticket)
      ∷ ("volume", near c.volume_tolerance result.filled_volume request.volume)
      ∷ ("price", price_check c.price_tolerance request.price result.filled_price)
      ∷ []

  unfoldable pub result_reasons : Reconciler F → OrderRequest F → OrderResult F → List String
  unfolding price_check price_reason
  result_reasons c request result =
      unless (is_some result.broker_ticket) "MISSING_BROKER_TICKET"
      ++ (unless (near c.volume_tolerance result.filled_volume request.volume) "VOLUME_MISMATCH"
          ++ unless (price_check c.price_tolerance request.price result.filled_price)
              (price_reason request.price result.filled_price))

  -- the comparisons with the position
  unfoldable pub position_checks :
      Reconciler F → OrderRequest F → OrderResult F → Position F → List (String × Bool)
  unfolding stop_check
  position_checks c request result position =
      ("position", true)
      ∷ ("position_volume", near c.volume_tolerance position.volume result.filled_volume)
      ∷ ("position_ticket", same_ticket position.ticket result.broker_ticket)
      ∷ ("pnl", is_some position.profit)
      ∷ ("sl", stop_check c.price_tolerance request.sl position.stop_loss)
      ∷ ("tp", stop_check c.price_tolerance request.tp position.take_profit)
      ∷ []

  unfoldable pub position_reasons :
      Reconciler F → OrderRequest F → OrderResult F → Position F → List String
  unfolding stop_check stop_reason
  position_reasons c request result position =
      unless (near c.volume_tolerance position.volume result.filled_volume)
        "POSITION_VOLUME_MISMATCH"
      ++ (unless (same_ticket position.ticket result.broker_ticket) "POSITION_TICKET_MISMATCH"
          ++ (unless (is_some position.profit) "PNL_UNAVAILABLE"
              ++ (unless (stop_check c.price_tolerance request.sl position.stop_loss)
                    (stop_reason "SL_NOT_SET" "SL_MISMATCH" position.stop_loss)
                  ++ unless (stop_check c.price_tolerance request.tp position.take_profit)
                      (stop_reason "TP_NOT_SET" "TP_MISMATCH" position.take_profit))))

  -- `reconcile`, for an order that was executed
  unfoldable pub reconcile_executed :
      Reconciler F → OrderRequest F → OrderResult F → Option (Position F) → ReconciliationRecord
  reconcile_executed c request result none = record {
    request_id = request.request_id;
    status = ReconciliationStatus.position_missing;
    broker_ticket = result.broker_ticket;
    symbol = request.symbol;
    checks = result_checks c request result ++ (("position", false) ∷ []);
    reasons = result_reasons c request result ++ ("POSITION_MISSING" ∷ []);
  }
  reconcile_executed c request result (some position) =
      let checks = result_checks c request result ++ position_checks c request result position in
      record {
        request_id = request.request_id;
        status =
            if all_true checks
            then ReconciliationStatus.matched
            else ReconciliationStatus.mismatched;
        broker_ticket = result.broker_ticket;
        symbol = request.symbol;
        checks = checks;
        reasons = result_reasons c request result ++ position_reasons c request result position;
      }

  unfoldable pub reconcile :
      Reconciler F → OrderRequest F → OrderResult F → Option (Position F) → ReconciliationRecord
  reconcile c request result position =
      if not (is_accepted result.status)
      then record {
        request_id = request.request_id;
        status = ReconciliationStatus.not_applicable;
        broker_ticket = none;
        symbol = request.symbol;
        checks = ("executed", false) ∷ [];
        reasons = "ORDER_NOT_EXECUTED" ∷ [];
      }
      else reconcile_executed c request result position
