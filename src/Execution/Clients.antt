-- ===== src/Execution/Clients.antt =====
-- What the orchestrator calls and what it returns: the gateway clients of
-- backend/etfpulse/adapters/sodex, and `PrepareResult` and `SubmitResult` of pipeline.py.
use etfpulse.Base.{ℕ, Bool, Option, List, Text}
use etfpulse.Base.Int.{ℤ}
use etfpulse.Decimal.{Decimal}
use etfpulse.Risk.Requests.{Reason}
use etfpulse.Models.{OrderStatus, ExchangeId, Sent, Venue, Trigger, Constraint}

-- One entry of the gateway's answer to a batch.
pub record BatchItem : Type 0 where
  pub code : ℤ
  pub order_id : Option ℕ
  pub error : Option Text

-- A client's call returns the items, or raises: SodexAuthError, SodexEnvelopeError, or another
-- exception.
pub data Answer : Type 0 where
  items : List BatchItem → Answer
  sodex_auth_error sodex_envelope_error : Text → Answer
  other_error : ℕ → Answer

-- The two clients, as the answer of the venue to a write after the writes before it.
abbrev pub Gateway : Type 0
Gateway = List Sent → Sent → Answer

-- `TypedDataBundle`: `typed_data` is for the wallet, and is left out.
pub record Bundle : Type 0 where
  pub payload_json : Text
  pub payload_hash : Text

-- What only a perps order says: `stopPrice`, `stopType`, `triggerType`, `reduceOnly`, `positionSide`.
pub record PerpsFields : Type 0 where
  pub stop_price : Option Decimal
  pub stop_type : Option ℕ
  pub trigger_type : Option ℕ
  pub reduce_only : Bool
  pub position_side : ℕ

-- A request for one new order, of the spot venue where there are no perps fields.
pub record NewOrder : Type 0 where
  pub account_id : ℕ
  pub symbol_id : ℕ
  pub cl_ord_id : Text
  pub side : ℕ
  pub order_type : ℕ
  pub time_in_force : ℕ
  pub price : Option Decimal
  pub quantity : Decimal
  pub perps : Option PerpsFields

-- The item of a cancel request: symbol, venue's order id and client order id.
pub record CancelRequest : Type 0 where
  pub venue : Venue
  pub account_id : ℕ
  pub symbol_id : ℕ
  pub order_id : Option ℕ
  pub cl_ord_id : Text

-- The environment of a call: the clock in microseconds, the setting of the paper fills, the venue,
-- whether the text of an integrity error names `client_order_id`, the random tokens of the attempts
-- of an insert, the builders of signed payloads (each validates its request, and raises on one that
-- it refuses), and whether `json.loads` reads a text as an object with the keys "type" and "params".
pub record Env : Type 0 where
  pub now : ℕ
  pub execution_paper_slippage_bps : ℕ
  pub gateway : Gateway
  pub names_client_order_id : Constraint → Bool
  pub token : ℕ → Text
  pub build_new_order : NewOrder → ℕ → Option Bundle
  pub build_cancel_order : CancelRequest → ℕ → Option Bundle
  pub is_action_json : Text → Bool

-- `PrepareResult` of `prepare_new`.
pub record PrepareNewResult : Type 0 where
  pub allow : Bool
  pub order_id : Option ℕ
  pub client_order_id : Option Text
  pub nonce : Option ℕ
  pub reason : Option Reason
  pub breaker_trigger : Option Trigger

-- The reasons of `prepare_cancel`.
pub data CancelReason : Type 0 where
  unauthorized cancel_blocked_in_flight user_not_found : CancelReason

pub record PrepareCancelResult : Type 0 where
  pub allow : Bool
  pub order_id : Option ℕ
  pub client_order_id : Option Text
  pub nonce : Option ℕ
  pub local_only : Bool
  pub replayed : Bool
  pub reason : Option CancelReason

pub record SubmitResult : Type 0 where
  pub status : OrderStatus
  pub order_id : ℕ
  pub exchange_order_id : Option ExchangeId
  pub error_message : Option Text
  pub replayed : Bool
