-- ===== src/Models/Rows.antt =====
-- The rows: models/order.py, models/position.py, models/user.py, models/regime.py and
-- models/sodex_symbol.py, with the columns that the execution code uses. Times count microseconds.
use etfpulse.Base.{ℕ, Bool, Option, Text}
use etfpulse.Base.Int.{ℤ}
use etfpulse.Decimal.{Decimal}
use etfpulse.Models.Enums.{
  Venue, OrderStatus, OrderSide, OrderType, TimeInForce, StopType, PositionStatus, PositionSide,
  Trigger,
}

-- `exchange_order_id` holds the venue's integer, printed, or "PAPER-" with the order's id.
pub data ExchangeId : Type 0 where
  venue_id paper_id : ℕ → ExchangeId

-- The JSON objects that are stored in `raw_response`.
pub data RawResponse : Type 0 where
  auth_error envelope_error : Text → RawResponse
  unexpected_item_count : ℕ → RawResponse
  item_result : ℤ → Option ℕ → RawResponse

pub record Order : Type 0 where
  pub id : ℕ
  pub user_id : Option ℕ
  pub signal_id : Option ℕ
  pub venue : Venue
  pub asset : Text
  pub side : OrderSide
  pub order_type : OrderType
  pub time_in_force : TimeInForce
  pub requested_size : Decimal
  pub requested_price : Option Decimal
  pub filled_size : Option Decimal
  pub filled_price : Option Decimal
  pub filled_value : Option Decimal
  pub status : OrderStatus
  pub exchange_order_id : Option ExchangeId
  pub client_order_id : Text
  pub error_message : Option Text
  pub paper_trade : Bool
  pub raw_response : Option RawResponse
  pub account_id : Option ℕ
  pub symbol_id : Option ℕ
  pub nonce : Option ℕ
  pub nonce_expires_at : Option ℕ
  pub eip712_payload : Option Text
  pub eip712_payload_hash : Option Text
  pub eip712_signature : Option Text
  pub cancel_nonce : Option ℕ
  pub cancel_eip712_payload : Option Text
  pub cancel_eip712_payload_hash : Option Text
  pub cancel_eip712_signature : Option Text
  pub cancel_submitted_at : Option ℕ
  pub cancel_error_message : Option Text
  pub is_conditional : Bool
  pub stop_price : Option Decimal
  pub stop_type : Option StopType
  pub reduce_only : Bool
  pub parent_order_id : Option ℕ
  pub created_at : ℕ
  pub updated_at : ℕ

pub record Position : Type 0 where
  pub id : ℕ
  pub user_id : Option ℕ
  pub signal_id : Option ℕ
  pub order_id : Option ℕ
  pub venue : Venue
  pub asset : Text
  pub side : PositionSide
  pub size : Decimal
  pub entry_price : Decimal
  pub status : PositionStatus
  pub paper_trade : Bool
  pub leverage : Option Decimal
  pub closed_at : Option ℕ
  pub close_price : Option Decimal
  pub realized_pnl : Option ℤ

pub record User : Type 0 where
  pub id : ℕ
  pub wallet_address : Option Text
  pub sodex_account_id : Option ℕ
  pub sodex_spot_api_key_name : Option Text
  pub sodex_perps_api_key_name : Option Text
  pub paper_trade : Bool

pub record CircuitBreaker : Type 0 where
  pub id : ℕ
  pub user_id : Option ℕ
  pub trigger_type : Trigger
  pub triggered_at : ℕ
  pub resolved_at : Option ℕ
  pub resolved_by : Option Text

pub record SodexSymbol : Type 0 where
  pub venue : Venue
  pub asset : Text
  pub symbol_id : ℕ
  pub refreshed_at : ℕ
