-- ===== src/Risk/Requests.antt =====
-- The values that the risk controller takes and returns: `RiskRequest`, `RiskDecision`, and the
-- settings that it reads.
use etfpulse.Base.{ℕ, Bool, false, Option, none, some, Text}
use etfpulse.Decimal.{Decimal}
use etfpulse.Models.{Venue, StopType, Trigger}

-- The caps of `settings`, from backend/etfpulse/config.py.
pub record Settings : Type 0 where
  pub execution_max_open_orders_per_user : ℕ
  pub execution_daily_notional_usd_cap : Decimal
  pub execution_per_symbol_notional_usd_cap : Decimal
  pub execution_max_leverage : Decimal

pub record RiskRequest : Type 0 where
  pub venue : Venue
  pub asset : Text
  pub side : ℕ
  pub order_type : ℕ
  pub time_in_force : ℕ
  pub requested_size : Decimal
  pub requested_price : Option Decimal
  pub position_side : Option ℕ
  pub trigger_type : Option ℕ
  pub leverage : Option Decimal
  pub is_conditional : Bool
  pub stop_price : Option Decimal
  pub stop_type : Option StopType
  pub reduce_only : Bool
  pub parent_order_id : Option ℕ

-- The `reason` strings.
pub data Reason : Type 0 where
  wallet_not_bound sodex_account_not_cached unsupported_venue api_key_not_registered : Reason
  global_breaker_active per_user_breaker_active : Reason
  unsupported_time_in_force unsupported_trigger_type unsupported_position_side : Reason
  perps_leverage_missing leverage_above_cap spot_leverage_not_allowed : Reason
  stop_price_perps_only reduce_only_perps_only stop_requires_trigger_type : Reason
  parent_order_not_found parent_order_mismatch parent_order_terminal : Reason
  parent_order_same_side parent_requires_reduce_only : Reason
  open_order_cap_exceeded missing_requested_price : Reason
  daily_notional_cap_exceeded per_symbol_notional_cap_exceeded : Reason

-- `detail` is a text for people, and is left out.
pub record RiskDecision : Type 0 where
  pub allow : Bool
  pub reason : Option Reason
  pub breaker_trigger : Option Trigger

-- `_deny`
abbrev pub deny : Reason → Option RiskDecision
deny r = some (record { allow = false; reason = some r; breaker_trigger = none })

abbrev pub deny_breaker : Reason → Trigger → Option RiskDecision
deny_breaker r t = some (record { allow = false; reason = some r; breaker_trigger = some t })
