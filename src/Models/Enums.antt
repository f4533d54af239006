-- ===== src/Models/Enums.antt =====
-- The enumerations of backend/etfpulse/models and of backend/etfpulse/adapters/sodex/schemas.py.
use etfpulse.Base.{ℕ, zero, suc, Bool, true, false, Option, none, some}

-- `unknown_venue` is any string that is no value of `Venue`: columns and requests hold strings.
pub data Venue : Type 0 where
  sodex_spot sodex_perps unknown_venue : Venue

pub data OrderStatus : Type 0 where
  pending submitted acked partially_filled filled cancelled rejected expired : OrderStatus

-- `unknown_side` is any string that is no value of `OrderSide`: the column has no CHECK.
pub data OrderSide : Type 0 where
  buy sell unknown_side : OrderSide

pub data OrderType : Type 0 where
  market limit : OrderType

pub data TimeInForce : Type 0 where
  gtc ioc fok gtx : TimeInForce

pub data StopType : Type 0 where
  stop_loss take_profit : StopType

pub data PositionStatus : Type 0 where
  open_position closed_position cancelled_position : PositionStatus

pub data PositionSide : Type 0 where
  long short : PositionSide

pub data Trigger : Type 0 where
  macro_event manual daily_loss_limit : Trigger

abbrev pub venue_eq : Venue → Venue → Bool
venue_eq sodex_spot sodex_spot = true
venue_eq sodex_perps sodex_perps = true
venue_eq unknown_venue unknown_venue = true
venue_eq _ _ = false

abbrev pub side_eq : OrderSide → OrderSide → Bool
side_eq buy buy = true
side_eq sell sell = true
side_eq unknown_side unknown_side = true
side_eq _ _ = false

abbrev pub position_side_eq : PositionSide → PositionSide → Bool
position_side_eq long long = true
position_side_eq short short = true
position_side_eq _ _ = false

abbrev pub trigger_eq : Trigger → Trigger → Bool
trigger_eq macro_event macro_event = true
trigger_eq manual manual = true
trigger_eq daily_loss_limit daily_loss_limit = true
trigger_eq _ _ = false

-- `status in TERMINAL_ORDER_STATUSES`
abbrev pub is_terminal : OrderStatus → Bool
is_terminal filled = true
is_terminal cancelled = true
is_terminal rejected = true
is_terminal expired = true
is_terminal _ = false

abbrev pub is_open : PositionStatus → Bool
is_open open_position = true
is_open _ = false

abbrev pub is_spot : Venue → Bool
is_spot sodex_spot = true
is_spot _ = false

abbrev pub is_perps : Venue → Bool
is_perps sodex_perps = true
is_perps _ = false

-- The integers of the gateway's `OrderSide`, `OrderType` and `TimeInForce`, as the maps
-- `_SODEX_TO_DB_SIDE`, `_SODEX_TO_DB_TYPE` and `_SODEX_TO_DB_TIF` translate them.
abbrev pub sodex_to_db_side : ℕ → Option OrderSide
sodex_to_db_side (suc zero) = some buy
sodex_to_db_side (suc (suc zero)) = some sell
sodex_to_db_side _ = none

abbrev pub sodex_to_db_type : ℕ → Option OrderType
sodex_to_db_type (suc zero) = some limit
sodex_to_db_type (suc (suc zero)) = some market
sodex_to_db_type _ = none

abbrev pub sodex_to_db_tif : ℕ → Option TimeInForce
sodex_to_db_tif (suc zero) = some gtc
sodex_to_db_tif (suc (suc zero)) = some fok
sodex_to_db_tif (suc (suc (suc zero))) = some ioc
sodex_to_db_tif (suc (suc (suc (suc zero)))) = some gtx
sodex_to_db_tif _ = none

-- `_DB_TO_SODEX_STOP_TYPE`
abbrev pub db_to_sodex_stop_type : StopType → ℕ
db_to_sodex_stop_type stop_loss = 1
db_to_sodex_stop_type take_profit = 2
