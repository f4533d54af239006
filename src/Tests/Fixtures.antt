-- ===== src/Tests/Fixtures.antt =====
-- A user, an order, a position and a database that the tests share.
use etfpulse.Base.{◌*◌, false, none, some, [], ◌∷◌, Text, codes}
use etfpulse.Decimal.{one}
use etfpulse.Models.{
  sodex_perps, pending, buy, market, ioc, long, open_position, Order, Position, User, Db,
}

abbrev pub user : User
user = record {
  id = 7;
  wallet_address = some (codes "0xabc");
  sodex_account_id = some 100;
  sodex_spot_api_key_name = some (codes "spot");
  sodex_perps_api_key_name = some (codes "perps");
  paper_trade = false;
}

abbrev pub payload : Text
payload = codes "{\"type\":\"newOrder\",\"params\":{}}"

abbrev pub payload_hash : Text
payload_hash = codes "0x0000000000000000000000000000000000000000000000000000000000000000"

-- A well-formed signature.
abbrev pub signature : Text
signature =
    codes
      "0x01ababababababababababababababababababababababababababababababababababababababababababababababababababababababababababababababababab"

-- A pending BUY of two units at 100 on the perps venue.
abbrev pub order : Order
order = record {
  id = 1;
  user_id = some 7;
  signal_id = none;
  venue = sodex_perps;
  asset = codes "BTC";
  side = buy;
  order_type = market;
  time_in_force = ioc;
  requested_size = 2 * one;
  requested_price = some (100 * one);
  filled_size = none;
  filled_price = none;
  filled_value = none;
  status = pending;
  exchange_order_id = none;
  client_order_id = codes "ep-p-1";
  error_message = none;
  paper_trade = false;
  raw_response = none;
  account_id = some 100;
  symbol_id = some 5;
  nonce = some 41;
  nonce_expires_at = some 1000;
  eip712_payload = some payload;
  eip712_payload_hash = some payload_hash;
  eip712_signature = none;
  cancel_nonce = none;
  cancel_eip712_payload = none;
  cancel_eip712_payload_hash = none;
  cancel_eip712_signature = none;
  cancel_submitted_at = none;
  cancel_error_message = none;
  is_conditional = false;
  stop_price = none;
  stop_type = none;
  reduce_only = false;
  parent_order_id = none;
  created_at = 10;
  updated_at = 10;
}

-- Three units held LONG at 90.
abbrev pub position : Position
position = record {
  id = 1;
  user_id = some 7;
  signal_id = none;
  order_id = some 1;
  venue = sodex_perps;
  asset = codes "BTC";
  side = long;
  size = 3 * one;
  entry_price = 90 * one;
  status = open_position;
  paper_trade = false;
  leverage = none;
  closed_at = none;
  close_price = none;
  realized_pnl = none;
}

abbrev pub db : Db
db = record {
  users = user ∷ [];
  orders = order ∷ [];
  positions = position ∷ [];
  breakers = [];
  symbols = [];
  next_order_id = 2;
  next_position_id = 2;
  next_breaker_id = 1;
  sent = [];
}
