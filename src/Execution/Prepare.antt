-- ===== src/Execution/Prepare.antt =====
-- `prepare_new` with `_make_client_order_id`, `_build_new_order_bundle` and
-- `_insert_order_with_clordid_retry`; and `resolve_symbol_id` of symbols.py.
use etfpulse.Base.{
  ℕ, zero, suc, ◌+◌, ◌*◌, ◌/◌, Bool, true, false, not, ◌&&◌, Option, none, some, List, [], ◌∷◌,
  ◌++◌, Text, text_eq, codes, any, leb, ◌==◌, if◌then◌else◌,
}
use etfpulse.Models.{
  Venue, sodex_spot, sodex_perps, unknown_venue, venue_eq, OrderSide, OrderType, TimeInForce,
  StopType, pending, Order, User, SodexSymbol, Action, Result, ok, raised, Exn, pure, raise, gets,
  or_raise, value_error, key_error, symbol_not_resolved, integrity_error, client_order_id_unique,
  order_check, Constraint, sodex_to_db_side, sodex_to_db_type, sodex_to_db_tif,
  db_to_sodex_stop_type, ◌>>=◌,
}
use etfpulse.Models.Checks.{order_checks}
use etfpulse.Nonce.{next_nonce_for_user}
use etfpulse.Risk.{Settings, RiskRequest, RiskDecision, check_order}
use etfpulse.Execution.Clients.{Env, Bundle, NewOrder, PerpsFields, PrepareNewResult}

-- `order_by(refreshed_at.desc()).limit(1)`
abbrev pub fresher : SodexSymbol → Option SodexSymbol → Option SodexSymbol
fresher s none = some s
fresher s (some t) = if leb t.refreshed_at s.refreshed_at then some s else some t

abbrev pub freshest : Venue → Text → List SodexSymbol → Option SodexSymbol
freshest venue asset [] = none
freshest venue asset (s ∷ ss) =
    let rest = freshest venue asset ss in
    if venue_eq s.venue venue && text_eq s.asset asset then fresher s rest else rest

unfoldable pub resolve_symbol_id : Venue → Text → Action ℕ
resolve_symbol_id venue asset db = elim (freshest venue asset db.symbols) [
  | none ↦ raise (symbol_not_resolved venue asset) db
  | some s ↦ pure s.symbol_id db
]

-- `_make_client_order_id`
unfoldable pub make_client_order_id : Venue → Text → Action Text
make_client_order_id sodex_spot token = pure (codes "ep-s-" ++ token)
make_client_order_id sodex_perps token = pure (codes "ep-p-" ++ token)
make_client_order_id unknown_venue token = raise value_error

abbrev pub wire_stop_type : Option StopType → Option ℕ
wire_stop_type none = none
wire_stop_type (some t) = some (db_to_sodex_stop_type t)

-- The perps part of a request: none on spot, and a perps order without a position side is refused.
abbrev pub perps_part : RiskRequest → Venue → Action (Option PerpsFields)
perps_part r sodex_spot = pure none
perps_part r unknown_venue = raise value_error
perps_part r sodex_perps = or_raise r.position_side value_error >>= λ side. pure (
    some (record {
      stop_price = r.stop_price;
      stop_type = wire_stop_type r.stop_type;
      trigger_type = r.trigger_type;
      reduce_only = r.reduce_only;
      position_side = side;
    }))

-- The request: only a limit order (type 1) tells its price.
abbrev pub request_of : RiskRequest → ℕ → ℕ → Text → Option PerpsFields → NewOrder
request_of r account symbol_id client_order_id perps = record {
  account_id = account;
  symbol_id = symbol_id;
  cl_ord_id = client_order_id;
  side = r.side;
  order_type = r.order_type;
  time_in_force = r.time_in_force;
  price = if r.order_type == 1 then r.requested_price else none;
  quantity = r.requested_size;
  perps = perps;
}

-- `_build_new_order_bundle`
unfoldable pub build_new_order_bundle : Env → RiskRequest → Option ℕ → ℕ → ℕ → Text → Action Bundle
build_new_order_bundle env r account_id symbol_id nonce client_order_id = do
  account ← or_raise account_id value_error
  perps ← perps_part r r.venue
  or_raise (env.build_new_order (request_of r account symbol_id client_order_id perps) nonce)
      value_error

-- 24 hours, in microseconds.
abbrev pub nonce_window : ℕ
nonce_window = 24 * 60 * 60 * 1000000

-- What the insert of an order takes over from the caller.
pub record Draft : Type 0 where
  pub user : User
  pub request : RiskRequest
  pub signal_id : Option ℕ
  pub symbol_id : ℕ
  pub nonce : ℕ

unfoldable pub new_order : ℕ → Draft → Text → Bundle → OrderSide → OrderType → TimeInForce → Order
new_order now d client_order_id bundle side order_type tif = record {
  id = 0;
  user_id = some d.user.id;
  signal_id = d.signal_id;
  venue = d.request.venue;
  asset = d.request.asset;
  side = side;
  order_type = order_type;
  time_in_force = tif;
  requested_size = d.request.requested_size;
  requested_price = d.request.requested_price;
  filled_size = none;
  filled_price = none;
  filled_value = none;
  status = pending;
  exchange_order_id = none;
  client_order_id = client_order_id;
  error_message = none;
  paper_trade = d.user.paper_trade;
  raw_response = none;
  account_id = d.user.sodex_account_id;
  symbol_id = some d.symbol_id;
  nonce = some d.nonce;
  nonce_expires_at = some (now + nonce_window);
  eip712_payload = some bundle.payload_json;
  eip712_payload_hash = some bundle.payload_hash;
  eip712_signature = none;
  cancel_nonce = none;
  cancel_eip712_payload = none;
  cancel_eip712_payload_hash = none;
  cancel_eip712_signature = none;
  cancel_submitted_at = none;
  cancel_error_message = none;
  is_conditional = d.request.is_conditional;
  stop_price = d.request.stop_price;
  stop_type = d.request.stop_type;
  reduce_only = d.request.reduce_only;
  parent_order_id = d.request.parent_order_id;
  created_at = now;
  updated_at = now;
}

-- The insert of one attempt, in a savepoint: the id of the sequence is used up even where a CHECK or
-- the unique index on `client_order_id` refuses the row.
unfoldable pub insert_order : Order → Action Order
insert_order o db =
    let row = record o { id = db.next_order_id } in
    let taken = record db { next_order_id = suc db.next_order_id } in
    if not (order_checks row)
    then raise (integrity_error order_check) taken
    else if any (λ x. text_eq x.client_order_id row.client_order_id) db.orders
    then raise (integrity_error client_order_id_unique) taken
    else pure row (record taken { orders = db.orders ++ row ∷ [] })

-- An integrity error is tried again where its text names `client_order_id`.
abbrev pub or_retry :
    (Constraint → Bool)
    → (Exn → Action (Order × Bundle))
    → Bundle
    → Result Order
    → Action (Order × Bundle)
or_retry names again bundle (ok o) = pure (o, bundle)
or_retry names again bundle (raised (integrity_error c)) =
    if names c then again (integrity_error c) else raise (integrity_error c)
or_retry names again bundle (raised e) = raise e

unfoldable pub draft_row : Env → Draft → Text → Bundle → Action Order
draft_row env d client_order_id bundle = do
  side ← or_raise (sodex_to_db_side d.request.side) key_error
  order_type ← or_raise (sodex_to_db_type d.request.order_type) key_error
  tif ← or_raise (sodex_to_db_tif d.request.time_in_force) key_error
  pure (new_order env.now d client_order_id bundle side order_type tif)

-- `_insert_order_with_clordid_retry`, with the attempts that are left and the last error.
unfoldable pub insert_with_retry : Env → Draft → ℕ → Exn → Action (Order × Bundle)
insert_with_retry env d zero last = raise last
insert_with_retry env d (suc left) last = do
  client_order_id ← make_client_order_id d.request.venue (env.token left)
  bundle ←
      build_new_order_bundle env d.request d.user.sodex_account_id d.symbol_id d.nonce
        client_order_id
  row ← draft_row env d client_order_id bundle
  λ db.
      (let (r, db') = insert_order row db in
        or_retry env.names_client_order_id (insert_with_retry env d left) bundle r db')

-- An allowed order: its symbol, its nonce and its row.
unfoldable pub prepare_allowed : Env → RiskRequest → Option ℕ → User → Action PrepareNewResult
prepare_allowed env r signal_id user = do
  symbol_id ← resolve_symbol_id r.venue r.asset
  nonce ← gets (next_nonce_for_user (env.now / 1000) user.id)
  inserted ←
      insert_with_retry env
        (record {
          user = user;
          request = r;
          signal_id = signal_id;
          symbol_id = symbol_id;
          nonce = nonce;
        })
        3 (integrity_error client_order_id_unique)
  pure (record {
    allow = true;
    order_id = some inserted.0.id;
    client_order_id = some inserted.0.client_order_id;
    nonce = some nonce;
    reason = none;
    breaker_trigger = none;
  })

unfoldable pub refused : RiskDecision → PrepareNewResult
refused d = record {
  allow = false;
  order_id = none;
  client_order_id = none;
  nonce = none;
  reason = d.reason;
  breaker_trigger = d.breaker_trigger;
}

unfoldable pub decided :
    Env → RiskRequest → Option ℕ → RiskDecision × User → Action PrepareNewResult
decided env r signal_id (d, user) =
    if d.allow then prepare_allowed env r signal_id user else pure (refused d)

unfoldable pub prepare_new : Settings → Env → ℕ → RiskRequest → Option ℕ → Action PrepareNewResult
prepare_new settings env user_id r signal_id =
    check_order settings env.now user_id r >>= decided env r signal_id
