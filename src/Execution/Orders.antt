-- ===== src/Execution/Orders.antt =====
-- The steps that the calls of pipeline.py share: `_load_order_or_raise`, the flush of a changed order,
-- `_reject_submission`, `_default_api_key_resolver`, and a write to the venue.
use etfpulse.Base.{◌≡◌, refl, ℕ, false, Option, none, some, [], ◌∷◌, ◌++◌, Text, if◌then◌else◌}
use etfpulse.Models.{
  Venue, sodex_spot, sodex_perps, unknown_venue, rejected, Order, User, Db, Sent, Action, pure,
  raise, find_order, find_user, save_order, ok, raised, value_error, no_result, client_error,
  integrity_error, order_check, ◌>>◌,
}
use etfpulse.Models.Checks.{order_checks}
use etfpulse.Risk.Gates.{is_blank}
use etfpulse.Execution.Clients.{
  Env, Answer, items, sodex_auth_error, sodex_envelope_error, other_error, SubmitResult,
}

unfoldable pub load_order : ℕ → Action Order
load_order id db = elim (find_order id db) [ none ↦ raise value_error db | some o ↦ pure o db ]

pub load_order_found :
    (id : ℕ) (db : Db) (o : Order) → find_order id db ≡ some o → load_order id db ≡ (ok o, db)
unfolding load_order
load_order_found id db o e = rw (e, load_order) refl

pub load_order_missing :
    (id : ℕ) (db : Db) → find_order id db ≡ none → load_order id db ≡ (raised value_error, db)
unfolding load_order
load_order_missing id db e = rw (e, load_order) refl

-- `session.flush()` of a changed order: the CHECK constraints, then the row.
unfoldable pub flush_order : Order → Action (Unit {0})
flush_order o db =
    if order_checks o then save_order o db else raise (integrity_error order_check) db

-- What most branches return: the status, the venue's id and the message of the order.
abbrev pub reported : Order → SubmitResult
reported o = record {
  status = o.status;
  order_id = o.id;
  exchange_order_id = o.exchange_order_id;
  error_message = o.error_message;
  replayed = false;
}

-- `_reject_submission`
unfoldable pub reject_submission : Order → Text → Action SubmitResult
reject_submission o error =
    let rejection = record o { status = rejected; error_message = some error } in
    flush_order rejection
    >> pure (record {
      status = rejected;
      order_id = o.id;
      exchange_order_id = none;
      error_message = some error;
      replayed = false;
    })

-- `scalar_one` on the user of an order.
unfoldable pub load_user : Option ℕ → Action User
load_user none db = raise no_result db
load_user (some id) db = elim (find_user id db) [ none ↦ raise no_result db | some u ↦ pure u db ]

abbrev pub key_name : Option Text → Action Text
key_name name =
    if is_blank name
    then raise value_error
    else elim name [ none ↦ raise value_error | some n ↦ pure n ]

-- `_default_api_key_resolver`
unfoldable pub default_api_key_resolver : User → Venue → Action Text
default_api_key_resolver u sodex_spot = key_name u.sodex_spot_api_key_name
default_api_key_resolver u sodex_perps = key_name u.sodex_perps_api_key_name
default_api_key_resolver u unknown_venue = raise value_error

-- A signed write: the venue gets it, and answers.
abbrev pub answered : Answer → Action Answer
answered (other_error e) = raise (client_error e)
answered (items is) = pure (items is)
answered (sodex_auth_error t) = pure (sodex_auth_error t)
answered (sodex_envelope_error t) = pure (sodex_envelope_error t)

unfoldable pub send : Env → Sent → Action Answer
send env s db = answered (env.gateway db.sent s) (record db { sent = db.sent ++ s ∷ [] })

-- The `or ""` and `or 0` of optional columns.
abbrev pub or_empty : Option Text → Text
or_empty none = []
or_empty (some t) = t
