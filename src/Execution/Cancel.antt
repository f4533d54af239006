-- ===== src/Execution/Cancel.antt =====
-- `prepare_cancel`, `_build_cancel_order_bundle`, `submit_cancel` and `_dispatch_real_cancel`.
use etfpulse.Base.{
  ℕ, ◌/◌, Bool, true, false, not, ◌||◌, Option, none, some, is_none, or_zero, [], ◌∷◌, Text, codes,
  length, take, ◌++◌, if◌then◌else◌,
}
use etfpulse.Models.{
  OrderStatus, pending, submitted, cancelled, is_terminal, ExchangeId, venue_id, paper_id, Order,
  User, Action, pure, raise_if, gets, or_raise, value_error, find_user, ◌>>=◌, ◌>>◌,
}
use etfpulse.Models.Checks.{is_signature, is_known}
use etfpulse.Nonce.{next_nonce_for_user}
use etfpulse.Positions.{option_eq}
use etfpulse.Risk.Gates.{is_blank}
use etfpulse.Execution.Clients.{
  Env, Answer, items, sodex_auth_error, sodex_envelope_error, other_error, Bundle, CancelRequest,
  PrepareCancelResult, CancelReason, unauthorized, cancel_blocked_in_flight, user_not_found,
  SubmitResult,
}
use etfpulse.Execution.Wire.{extract_params_bytes, lower}
use etfpulse.Execution.Orders.{
  load_order, flush_order, load_user, default_api_key_resolver, send, or_empty,
}
use etfpulse.Execution.Submit.{is_zero, text_or, unexpected, lift}

-- `int(exchange_order_id)`, where it is a number.
abbrev pub venue_order_id : Option ExchangeId → Option ℕ
venue_order_id none = none
venue_order_id (some (venue_id n)) = some n
venue_order_id (some (paper_id n)) = none

abbrev pub cancel_request : Order → ℕ → ℕ → CancelRequest
cancel_request o account symbol = record {
  venue = o.venue;
  account_id = account;
  symbol_id = symbol;
  order_id = venue_order_id o.exchange_order_id;
  cl_ord_id = o.client_order_id;
}

-- A ValidationError of the request is a ValueError.
unfoldable pub build_cancel_order_bundle : Env → Order → Option ℕ → ℕ → Action Bundle
build_cancel_order_bundle env o account_id cancel_nonce = do
  account ← or_raise account_id value_error
  symbol ← or_raise o.symbol_id value_error
  raise_if (not (is_known o.venue)) value_error
  or_raise (env.build_cancel_order (cancel_request o account symbol) cancel_nonce) value_error

abbrev pub denied : CancelReason → PrepareCancelResult
denied why = record {
  allow = false;
  order_id = none;
  client_order_id = none;
  nonce = none;
  local_only = false;
  replayed = false;
  reason = some why;
}

abbrev pub without_venue : ℕ → Bool → PrepareCancelResult
without_venue order_id replayed = record {
  allow = true;
  order_id = some order_id;
  client_order_id = none;
  nonce = none;
  local_only = true;
  replayed = replayed;
  reason = none;
}

-- A fresh cancel on the row: what an earlier attempt left is cleared.
unfoldable pub with_cancel : Order → ℕ → Bundle → Order
with_cancel o cancel_nonce bundle = record o {
  cancel_nonce = some cancel_nonce;
  cancel_eip712_payload = some bundle.payload_json;
  cancel_eip712_payload_hash = some bundle.payload_hash;
  cancel_eip712_signature = none;
  cancel_submitted_at = none;
  cancel_error_message = none;
}

unfoldable pub prepare_venue_cancel : Env → Order → User → Action PrepareCancelResult
prepare_venue_cancel env o user = do
  cancel_nonce ← gets (next_nonce_for_user (env.now / 1000) user.id)
  bundle ← build_cancel_order_bundle env o user.sodex_account_id cancel_nonce
  flush_order (with_cancel o cancel_nonce bundle)
  pure (record {
    allow = true;
    order_id = some o.id;
    client_order_id = some o.client_order_id;
    nonce = some cancel_nonce;
    local_only = false;
    replayed = false;
    reason = none;
  })

-- The branches on a status that is not terminal.
unfoldable pub prepare_live_cancel : Env → ℕ → Order → OrderStatus → Action PrepareCancelResult
prepare_live_cancel env user_id o pending =
    flush_order (record o { status = cancelled }) >> pure (without_venue o.id false)
prepare_live_cancel env user_id o submitted = pure (denied cancel_blocked_in_flight)
prepare_live_cancel env user_id o _ = gets (find_user user_id) >>= λ found. elim found [
  | none ↦ pure (denied user_not_found)
  | some user ↦ prepare_venue_cancel env o user
]

-- The branches on the status of an order that is the user's.
unfoldable pub prepare_own_cancel : Env → ℕ → Order → Action PrepareCancelResult
prepare_own_cancel env user_id o =
    if is_terminal o.status
    then pure (without_venue o.id true)
    else prepare_live_cancel env user_id o o.status

unfoldable pub prepare_loaded : Env → ℕ → Order → Action PrepareCancelResult
prepare_loaded env user_id o =
    if option_eq o.user_id (some user_id)
    then prepare_own_cancel env user_id o
    else pure (denied unauthorized)

unfoldable pub prepare_cancel : Env → ℕ → ℕ → Action PrepareCancelResult
prepare_cancel env user_id order_id = load_order order_id >>= prepare_loaded env user_id

-- What a failed cancel leaves: the message; the status stays.
abbrev pub cancel_failed : Order → Text → Order
cancel_failed o error = record o { cancel_error_message = some error }

abbrev pub cancel_reported : Order → SubmitResult
cancel_reported o = record {
  status = o.status;
  order_id = o.id;
  exchange_order_id = none;
  error_message = o.cancel_error_message;
  replayed = false;
}

unfoldable pub after_cancel_answer : Order → Answer → Order
after_cancel_answer o (items (item ∷ [])) =
    if is_zero item.code
    then record o { status = cancelled }
    else cancel_failed o (take 500 (text_or item.error (codes "cancel_rejected_unknown")))
after_cancel_answer o (items is) = cancel_failed o (unexpected (length is))
after_cancel_answer o (sodex_auth_error exc) = cancel_failed o (take 500 (codes "auth: " ++ exc))
after_cancel_answer o (sodex_envelope_error exc) =
    cancel_failed o (take 500 (codes "envelope: " ++ exc))
after_cancel_answer o (other_error e) = o

unfoldable pub dispatch_real_cancel : Env → Order → Action SubmitResult
dispatch_real_cancel env o = do
  user ← load_user o.user_id
  api_key_name ← default_api_key_resolver user o.venue
  body_bytes ← lift (extract_params_bytes env.is_action_json (or_empty o.cancel_eip712_payload))
  raise_if (not (is_known o.venue)) value_error
  answer ← send env (record {
    venue = o.venue;
    is_cancel = true;
    body = body_bytes;
    signature = or_empty o.cancel_eip712_signature;
    nonce = or_zero o.cancel_nonce;
    api_key_name = api_key_name;
  })
  flush_order (after_cancel_answer o answer)
  pure (cancel_reported (after_cancel_answer o answer))

-- `order.cancel_error_message or order.error_message`
abbrev pub or_else : Option Text → Option Text → Option Text
or_else none b = b
or_else (some []) b = b
or_else (some (c ∷ cs)) b = some (c ∷ cs)

abbrev pub replay : Order → Option Text → SubmitResult
replay o message = record {
  status = o.status;
  order_id = o.id;
  exchange_order_id = o.exchange_order_id;
  error_message = message;
  replayed = true;
}

abbrev pub cancel_signed : Env → Order → Text → Order
cancel_signed env o signature = record o {
  cancel_eip712_signature = some signature;
  cancel_submitted_at = some env.now;
}

unfoldable pub send_cancel : Env → Order → Action SubmitResult
send_cancel env o =
    if o.paper_trade
    then flush_order (record o { status = cancelled })
      >> pure (record (cancel_reported (record o { status = cancelled })) { error_message = none })
    else dispatch_real_cancel env o

unfoldable pub submit_prepared_cancel : Env → Order → Text → Action SubmitResult
submit_prepared_cancel env o signature =
    if is_blank o.cancel_eip712_payload || is_none o.cancel_nonce
    then pure (record (cancel_reported o) { error_message = some (codes "cancel_not_prepared") })
    else if not (is_signature signature)
    then (let failed = cancel_failed o (codes "invalid_signature_format") in
        flush_order failed >> pure (cancel_reported failed))
    else flush_order (cancel_signed env o signature)
      >> send_cancel env (cancel_signed env o signature)

-- A terminal order, or a cancel that was signed before, is a replay.
unfoldable pub submit_cancel_loaded : Env → Text → Order → Action SubmitResult
submit_cancel_loaded env signature o =
    if is_terminal o.status
    then pure (replay o (or_else o.cancel_error_message o.error_message))
    else if not (is_none o.cancel_eip712_signature)
    then pure (replay o o.cancel_error_message)
    else submit_prepared_cancel env o (lower signature)

unfoldable pub submit_cancel : Env → ℕ → Text → Action SubmitResult
submit_cancel env order_id signature = load_order order_id >>= submit_cancel_loaded env signature
