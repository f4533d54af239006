-- ===== src/Execution/Submit.antt =====
-- `submit_new` and `_dispatch_real_submission`.
use etfpulse.Base.{
  ℕ, Bool, true, false, not, Option, none, some, is_none, or_zero, [], ◌∷◌, ◌++◌, Text, codes,
  length, take, ltb, ◌==◌, if◌then◌else◌,
}
use etfpulse.Base.Int.{ℤ, pos, negsuc}
use etfpulse.Models.{
  OrderStatus, pending, submitted, acked, rejected, ExchangeId, venue_id, auth_error,
  envelope_error, unexpected_item_count, item_result, Order, Action, pure, raise, raise_if,
  value_error, Result, ◌>>=◌, ◌>>◌,
}
use etfpulse.Models.Checks.{is_signature, is_known}
use etfpulse.Risk.Gates.{is_blank}
use etfpulse.Execution.Clients.{
  Env, Answer, items, sodex_auth_error, sodex_envelope_error, other_error, BatchItem, SubmitResult,
}
use etfpulse.Execution.Wire.{extract_params_bytes, lower, str}
use etfpulse.Execution.Orders.{
  load_order, flush_order, reported, reject_submission, load_user, default_api_key_resolver, send,
  or_empty,
}
use etfpulse.Execution.Paper.{ack_paper_conditional, simulate_paper_fill}

-- `x or d`, for a text.
abbrev pub text_or : Option Text → Text → Text
text_or none d = d
text_or (some []) d = d
text_or (some (c ∷ cs)) d = c ∷ cs

-- `str(order_id) if order_id else None`
abbrev pub acked_id : Option ℕ → Option ExchangeId
acked_id none = none
acked_id (some id) = if id == 0 then none else some (venue_id id)

-- `code == 0`
abbrev pub is_zero : ℤ → Bool
is_zero (pos n) = n == 0
is_zero (negsuc n) = false

-- One item: acknowledged or rejected.
unfoldable pub after_item : Order → BatchItem → Order
after_item o item =
    let answered = record o { raw_response = some (item_result item.code item.order_id) } in
    if is_zero item.code
    then record answered { status = acked; exchange_order_id = acked_id item.order_id }
    else record answered {
      status = rejected;
      error_message = some (take 500 (text_or item.error (codes "rejected_unknown_reason")));
    }

abbrev pub unexpected : ℕ → Text
unexpected n = codes "unexpected gateway response: " ++ str n ++ codes " items"

-- The outcome of the POST on the order.
unfoldable pub after_answer : Order → Answer → Action SubmitResult
after_answer o (items (item ∷ [])) =
    flush_order (after_item o item) >> pure (reported (after_item o item))
after_answer o (items is) =
    flush_order (record o { raw_response = some (unexpected_item_count (length is)) })
    >> pure (record {
      status = o.status;
      order_id = o.id;
      exchange_order_id = none;
      error_message = some (unexpected (length is));
      replayed = false;
    })
after_answer o (sodex_auth_error exc) =
    let refused = record o {
      status = rejected;
      error_message = some (take 500 (codes "auth: " ++ exc));
      raw_response = some (auth_error exc);
    } in
    flush_order refused >> pure (record (reported refused) { exchange_order_id = none })
after_answer o (sodex_envelope_error exc) =
    let refused = record o {
      status = rejected;
      error_message = some (take 500 (codes "envelope: " ++ exc));
      raw_response = some (envelope_error exc);
    } in
    flush_order refused >> pure (record (reported refused) { exchange_order_id = none })
after_answer o (other_error e) = raise value_error

-- A result that is computed, as an action.
abbrev pub lift : Result Text → Action Text
lift r db = (r, db)

unfoldable pub dispatch_real_submission : Env → Order → Action SubmitResult
dispatch_real_submission env o = do
  user ← load_user o.user_id
  api_key_name ← default_api_key_resolver user o.venue
  body_bytes ← lift (extract_params_bytes env.is_action_json (or_empty o.eip712_payload))
  raise_if (not (is_known o.venue)) value_error
  answer ← send env (record {
    venue = o.venue;
    is_cancel = false;
    body = body_bytes;
    signature = or_empty o.eip712_signature;
    nonce = or_zero o.nonce;
    api_key_name = api_key_name;
  })
  after_answer o answer

-- The signed order, on its way.
abbrev pub signed : Order → Text → Order
signed o signature = record o { eip712_signature = some signature; status = submitted }

unfoldable pub execute : Env → Order → Action SubmitResult
execute env o =
    if o.paper_trade
    then (if o.is_conditional
        then ack_paper_conditional o
        else simulate_paper_fill env.now env.execution_paper_slippage_bps o)
    else dispatch_real_submission env o

-- `nonce_expires_at is None or nonce_expires_at < now`
abbrev pub has_expired : ℕ → Option ℕ → Bool
has_expired now none = true
has_expired now (some t) = ltb t now

unfoldable pub submit_pending : Env → Order → Text → Action SubmitResult
submit_pending env o signature =
    if not (is_signature signature)
    then reject_submission o (codes "invalid_signature_format")
    else if has_expired env.now o.nonce_expires_at
    then reject_submission o (codes "nonce_window_expired")
    else if is_blank o.eip712_payload
    then reject_submission o (codes "missing_payload_at_submit")
    else if is_none o.eip712_payload_hash
    then reject_submission o (codes "missing_payload_hash_at_submit")
    else flush_order (signed o signature) >> execute env (signed o signature)

abbrev pub is_pending : OrderStatus → Bool
is_pending pending = true
is_pending _ = false

-- Past PENDING, a submission is a replay.
unfoldable pub submit_loaded : Env → Text → Order → Action SubmitResult
submit_loaded env signature o =
    if is_pending o.status
    then submit_pending env o (lower signature)
    else pure (record (reported o) { replayed = true })

unfoldable pub submit_new : Env → ℕ → Text → Action SubmitResult
submit_new env order_id signature = load_order order_id >>= submit_loaded env signature
