-- ===== src/Tests/Execution.antt =====
-- Submissions.
use etfpulse.Base.{◌≡◌, refl, true, false, none, some, [], ◌∷◌, ◌++◌, codes, ◌⊎◌}
use etfpulse.Base.Int.{pos}
use etfpulse.Models.{
  sodex_perps, cancelled, Order, acked, venue_id, Sent, Db, ok, find_order, save_order,
}
use etfpulse.Models.Checks.{
  is_hex, is_signature, is_payload_hash, placing_checks, cancel_checks, row_checks, order_checks,
}
use etfpulse.Execution.Clients.{Env, items, SubmitResult, BatchItem}
use etfpulse.Execution.Wire.{extract_params_bytes, lower}
use etfpulse.Execution.Wire.Laws.{extract_params_bytes-payload}
use etfpulse.Execution.Orders.{load_order, flush_order, load_user, default_api_key_resolver, send}
use etfpulse.Execution.Submit.{
  after_item, after_answer, dispatch_real_submission, execute, submit_pending, submit_loaded,
  submit_new,
}
use etfpulse.Execution.Delivery.{submit_new-sends, IsWriteOf}
use etfpulse.Execution.Settles.{Settled, is_outcome}
use etfpulse.Execution.Replay.{submit_new-outcome, submit_new-replay}
use etfpulse.Tests.Fixtures.{order, db, payload, payload_hash, signature}
use etfpulse.Tests.Risk.{settings, request}
use etfpulse.Decimal.{add, mul, context, excess, excess_from, half_even}
use etfpulse.Nonce.{next_nonce_for_user, last_nonce}
use etfpulse.Risk.{check_order, gates}
use etfpulse.Risk.Queries.{
  find_active_breaker_trigger, count_open_orders, sum_notional, contribution,
}
use etfpulse.Risk.Gates.{
  identity_gate, breaker_gate, enum_gate, leverage_gate, stop_gate, parent_gate, open_order_gate,
  price_gate, notional_gate,
}
use etfpulse.Execution.Prepare.{prepare_new}
use etfpulse.Execution.Placing.{Prepared, prepare_new-row}
use etfpulse.Execution.Cancel.{prepare_cancel, submit_cancel}
use etfpulse.Execution.CancelDelivery.{submit_cancel-sends, IsCancelOf}
use etfpulse.Execution.Terminal.{terminal_untouched}

abbrev accepted : BatchItem
accepted = record { code = pos 0; order_id = some 77; error = none }

-- A venue that accepts each order as its number 77, at time 20.
abbrev pub env : Env
env = record {
  now = 20;
  execution_paper_slippage_bps = 5;
  gateway = λ sent s. items (accepted ∷ []);
  names_client_order_id = λ c. true;
  token = λ k. codes "token";
  build_new_order =
      λ request nonce. some (record { payload_json = payload; payload_hash = payload_hash });
  build_cancel_order =
      λ request nonce. some (record { payload_json = payload; payload_hash = payload });
  is_action_json = λ t. true;
}

abbrev pub reply : SubmitResult
reply = record {
  status = acked;
  order_id = 1;
  exchange_order_id = some (venue_id 77);
  error_message = none;
  replayed = false;
}

abbrev pub acked_db : Db
acked_db = (submit_new env 1 signature db).1

pub submitted_once : submit_new env 1 signature db ≡ (ok reply, acked_db)
unfolding submit_new submit_loaded load_order submit_pending execute dispatch_real_submission
    load_user default_api_key_resolver extract_params_bytes send after_answer after_item flush_order
    save_order order_checks row_checks placing_checks cancel_checks is_signature is_hex
    is_payload_hash lower
submitted_once = refl

submit_new-sends_example :
    ((submit_new env 1 signature db).1.sent ≡ db.sent)
    ⊎ ((s : Sent) × (((o : Order) × ((find_order 1 db ≡ some o)
              × IsWriteOf env (lower signature) o s))
          × ((submit_new env 1 signature db).1.sent ≡ db.sent ++ s ∷ [])))
submit_new-sends_example = submit_new-sends env 1 signature db

submit_new-outcome_example : Settled is_outcome 1 (submit_new env 1 signature db)
submit_new-outcome_example = submit_new-outcome env 1 signature db order refl refl

submit_new-replay_example :
    (r : SubmitResult) × ((submit_new env 1 signature acked_db ≡ (ok r, acked_db))
      × ((r.status ≡ acked) × (r.replayed ≡ true)))
submit_new-replay_example =
    submit_new-replay env env 1 signature signature db acked_db reply submitted_once

extract_params_bytes-payload_example : extract_params_bytes (λ t. true) payload ≡ ok (codes "{}")
extract_params_bytes-payload_example =
    extract_params_bytes-payload (λ t. true) (codes "{\"type\":\"newOrder\"") (codes "{}") refl refl

-- The database with the symbol of BTC on the perps venue.
abbrev listed : Db
listed = record db {
  symbols =
      record { venue = sodex_perps; asset = codes "BTC"; symbol_id = 5; refreshed_at = 1 } ∷ [];
}

prepare_new-row_example : Prepared true 7 42 listed (prepare_new settings env 7 request none listed)
unfolding check_order gates identity_gate breaker_gate enum_gate leverage_gate stop_gate parent_gate
    open_order_gate price_gate notional_gate find_active_breaker_trigger count_open_orders
    sum_notional contribution add mul context excess excess_from half_even next_nonce_for_user
    last_nonce
prepare_new-row_example = prepare_new-row settings env 7 request none listed

abbrev ended_order : Order
ended_order = record order { status = cancelled }

abbrev ended : Db
ended = record db { orders = ended_order ∷ [] }

terminal_untouched_example :
    ((submit_new env 1 signature ended).1 ≡ ended)
    × (((prepare_cancel env 7 1 ended).1 ≡ ended)
        × ((submit_cancel env 1 signature ended).1 ≡ ended))
terminal_untouched_example = terminal_untouched env 1 7 signature ended ended_order refl refl

-- The order on the venue, with a cancel that waits for its signature.
abbrev cancelling : Db
cancelling = record db {
  orders =
      record order {
        status = acked;
        exchange_order_id = some (venue_id 77);
        cancel_nonce = some 42;
        cancel_eip712_payload = some payload;
      }
      ∷ [];
}

submit_cancel-sends_example :
    ((submit_cancel env 1 signature cancelling).1.sent ≡ cancelling.sent)
    ⊎ ((s : Sent) × (((o : Order) × ((find_order 1 cancelling ≡ some o)
              × IsCancelOf env (lower signature) o s))
          × ((submit_cancel env 1 signature cancelling).1.sent ≡ cancelling.sent ++ s ∷ [])))
submit_cancel-sends_example = submit_cancel-sends env 1 signature cancelling
