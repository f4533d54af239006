-- ===== src/Life/Submits.antt =====
-- `submit_new` along the life of an order.
use etfpulse.Base.{
  ◌∙◌, ◌==◌, ℕ, ◌≡◌, refl, arith, true, not, ◌&&◌, Option, some, is_none, [], ◌∷◌, Text, List,
}
use etfpulse.Decimal.{Decimal}
use etfpulse.Models.{
  Order, Position, acked, filled, rejected, Db, Action, pure, raise_if, or_raise, value_error,
  ◌>>=◌, ◌>>◌,
}
use etfpulse.Models.Checks.{is_signature, is_known}
use etfpulse.Risk.Gates.{is_blank}
use etfpulse.Execution.Clients.{
  Env, SubmitResult, Answer, items, sodex_auth_error, sodex_envelope_error, other_error, BatchItem,
}
use etfpulse.Execution.Wire.{extract_params_bytes, lower}
use etfpulse.Execution.Orders.{
  flush_order, reject_submission, send, load_user, default_api_key_resolver, or_empty,
}
use etfpulse.Execution.Paper.{
  ack_paper_conditional, simulate_paper_fill, record_paper_fill, simulate_fill, apply_fill,
  slipped_price,
}
use etfpulse.Execution.Submit.{
  after_item, after_answer, lift, dispatch_real_submission, execute, signed, submit_pending,
  submit_loaded, submit_new, has_expired, is_pending,
}
use etfpulse.Execution.Sends.{write_of}
use etfpulse.Life.{rank, Advanced}
use etfpulse.Life.Rows.{OnlyRow}
use etfpulse.Life.Upholds.{
  loaded-Kept, Kept, Upholds, Upholds->>=, Upholds->>, Upholds-if, Upholds-test, or_raise-Upholds,
  load_user-Upholds, default_api_key_resolver-Upholds, flush_order-Upholds, flush_pure-Upholds,
  send-Upholds, apply_fill-Upholds,
}

-- A pending row may become any.
pub from_pending : (o o' : Order) → is_pending o.status ≡ true → o'.id ≡ o.id → Advanced o o'
unfolding rank
from_pending o o' p same = record {
  same_id = same;
  forward = ground arith;
  settled = λ t. ground arith;
}

after_item-id : (o : Order) (i : BatchItem) → (after_item o i).id ≡ o.id
unfolding after_item
after_item-id o i = ground arith

-- Two numbers that a simulated fill computes.
simulate_fill-Upholds : (xs : List Order) (bps : ℕ) (o : Order) → Upholds xs (simulate_fill bps o)
unfolding simulate_fill
simulate_fill-Upholds xs bps o =
    Upholds->>= xs (or_raise o.requested_price value_error) sized
      (or_raise-Upholds xs o.requested_price value_error)
      λ p.
        Upholds->> xs (raise_if (o.requested_size == 0) value_error) (slipped p) (λ db k. k)
          (Upholds->>= xs (or_raise (slipped_price bps o.side p) value_error)
            (λ fp. pure (fp, o.requested_size))
            (or_raise-Upholds xs (slipped_price bps o.side p) value_error) λ fp db k. k)
  where
    slipped : Decimal → Action (Decimal × Decimal)
    slipped p =
        or_raise (slipped_price bps o.side p) value_error >>= λ fp. pure (fp, o.requested_size)

    sized : Decimal → Action (Decimal × Decimal)
    sized p = raise_if (o.requested_size == 0) value_error >> slipped p

-- `b` is the row as it was when it was read, pending; `o` what the call has made of it so far.
module _ (xs : List Order) (b : Order) (only : OnlyRow b xs) (p : is_pending b.status ≡ true) where
  flush_reply : (o : Order) (r : SubmitResult) → o.id ≡ b.id → Upholds xs (flush_order o >> pure r)
  flush_reply o r same = flush_pure-Upholds xs b o r only (from_pending b o p same)

  after_answer-Upholds : (o : Order) (a : Answer) → o.id ≡ b.id → Upholds xs (after_answer o a)
  unfolding after_answer
  after_answer-Upholds o (items []) same = flush_reply (record o { raw_response = _ }) _ same
  after_answer-Upholds o (items (i ∷ [])) same =
      flush_reply (after_item o i) _ (after_item-id o i ∙ same)
  after_answer-Upholds o (items (i ∷ j ∷ is)) same =
      flush_reply (record o { raw_response = _ }) _ same
  after_answer-Upholds o (sodex_auth_error t) same =
      flush_reply (record o { status = rejected; error_message = _; raw_response = _ }) _ same
  after_answer-Upholds o (sodex_envelope_error t) same =
      flush_reply (record o { status = rejected; error_message = _; raw_response = _ }) _ same
  after_answer-Upholds o (other_error e) same = λ db k. k

  record_paper_fill-Upholds :
      (o : Order) (price size : Decimal) (x : Option Position)
      → o.id ≡ b.id
      → Upholds xs (record_paper_fill o price size x)
  unfolding record_paper_fill
  record_paper_fill-Upholds o price size x same =
      Upholds-if xs (is_none x && o.reduce_only) _ _
        (flush_reply (record o { exchange_order_id = _; status = rejected; error_message = _ }) _
          same)
        (flush_reply
          (record o {
            exchange_order_id = _;
            filled_price = _;
            filled_size = _;
            filled_value = _;
            status = filled;
          })
          _ same)

  simulate_paper_fill-Upholds :
      (now bps : ℕ) (o : Order) → o.id ≡ b.id → Upholds xs (simulate_paper_fill now bps o)
  unfolding simulate_paper_fill
  simulate_paper_fill-Upholds now bps o same =
      Upholds->>= xs (simulate_fill bps o)
        (λ x. apply_fill now o x.0 x.1 >>= λ q. record_paper_fill o x.0 x.1 q)
        (simulate_fill-Upholds xs bps o)
        λ x.
          Upholds->>= xs (apply_fill now o x.0 x.1) (λ q. record_paper_fill o x.0 x.1 q)
            (apply_fill-Upholds xs now o x.0 x.1) λ q. record_paper_fill-Upholds o x.0 x.1 q same

  posted : Env → Order → Text → Text → Action SubmitResult
  posted env o key body =
      raise_if (not (is_known o.venue)) value_error
      >> (send env (write_of o key body) >>= after_answer o)

  extracted : Env → Order → Text → Action SubmitResult
  extracted env o key =
      lift (extract_params_bytes env.is_action_json (or_empty o.eip712_payload))
      >>= posted env o key

  dispatch_real_submission-Upholds :
      (env : Env) (o : Order) → o.id ≡ b.id → Upholds xs (dispatch_real_submission env o)
  unfolding dispatch_real_submission extracted posted write_of
  dispatch_real_submission-Upholds env o same =
      Upholds->>= xs (load_user o.user_id)
        (λ u. default_api_key_resolver u o.venue >>= extracted env o)
        (load_user-Upholds xs o.user_id)
        λ u.
          Upholds->>= xs (default_api_key_resolver u o.venue) (extracted env o)
            (default_api_key_resolver-Upholds xs u o.venue)
            λ key.
              Upholds->>= xs
                (lift (extract_params_bytes env.is_action_json (or_empty o.eip712_payload)))
                (posted env o key) (λ db k. k)
                λ body.
                  Upholds->> xs (raise_if (not (is_known o.venue)) value_error)
                    (send env (write_of o key body) >>= after_answer o) (λ db k. k)
                    (Upholds->>= xs (send env (write_of o key body)) (after_answer o)
                      (send-Upholds xs env (write_of o key body))
                      λ a. after_answer-Upholds o a same)

  execute-Upholds : (env : Env) (o : Order) → o.id ≡ b.id → Upholds xs (execute env o)
  unfolding execute ack_paper_conditional
  execute-Upholds env o same =
      Upholds-if xs o.paper_trade _ _
        (Upholds-if xs o.is_conditional _ _
          (flush_reply (record o { exchange_order_id = _; status = acked }) _ same)
          (simulate_paper_fill-Upholds env.now env.execution_paper_slippage_bps o same))
        (dispatch_real_submission-Upholds env o same)

  reject_submission-Upholds : (t : Text) → Upholds xs (reject_submission b t)
  unfolding reject_submission
  reject_submission-Upholds t =
      flush_reply (record b { status = rejected; error_message = some t }) _ refl

  submit_pending-Upholds :
      (env : Env) (signature : Text) → Upholds xs (submit_pending env b signature)
  unfolding submit_pending
  submit_pending-Upholds env signature =
      Upholds-if xs (not (is_signature signature)) _ _ (reject_submission-Upholds _) (
        Upholds-if xs (has_expired env.now b.nonce_expires_at) _ _ (reject_submission-Upholds _) (
          Upholds-if xs (is_blank b.eip712_payload) _ _ (reject_submission-Upholds _) (
            Upholds-if xs (is_none b.eip712_payload_hash) _ _ (reject_submission-Upholds _) (
              Upholds->> xs (flush_order (signed b signature)) (execute env (signed b signature))
                (flush_order-Upholds xs b (signed b signature) only
                  (from_pending b (signed b signature) p refl))
                (execute-Upholds env (signed b signature) refl)))))

submit_loaded-Upholds :
    (xs : List Order) (env : Env) (signature : Text) (o : Order)
    → OnlyRow o xs
    → Upholds xs (submit_loaded env signature o)
unfolding submit_loaded
submit_loaded-Upholds xs env signature o only =
    Upholds-test xs (is_pending o.status) _ _
      (λ p. submit_pending-Upholds xs o only p env (lower signature)) λ _ db k. k

pub submit_new-Kept :
    (env : Env) (id : ℕ) (signature : Text) (db : Db)
    → Kept db.orders db
    → Kept db.orders (submit_new env id signature db).1
unfolding submit_new
submit_new-Kept env id signature db k =
    loaded-Kept id (submit_loaded env signature) db k
      λ o only. submit_loaded-Upholds db.orders env signature o only
