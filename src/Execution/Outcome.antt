-- ===== src/Execution/Outcome.antt =====
-- The status of an order after `submit_new`, and what a second submission does.
use etfpulse.Base.{ℕ, ◌≡◌, refl, arith, true, not, ◌&&◌, some, is_none, [], ◌∷◌, Text, subst}
use etfpulse.Models.{
  Order, acked, filled, rejected, Sent, Action, pure, raise_if, value_error, ◌>>=◌, ◌>>◌,
}
use etfpulse.Models.Checks.{is_signature, is_known}
use etfpulse.Risk.Gates.{is_blank}
use etfpulse.Execution.Clients.{
  Env, SubmitResult, Answer, items, sodex_auth_error, sodex_envelope_error, other_error, BatchItem,
}
use etfpulse.Execution.Wire.{extract_params_bytes}
use etfpulse.Execution.Orders.{
  flush_order, reject_submission, reported, send, answered, load_user, default_api_key_resolver,
  or_empty,
}
use etfpulse.Execution.Paper.{
  ack_paper_conditional, simulate_paper_fill, record_paper_fill, simulate_fill, apply_fill,
}
use etfpulse.Execution.Submit.{
  after_item, after_answer, lift, dispatch_real_submission, execute, signed, submit_pending,
  has_expired,
}
use etfpulse.Execution.Frames.{
  load_user-Quiet, default_api_key_resolver-Quiet, apply_fill-Quiet, simulate_fill-Quiet,
}
use etfpulse.Execution.Sends.{write_of}
use etfpulse.Execution.Settles.{
  is_outcome, Settles, KeepsPresent, Settles->>=, Settles-if, Quiet-KeepsPresent,
  flush_order-KeepsPresent, flush_pure-Settles,
}

reject_submission-Settles : (o : Order) (t : Text) → Settles is_outcome o.id (reject_submission o t)
unfolding reject_submission
reject_submission-Settles o t =
    flush_pure-Settles is_outcome (record o { status = rejected; error_message = some t }) _ refl
      refl

after_item-outcome :
    (o : Order) (i : BatchItem)
    → ((after_item o i).id ≡ o.id) × (is_outcome (after_item o i).status ≡ true)
unfolding after_item
after_item-outcome o i = ground arith

after_answer-Settles :
    (o : Order) (a : Answer)
    → is_outcome o.status ≡ true
    → Settles is_outcome o.id (after_answer o a)
unfolding after_answer
after_answer-Settles o (items []) h db k =
    flush_pure-Settles is_outcome (record o { raw_response = _ }) _ h refl db k
after_answer-Settles o (items (i ∷ [])) h db k =
    let (e, l) = after_item-outcome o i in
    subst
      (λ n. Settles is_outcome n (flush_order (after_item o i) >> pure (reported (after_item o i))))
      e (flush_pure-Settles is_outcome (after_item o i) _ l refl) db k
after_answer-Settles o (items (i ∷ j ∷ is)) h db k =
    flush_pure-Settles is_outcome (record o { raw_response = _ }) _ h refl db k
after_answer-Settles o (sodex_auth_error t) h db k =
    flush_pure-Settles is_outcome
      (record o { status = rejected; error_message = _; raw_response = _ }) _ refl refl db k
after_answer-Settles o (sodex_envelope_error t) h db k =
    flush_pure-Settles is_outcome
      (record o { status = rejected; error_message = _; raw_response = _ }) _ refl refl db k
after_answer-Settles o (other_error e) h db k = tt

record_paper_fill-Settles :
    (o : Order) (fp fs : _) (p : _) → Settles is_outcome o.id (record_paper_fill o fp fs p)
unfolding record_paper_fill
record_paper_fill-Settles o fp fs p =
    Settles-if is_outcome o.id (is_none p && o.reduce_only) _ _
      (flush_pure-Settles is_outcome
        (record o { exchange_order_id = _; status = rejected; error_message = _ }) _ refl refl)
      (flush_pure-Settles is_outcome
        (record o {
          exchange_order_id = _;
          filled_price = _;
          filled_size = _;
          filled_value = _;
          status = filled;
        })
        _ refl refl)

simulate_paper_fill-Settles :
    (now bps : ℕ) (o : Order) → Settles is_outcome o.id (simulate_paper_fill now bps o)
unfolding simulate_paper_fill
simulate_paper_fill-Settles now bps o =
    Settles->>= is_outcome o.id (simulate_fill bps o)
      (λ x. apply_fill now o x.0 x.1 >>= λ p. record_paper_fill o x.0 x.1 p)
      (Quiet-KeepsPresent is_outcome o.id (simulate_fill bps o) (simulate_fill-Quiet bps o))
      (λ x.
        Settles->>= is_outcome o.id (apply_fill now o x.0 x.1) (λ p. record_paper_fill o x.0 x.1 p)
          (Quiet-KeepsPresent is_outcome o.id (apply_fill now o x.0 x.1)
            (apply_fill-Quiet now o x.0 x.1))
          (λ p. record_paper_fill-Settles o x.0 x.1 p))

answered-KeepsPresent : (id : ℕ) (a : Answer) → KeepsPresent id (answered a)
answered-KeepsPresent id (items is) db h = h
answered-KeepsPresent id (sodex_auth_error t) db h = h
answered-KeepsPresent id (sodex_envelope_error t) db h = h
answered-KeepsPresent id (other_error e) db h = h

send-KeepsPresent : (id : ℕ) (env : Env) (s : Sent) → KeepsPresent id (send env s)
unfolding send
send-KeepsPresent id env s db h = answered-KeepsPresent id (env.gateway db.sent s) _ h

posted : Env → Order → Text → Text → Action SubmitResult
posted env o key body =
    raise_if (not (is_known o.venue)) value_error
    >> (send env (write_of o key body) >>= after_answer o)

posted-Settles :
    (env : Env) (o : Order) (key body : Text)
    → is_outcome o.status ≡ true
    → Settles is_outcome o.id (posted env o key body)
unfolding posted
posted-Settles env o key body h =
    Settles->>= is_outcome o.id (raise_if (not (is_known o.venue)) value_error)
      (λ _. send env (write_of o key body) >>= after_answer o) (λ db k. k)
      (λ _.
        Settles->>= is_outcome o.id (send env (write_of o key body)) (after_answer o)
          (send-KeepsPresent o.id env (write_of o key body)) (λ a. after_answer-Settles o a h))

extracted : Env → Order → Text → Action SubmitResult
extracted env o key =
    lift (extract_params_bytes env.is_action_json (or_empty o.eip712_payload)) >>= posted env o key

dispatch_real_submission-Settles :
    (env : Env) (o : Order)
    → is_outcome o.status ≡ true
    → Settles is_outcome o.id (dispatch_real_submission env o)
unfolding dispatch_real_submission extracted posted write_of
dispatch_real_submission-Settles env o h =
    Settles->>= is_outcome o.id (load_user o.user_id)
      (λ u. default_api_key_resolver u o.venue >>= extracted env o)
      (Quiet-KeepsPresent is_outcome o.id (load_user o.user_id) (load_user-Quiet o.user_id))
      (λ u.
        Settles->>= is_outcome o.id (default_api_key_resolver u o.venue) (extracted env o)
          (Quiet-KeepsPresent is_outcome o.id (default_api_key_resolver u o.venue)
            (default_api_key_resolver-Quiet u o.venue))
          (λ key.
            Settles->>= is_outcome o.id
              (lift (extract_params_bytes env.is_action_json (or_empty o.eip712_payload)))
              (posted env o key) (λ db k. k) (λ body. posted-Settles env o key body h)))

execute-Settles :
    (env : Env) (o : Order) → is_outcome o.status ≡ true → Settles is_outcome o.id (execute env o)
unfolding execute ack_paper_conditional
execute-Settles env o h =
    Settles-if is_outcome o.id o.paper_trade _ _
      (Settles-if is_outcome o.id o.is_conditional _ _
        (flush_pure-Settles is_outcome (record o { exchange_order_id = _; status = acked }) _ refl
          refl)
        (simulate_paper_fill-Settles env.now env.execution_paper_slippage_bps o))
      (dispatch_real_submission-Settles env o h)

pub submit_pending-Settles :
    (env : Env) (o : Order) (signature : Text)
    → Settles is_outcome o.id (submit_pending env o signature)
unfolding submit_pending
submit_pending-Settles env o signature =
    Settles-if is_outcome o.id (not (is_signature signature)) _ _ (reject_submission-Settles o _) (
      Settles-if is_outcome o.id (has_expired env.now o.nonce_expires_at) _ _
        (reject_submission-Settles o _)
        (Settles-if is_outcome o.id (is_blank o.eip712_payload) _ _ (reject_submission-Settles o _)
          (Settles-if is_outcome o.id (is_none o.eip712_payload_hash) _ _
            (reject_submission-Settles o _)
            (Settles->>= is_outcome o.id (flush_order (signed o signature))
              (λ _. execute env (signed o signature))
              (flush_order-KeepsPresent (signed o signature))
              (λ _. execute-Settles env (signed o signature) refl)))))
