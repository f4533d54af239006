-- ===== src/Execution/CancelDelivery.antt =====
-- The one write of `submit_cancel`.
use etfpulse.Base.{
  ℕ, ◌≡◌, refl, true, false, not, ◌||◌, some, is_none, or_zero, [], ◌∷◌, ◌++◌, Text, ◌⊎◌, inl, inr,
  Option-cases,
}
use etfpulse.Models.{
  Order, cancelled, is_terminal, Sent, Db, Action, ok, pure, raise_if, find_order, value_error,
  ◌>>=◌, ◌>>◌, >>=-ok, >>=-raised,
}
use etfpulse.Models.Checks.{is_signature, is_known}
use etfpulse.Risk.Gates.{is_blank}
use etfpulse.Execution.Clients.{Env, SubmitResult, Answer}
use etfpulse.Execution.Wire.{lower, extract_params_bytes}
use etfpulse.Execution.Orders.{
  flush_order, load_order, load_order_found, load_order_missing, load_user,
  default_api_key_resolver, send, or_empty,
}
use etfpulse.Execution.Submit.{lift}
use etfpulse.Execution.Cancel.{
  after_cancel_answer, cancel_reported, cancel_signed, dispatch_real_cancel, send_cancel,
  submit_prepared_cancel, submit_cancel_loaded, submit_cancel,
}
use etfpulse.Execution.Frames.{load_user-Quiet, default_api_key_resolver-Quiet}
use etfpulse.Execution.Sends.{
  SendsOnly, SendsOnly->>=, SendsOnly-send, SendsOnly-lift, flush_order-Silent, flush_pure-Silent,
}
use etfpulse.Execution.Delivery.{SendsOnly-if, weaken, not-false}

-- The write that a stored cancel stands for.
abbrev pub IsCancellation : Env → Order → Sent → Type 0
IsCancellation env o s =
    (s.is_cancel ≡ true)
    × ((s.venue ≡ o.venue)
        × ((s.signature ≡ or_empty o.cancel_eip712_signature)
            × ((s.nonce ≡ or_zero o.cancel_nonce)
                × (extract_params_bytes env.is_action_json (or_empty o.cancel_eip712_payload)
                    ≡ ok s.body))))

-- What it says of the order before the call.
abbrev pub IsCancelOf : Env → Text → Order → Sent → Type 0
IsCancelOf env signature o s =
    (is_terminal o.status ≡ false)
    × ((is_none o.cancel_eip712_signature ≡ true)
        × ((o.paper_trade ≡ false)
            × ((is_signature signature ≡ true)
                × IsCancellation env (cancel_signed env o signature) s)))

unfoldable pub cancel_of : Order → Text → Text → Sent
cancel_of o key body = record {
  venue = o.venue;
  is_cancel = true;
  body = body;
  signature = or_empty o.cancel_eip712_signature;
  nonce = or_zero o.cancel_nonce;
  api_key_name = key;
}

record_answer : Order → Answer → Action SubmitResult
record_answer o a =
    flush_order (after_cancel_answer o a) >> pure (cancel_reported (after_cancel_answer o a))

post_cancel : Env → Order → Text → Text → Action SubmitResult
post_cancel env o key body =
    raise_if (not (is_known o.venue)) value_error
    >> (send env (cancel_of o key body) >>= record_answer o)

post_extracted : Env → Order → Text → Action SubmitResult
post_extracted env o key =
    lift (extract_params_bytes env.is_action_json (or_empty o.cancel_eip712_payload))
    >>= post_cancel env o key

dispatch_real_cancel-sends :
    (env : Env) (o : Order) → SendsOnly (IsCancellation env o) (dispatch_real_cancel env o)
unfolding dispatch_real_cancel post_extracted post_cancel cancel_of record_answer
dispatch_real_cancel-sends env o =
    let P = IsCancellation env o in
    SendsOnly->>= P (load_user o.user_id)
      (λ u. default_api_key_resolver u o.venue >>= post_extracted env o)
      (λ db. (load_user-Quiet o.user_id db).1)
      (λ u.
        SendsOnly->>= P (default_api_key_resolver u o.venue) (post_extracted env o)
          (λ db. (default_api_key_resolver-Quiet u o.venue db).1)
          (λ key. SendsOnly-lift P _ (post_cancel env o key) (λ body e.
            SendsOnly->>= P (raise_if (not (is_known o.venue)) value_error)
              (λ _. send env (cancel_of o key body) >>= record_answer o) (λ db. refl)
              (λ _.
                SendsOnly-send P env (cancel_of o key body) (record_answer o)
                  (refl, (refl, (refl, (refl, e)))) (λ a. flush_pure-Silent _ _)))))

send_cancel-sends :
    (env : Env) (o : Order)
    → SendsOnly (λ s. (o.paper_trade ≡ false) × IsCancellation env o s) (send_cancel env o)
unfolding send_cancel
send_cancel-sends env o =
    let P = λ (s : Sent). (o.paper_trade ≡ false) × IsCancellation env o s in
    SendsOnly-if P o.paper_trade _ (dispatch_real_cancel env o)
      (λ p db. inl (flush_pure-Silent (record o { status = cancelled }) _ db))
      (λ p.
        weaken (IsCancellation env o) P (dispatch_real_cancel env o) (λ s i. (p, i))
          (dispatch_real_cancel-sends env o))

submit_prepared_cancel-sends :
    (env : Env) (o : Order) (signature : Text)
    → SendsOnly
        (λ s.
          (o.paper_trade ≡ false)
          × ((is_signature signature ≡ true)
              × IsCancellation env (cancel_signed env o signature) s))
        (submit_prepared_cancel env o signature)
unfolding submit_prepared_cancel
submit_prepared_cancel-sends env o signature =
    let o' = cancel_signed env o signature in
    let Q = λ (s : Sent). (o.paper_trade ≡ false) × IsCancellation env o' s in
    let P = λ (s : Sent).
      (o.paper_trade ≡ false) × ((is_signature signature ≡ true) × IsCancellation env o' s) in
    SendsOnly-if P (is_blank o.cancel_eip712_payload || is_none o.cancel_nonce) _ _
      (λ b db. inl refl)
      (λ b.
        SendsOnly-if P (not (is_signature signature)) _ _ (λ g db. inl (flush_pure-Silent _ _ db))
          (λ g.
            SendsOnly->>= P (flush_order o') (λ _. send_cancel env o') (flush_order-Silent o')
              (λ _.
                weaken Q P (send_cancel env o') (λ s (p, i). (p, (not-false _ g, i)))
                  (send_cancel-sends env o'))))

submit_cancel_loaded-sends :
    (env : Env) (signature : Text) (o : Order)
    → SendsOnly (IsCancelOf env (lower signature) o) (submit_cancel_loaded env signature o)
unfolding submit_cancel_loaded
submit_cancel_loaded-sends env signature o =
    let P = IsCancelOf env (lower signature) o in
    let Q = λ (s : Sent).
      (o.paper_trade ≡ false)
      × ((is_signature (lower signature) ≡ true)
          × IsCancellation env (cancel_signed env o (lower signature)) s) in
    SendsOnly-if P (is_terminal o.status) _ _ (λ t db. inl refl)
      (λ t.
        SendsOnly-if P (not (is_none o.cancel_eip712_signature)) _ _ (λ n db. inl refl)
          (λ n.
            weaken Q P (submit_prepared_cancel env o (lower signature))
              (λ s q. (t, (not-false _ n, q)))
              (submit_prepared_cancel-sends env o (lower signature))))

-- The submission of a cancel writes to the venue at most once; and what it writes belongs to an order
-- that is not terminal, not a paper trade, and has no signed cancel yet, under a well-formed signature:
-- the order's own venue and cancel nonce, the signature in lower case, and the bytes that the stored
-- cancel has as `params`.
pub submit_cancel-sends :
    (env : Env) (order_id : ℕ) (signature : Text) (db : Db)
    → ((submit_cancel env order_id signature db).1.sent ≡ db.sent)
      ⊎ ((s : Sent) × (((o : Order) × ((find_order order_id db ≡ some o)
                × IsCancelOf env (lower signature) o s))
            × ((submit_cancel env order_id signature db).1.sent ≡ db.sent ++ s ∷ [])))
unfolding submit_cancel
submit_cancel-sends env order_id signature db = elim (Option-cases (find_order order_id db)) [
  | inl e ↦
      rw
        (
          >>=-raised (load_order order_id) (submit_cancel_loaded env signature) value_error db db
              (load_order_missing order_id db e),
          submit_cancel,
        )
        (inl refl)
  | inr (o, e) ↦
      rw
        (
          >>=-ok (load_order order_id) (submit_cancel_loaded env signature) o db db
              (load_order_found order_id db o e),
          submit_cancel,
        )
        (elim (submit_cancel_loaded-sends env signature o db) [
          | inl q ↦ inl q
          | inr (s, (p, q)) ↦ inr (s, ((o, (e, p)), q))
        ])
]
