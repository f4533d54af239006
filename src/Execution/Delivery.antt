-- ===== src/Execution/Delivery.antt =====
-- The one write of `submit_new`.
use etfpulse.Base.{
  ℕ, ◌≡◌, refl, arith, Bool, true, false, not, some, is_none, [], ◌∷◌, ◌++◌, Text, ◌⊎◌, inl, inr,
  Option-cases, if◌then◌else◌, sym,
}
use etfpulse.Models.{
  Order, OrderStatus, pending, Sent, Db, Action, find_order, value_error, >>=-ok, >>=-raised,
}
use etfpulse.Models.Checks.{is_signature}
use etfpulse.Risk.Gates.{is_blank}
use etfpulse.Execution.Clients.{Env}
use etfpulse.Execution.Wire.{lower}
use etfpulse.Execution.Orders.{
  flush_order, load_order, load_order_found, load_order_missing, reject_submission,
}
use etfpulse.Execution.Paper.{ack_paper_conditional, simulate_paper_fill}
use etfpulse.Execution.Submit.{
  dispatch_real_submission, execute, signed, submit_pending, submit_new, submit_loaded, is_pending,
  has_expired,
}
use etfpulse.Execution.Sends.{
  Silent, SendsOnly, SendsOnly->>=, IsSubmission, flush_order-Silent, flush_pure-Silent,
  reject_submission-Silent, simulate_paper_fill-Silent, dispatch_real_submission-sends,
}

-- What a write of an order says of that order, which is the one before the call.
abbrev pub IsWriteOf : Env → Text → Order → Sent → Type 0
IsWriteOf env signature o s =
    (o.status ≡ pending)
    × ((o.paper_trade ≡ false)
        × ((is_signature signature ≡ true)
            × ((has_expired env.now o.nonce_expires_at ≡ false)
                × IsSubmission env (signed o signature) s)))

pub weaken {ℓ} :
    {A : Type ℓ} (P Q : Sent → Type 0) (m : Action A)
    → ((s : Sent) → P s → Q s)
    → SendsOnly P m
    → SendsOnly Q m
weaken P Q m f h db = elim (h db) [ inl e ↦ inl e | inr (s, (p, e)) ↦ inr (s, (f s p, e)) ]

module _ {ℓ} {A : Type ℓ} (P : Sent → Type 0) where
  pub SendsOnly-if :
      (c : Bool) (m n : Action A)
      → (c ≡ true → SendsOnly P m)
      → (c ≡ false → SendsOnly P n)
      → SendsOnly P (if c then m else n)
  SendsOnly-if true m n h k = h refl
  SendsOnly-if false m n h k = k refl

  pub Silent-SendsOnly : (m : Action A) → Silent m → SendsOnly P m
  Silent-SendsOnly m h db = inl (h db)

pub not-false : (b : Bool) → not b ≡ false → b ≡ true
not-false true h = refl
not-false false h = sym h

execute-sends :
    (env : Env) (o : Order)
    → SendsOnly (λ s. (o.paper_trade ≡ false) × IsSubmission env o s) (execute env o)
unfolding execute ack_paper_conditional
execute-sends env o =
    let P = λ (s : Sent). (o.paper_trade ≡ false) × IsSubmission env o s in
    let paper = simulate_paper_fill env.now env.execution_paper_slippage_bps o in
    SendsOnly-if P o.paper_trade (if o.is_conditional then ack_paper_conditional o else paper)
      (dispatch_real_submission env o)
      (λ p.
        SendsOnly-if P o.is_conditional (ack_paper_conditional o) paper
          (λ c. Silent-SendsOnly P (ack_paper_conditional o) (flush_pure-Silent _ _))
          (λ c. Silent-SendsOnly P paper (simulate_paper_fill-Silent _ _ o)))
      (λ p.
        weaken (IsSubmission env o) P (dispatch_real_submission env o) (λ s i. (p, i))
          (dispatch_real_submission-sends env o))

submit_pending-sends :
    (env : Env) (o : Order) (signature : Text)
    → o.status ≡ pending
    → SendsOnly (IsWriteOf env signature o) (submit_pending env o signature)
unfolding submit_pending
submit_pending-sends env o signature st =
    let P = IsWriteOf env signature o in
    let out =
      λ (t : Text). Silent-SendsOnly P (reject_submission o t) (reject_submission-Silent o t) in
    let Q = λ (s : Sent). (o.paper_trade ≡ false) × IsSubmission env (signed o signature) s in
    SendsOnly-if P (not (is_signature signature)) _ _ (λ g. out _)
      (λ g.
        SendsOnly-if P (has_expired env.now o.nonce_expires_at) _ _ (λ x. out _)
          (λ x.
            SendsOnly-if P (is_blank o.eip712_payload) _ _ (λ b. out _)
              (λ b.
                SendsOnly-if P (is_none o.eip712_payload_hash) _ _ (λ n. out _)
                  (λ n.
                    SendsOnly->>= P (flush_order (signed o signature))
                      (λ _. execute env (signed o signature)) (flush_order-Silent _)
                      (λ _.
                        weaken Q P (execute env (signed o signature))
                          (λ s (p, i). (st, (p, (not-false _ g, (x, i)))))
                          (execute-sends env (signed o signature)))))))

is_pending→eq : (s : OrderStatus) → is_pending s ≡ true → s ≡ pending
is_pending→eq s h = ground arith

submit_loaded-sends :
    (env : Env) (signature : Text) (o : Order)
    → SendsOnly (IsWriteOf env (lower signature) o) (submit_loaded env signature o)
unfolding submit_loaded
submit_loaded-sends env signature o =
    let P = IsWriteOf env (lower signature) o in
    SendsOnly-if P (is_pending o.status) _ _
      (λ e. submit_pending-sends env o (lower signature) (is_pending→eq o.status e))
      (λ e db. inl refl)

-- A submission writes to the venue at most once; and what it writes belongs to a pending order that is
-- not a paper trade, under a well-formed signature and within its nonce window: the order's own venue
-- and nonce, the signature in lower case, and the bytes that the stored payload has as `params`.
pub submit_new-sends :
    (env : Env) (order_id : ℕ) (signature : Text) (db : Db)
    → ((submit_new env order_id signature db).1.sent ≡ db.sent)
      ⊎ ((s : Sent) × (((o : Order) × ((find_order order_id db ≡ some o)
                × IsWriteOf env (lower signature) o s))
            × ((submit_new env order_id signature db).1.sent ≡ db.sent ++ s ∷ [])))
unfolding submit_new
submit_new-sends env order_id signature db = elim (Option-cases (find_order order_id db)) [
  | inl e ↦
      rw
        (
          >>=-raised (load_order order_id) (submit_loaded env signature) value_error db db
              (load_order_missing order_id db e),
          submit_new,
        )
        (inl refl)
  | inr (o, e) ↦
      rw
        (
          >>=-ok (load_order order_id) (submit_loaded env signature) o db db
              (load_order_found order_id db o e),
          submit_new,
        )
        (elim (submit_loaded-sends env signature o db) [
          | inl q ↦ inl q
          | inr (s, (p, q)) ↦ inr (s, ((o, (e, p)), q))
        ])
]
