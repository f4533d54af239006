-- ===== src/Execution/Replay.antt =====
-- The outcome of `submit_new`, and a second submission of the same order.
use etfpulse.Base.{
  ℕ, ◌≡◌, refl, ◌∙◌, arith, Bool, true, false, not, some, Text, find_sound, ◌==◌, ==_iff, inl, inr,
  Bool-cases, Option-cases, if◌then◌else◌, sym, ap, subst,
}
use etfpulse.Models.{
  Order, OrderStatus, pending, Db, Result, ok, raised, pure, find_order, value_error, >>=-ok,
  >>=-raised,
}
use etfpulse.Execution.Clients.{Env, SubmitResult}
use etfpulse.Execution.Wire.{lower}
use etfpulse.Execution.Orders.{load_order, load_order_found, load_order_missing, reported}
use etfpulse.Execution.Submit.{submit_pending, submit_loaded, submit_new, is_pending}
use etfpulse.Execution.Settles.{is_outcome, Settled}
use etfpulse.Execution.Outcome.{submit_pending-Settles}

pub submit_new_found :
    (env : Env) (id : ℕ) (signature : Text) (db : Db) (o : Order)
    → find_order id db ≡ some o
    → submit_new env id signature db ≡ submit_loaded env signature o db
unfolding submit_new
submit_new_found env id signature db o e =
    >>=-ok (load_order id) (submit_loaded env signature) o db db (load_order_found id db o e)

loaded_pending :
    (env : Env) (signature : Text) (db : Db) (o : Order)
    → is_pending o.status ≡ true
    → submit_loaded env signature o db ≡ submit_pending env o (lower signature) db
unfolding submit_loaded
loaded_pending env signature db o p =
    ap
      (λ c.
        (if c
            then submit_pending env o (lower signature)
            else pure (record (reported o) { replayed = true }))
          db)
      p

pub loaded_past :
    (env : Env) (signature : Text) (db : Db) (o : Order)
    → is_pending o.status ≡ false
    → submit_loaded env signature o db ≡ (ok (record (reported o) { replayed = true }), db)
unfolding submit_loaded
loaded_past env signature db o p =
    ap
      (λ c.
        (if c
            then submit_pending env o (lower signature)
            else pure (record (reported o) { replayed = true }))
          db)
      p

own_id : (id : ℕ) (db : Db) (o : Order) → find_order id db ≡ some o → o.id ≡ id
own_id id db o e = (==_iff o.id id).0 (find_sound (λ x. x.id == id) db.orders o e)

-- The submission of a pending order that returns leaves the order submitted, acknowledged, filled or
-- rejected, and reports the status that is stored.
pub submit_new-outcome :
    (env : Env) (id : ℕ) (signature : Text) (db : Db) (o : Order)
    → find_order id db ≡ some o
    → o.status ≡ pending
    → Settled is_outcome id (submit_new env id signature db)
submit_new-outcome env id signature db o e p =
    subst (Settled is_outcome id)
      (sym (
        submit_new_found env id signature db o e
        ∙ loaded_pending env signature db o (ap is_pending p)))
      (subst (λ k. Settled is_outcome k (submit_pending env o (lower signature) db))
        (own_id id db o e)
        (submit_pending-Settles env o (lower signature) db
          (o, subst (λ k. find_order k db ≡ some o) (sym (own_id id db o e)) e)))

not-true : (b : Bool) → not b ≡ true → b ≡ false
not-true true h = sym h
not-true false h = refl

is_past : OrderStatus → Bool
is_past s = not (is_pending s)

outcome_past :
    (id : ℕ) (r : Result SubmitResult × Db) → Settled is_outcome id r → Settled is_past id r
unfolding is_past
outcome_past id (ok r, db) (o, (e, (h, k))) = (o, (e, (ground (arith, h), k)))
outcome_past id (raised x, db) h = tt

submit_new_past :
    (env : Env) (id : ℕ) (signature : Text) (db : Db)
    → Settled is_past id (submit_new env id signature db)
unfolding is_past submit_new
submit_new_past env id signature db = elim (Option-cases (find_order id db)) [
  | inl e ↦
      subst (Settled is_past id)
        (sym (
          >>=-raised (load_order id) (submit_loaded env signature) value_error db db
            (load_order_missing id db e)))
        tt
  | inr (o, e) ↦ elim (Bool-cases (is_pending o.status)) [
    | inl p ↦ outcome_past id _ (submit_new-outcome env id signature db o e (ground (arith, p)))
    | inr p ↦
        subst (Settled is_past id)
          (sym (submit_new_found env id signature db o e ∙ loaded_past env signature db o p))
          (o, (e, (ap not p, refl)))
  ]
]

-- Once a submission has returned, any further one of that order is a replay: it returns the same
-- status and changes nothing, so that nothing is sent twice.
pub submit_new-replay :
    (env env' : Env) (id : ℕ) (signature signature' : Text) (db db' : Db) (r : SubmitResult)
    → submit_new env id signature db ≡ (ok r, db')
    → (r' : SubmitResult) × ((submit_new env' id signature' db' ≡ (ok r', db'))
        × ((r'.status ≡ r.status) × (r'.replayed ≡ true)))
unfolding is_past
submit_new-replay env env' id signature signature' db db' r h =
    let (o, (e, (p, s))) = subst (Settled is_past id) h (submit_new_past env id signature db) in
    (
      record (reported o) { replayed = true },
      (
        submit_new_found env' id signature' db' o e
            ∙ loaded_past env' signature' db' o (not-true _ p),
        (sym s, refl),
      ),
    )
