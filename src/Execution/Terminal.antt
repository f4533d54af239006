-- ===== src/Execution/Terminal.antt =====
-- Orders in a terminal status.
use etfpulse.Base.{
  ℕ, ◌≡◌, refl, ◌∙◌, arith, Bool, true, some, Text, inl, inr, Bool-cases, if◌then◌else◌, ap,
}
use etfpulse.Models.{Order, is_terminal, Db, Action, pure, find_order, >>=-ok}
use etfpulse.Positions.{option_eq}
use etfpulse.Execution.Clients.{Env}
use etfpulse.Execution.Orders.{load_order, load_order_found}
use etfpulse.Execution.Submit.{submit_new}
use etfpulse.Execution.Replay.{submit_new_found, loaded_past}
use etfpulse.Execution.Cancel.{
  prepare_own_cancel, prepare_loaded, prepare_cancel, submit_cancel_loaded, submit_cancel,
}

first_branch {ℓ} :
    {A : Type ℓ} (c : Bool) (a : A) (n : Action A) (db : Db)
    → c ≡ true
    → ((if c then pure a else n) db).1 ≡ db
first_branch c a n db h = ap (λ b. ((if b then pure a else n) db).1) h

own_cancel_untouched :
    (env : Env) (user : ℕ) (o : Order) (db : Db)
    → is_terminal o.status ≡ true
    → (prepare_own_cancel env user o db).1 ≡ db
unfolding prepare_own_cancel
own_cancel_untouched env user o db h = first_branch (is_terminal o.status) _ _ db h

prepare_loaded_untouched :
    (env : Env) (user : ℕ) (o : Order) (db : Db)
    → is_terminal o.status ≡ true
    → (prepare_loaded env user o db).1 ≡ db
unfolding prepare_loaded
prepare_loaded_untouched env user o db h = elim (Bool-cases (option_eq o.user_id (some user))) [
  | inl e ↦ simp (e, prepare_loaded) (own_cancel_untouched env user o db h)
  | inr e ↦ simp (e, prepare_loaded) refl
]

submit_cancel_untouched :
    (env : Env) (signature : Text) (o : Order) (db : Db)
    → is_terminal o.status ≡ true
    → (submit_cancel_loaded env signature o db).1 ≡ db
unfolding submit_cancel_loaded
submit_cancel_untouched env signature o db h = first_branch (is_terminal o.status) _ _ db h

-- No call touches an order whose status is terminal, or anything else: a submission, and the
-- preparation and the submission of a cancel, by whatever user and under whatever signature, leave the
-- whole state as it was.
pub terminal_untouched :
    (env : Env) (id user : ℕ) (signature : Text) (db : Db) (o : Order)
    → find_order id db ≡ some o
    → is_terminal o.status ≡ true
    → ((submit_new env id signature db).1 ≡ db)
      × (((prepare_cancel env user id db).1 ≡ db) × ((submit_cancel env id signature db).1 ≡ db))
unfolding prepare_cancel submit_cancel
terminal_untouched env id user signature db o e h = (
  ap (λ t. t.1)
      (submit_new_found env id signature db o e
        ∙ loaded_past env signature db o (ground (arith, h))),
  (
    ap (λ t. t.1)
          (>>=-ok (load_order id) (prepare_loaded env user) o db db (load_order_found id db o e))
        ∙ prepare_loaded_untouched env user o db h,
    ap (λ t. t.1)
          (>>=-ok (load_order id) (submit_cancel_loaded env signature) o db db
            (load_order_found id db o e))
        ∙ submit_cancel_untouched env signature o db h,
  ),
)
