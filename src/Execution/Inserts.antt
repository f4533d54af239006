-- ===== src/Execution/Inserts.antt =====
-- The row that `prepare_new` inserts.
use etfpulse.Base.{
  ℕ, zero, suc, ◌≡◌, refl, ◌∙◌, Bool, true, false, Option, none, some, List, [], ◌∷◌, ◌++◌, Text,
  text_eq, any, inl, inr, Bool-cases, Option-cases, if◌then◌else◌, subst,
}
use etfpulse.Models.{
  Order, Venue, sodex_spot, sodex_perps, unknown_venue, pending, Db, Action, Result, ok, raised,
  Exn, pure, raise, or_raise, value_error, key_error, integrity_error, Constraint, value_error,
  multiple_results, no_result, json_error, symbol_not_resolved, client_error, sodex_to_db_side,
  sodex_to_db_type, sodex_to_db_tif, ◌>>=◌,
}
use etfpulse.Models.Checks.{order_checks}
use etfpulse.Risk.{RiskRequest}
use etfpulse.Execution.Clients.{Env, Bundle}
use etfpulse.Execution.Prepare.{
  Draft, new_order, draft_row, insert_order, or_retry, insert_with_retry, make_client_order_id,
  build_new_order_bundle, perps_part, request_of,
}
use etfpulse.Execution.Frames.{Quiet, after_quiet, Quiet->>=, or_raise-Quiet}

-- A new row behind the orders: pending and unsigned, of this user and with this nonce, within the
-- CHECKs, and with a client order id that no other row has.
pub record IsNewRow (user nonce : ℕ) (os : List Order) (o : Order) : Type 0 where
  pub of_user : o.user_id ≡ some user
  pub is_pending : o.status ≡ pending
  pub unsigned : o.eip712_signature ≡ none
  pub has_nonce : o.nonce ≡ some nonce
  pub checked : order_checks o ≡ true
  pub unique : any (λ x. text_eq x.client_order_id o.client_order_id) os ≡ false

abbrev IsDrafted : Draft → Order → Type 0
IsDrafted d o =
    (o.user_id ≡ some d.user.id)
    × ((o.status ≡ pending) × ((o.eip712_signature ≡ none) × (o.nonce ≡ some d.nonce)))

-- What an attempt comes to, on these orders: a new row, or an exception and the same orders.
abbrev pub Inserted : ℕ → ℕ → List Order → Result (Order × Bundle) × Db → Type 0
Inserted user nonce os (ok (o, b), db) = (db.orders ≡ os ++ o ∷ []) × IsNewRow user nonce os o
Inserted user nonce os (raised e, db) = db.orders ≡ os

abbrev Attempted : Draft → List Order → Result Order × Db → Type 0
Attempted d os (ok o, db) = (db.orders ≡ os ++ o ∷ []) × IsNewRow d.user.id d.nonce os o
Attempted d os (raised e, db) = db.orders ≡ os

insert_order-Attempted :
    (d : Draft) (o : Order) (db : Db) → IsDrafted d o → Attempted d db.orders (insert_order o db)
unfolding insert_order
insert_order-Attempted d o db (u, (p, (g, n))) =
    let row = record o { id = db.next_order_id } in
    elim (Bool-cases (order_checks row)) [
      | inr c ↦ rw (c, insert_order) refl
      | inl c ↦
          elim (Bool-cases (any (λ x. text_eq x.client_order_id o.client_order_id) db.orders)) [
            | inl t ↦ rw (c, t, insert_order) refl
            | inr t ↦
                rw (c, t, insert_order)
                  (
                    refl,
                    record {
                      of_user = u;
                      is_pending = p;
                      unsigned = g;
                      has_nonce = n;
                      checked = c;
                      unique = t;
                    },
                  )
          ]
    ]

Drafted : Draft → List Order → Result Order × Db → Type 0
Drafted d os (ok o, db) = IsDrafted d o × (db.orders ≡ os)
Drafted d os (raised e, db) = db.orders ≡ os

module _ {ℓ κ} {A : Type ℓ} {B : Type κ} (f : A → Action B) (P : Result B × Db → Type 0)
    (Q : Result A × Db → Type 0) where
  pub split_known :
      (t : Result A × Db)
      → Q t
      → ((e : Exn) (db : Db) → Q (raised e, db) → P (raised e, db))
      → ((a : A) (db : Db) → Q (ok a, db) → P (f a db))
      → P (elim t.0 [ ok a ↦ f a t.1 | raised e ↦ raise e t.1 ])
  split_known (ok a, db) q bad good = good a db q
  split_known (raised e, db) q bad good = bad e db q

draft_row-Drafted :
    (env : Env) (d : Draft) (c : Text) (b : Bundle) (db : Db)
    → Drafted d db.orders (draft_row env d c b db)
unfolding draft_row Drafted new_order
draft_row-Drafted env d c b db = elim (Option-cases (sodex_to_db_side d.request.side)) [
  | inl e ↦ rw (e, draft_row) refl
  | inr (s, e) ↦ elim (Option-cases (sodex_to_db_type d.request.order_type)) [
    | inl e' ↦ rw (e, e', draft_row) refl
    | inr (t, e') ↦ elim (Option-cases (sodex_to_db_tif d.request.time_in_force)) [
      | inl e'' ↦ rw (e, e', e'', draft_row) refl
      | inr (i, e'') ↦ rw (e, e', e'', draft_row) ((refl, (refl, (refl, refl))), refl)
    ]
  ]
]

make_client_order_id-Quiet : (v : Venue) (t : Text) → Quiet (make_client_order_id v t)
unfolding make_client_order_id
make_client_order_id-Quiet sodex_spot t db = (refl, refl)
make_client_order_id-Quiet sodex_perps t db = (refl, refl)
make_client_order_id-Quiet unknown_venue t db = (refl, refl)

or_raise_two-Quiet :
    {A B : Type 0} (x : Option A) (e : Exn) (f : A → B) → Quiet (or_raise x e >>= λ a. pure (f a))
or_raise_two-Quiet none e f db = (refl, refl)
or_raise_two-Quiet (some a) e f db = (refl, refl)

perps_part-Quiet : (r : RiskRequest) (v : Venue) → Quiet (perps_part r v)
perps_part-Quiet r sodex_spot db = (refl, refl)
perps_part-Quiet r unknown_venue db = (refl, refl)
perps_part-Quiet r sodex_perps db = or_raise_two-Quiet r.position_side value_error _ db

build_new_order_bundle-Quiet :
    (env : Env) (r : RiskRequest) (a : Option ℕ) (s n : ℕ) (c : Text)
    → Quiet (build_new_order_bundle env r a s n c)
unfolding build_new_order_bundle
build_new_order_bundle-Quiet env r none s n c db = (refl, refl)
build_new_order_bundle-Quiet env r (some a) s n c db =
    Quiet->>= (perps_part r r.venue)
      (λ p. or_raise (env.build_new_order (request_of r a s c p) n) value_error)
      (perps_part-Quiet r r.venue)
      (λ p. or_raise-Quiet (env.build_new_order (request_of r a s c p) n) value_error) db

retried :
    (user nonce : ℕ) (os : List Order) (c : Bool) (again stop : Action (Order × Bundle)) (db : Db)
    → Inserted user nonce os (again db)
    → Inserted user nonce os (stop db)
    → Inserted user nonce os ((if c then again else stop) db)
retried user nonce os true again stop db h k = h
retried user nonce os false again stop db h k = k

module _ (names : Constraint → Bool) (d : Draft) (os : List Order)
    (again : Exn → Action (Order × Bundle))
    (retry : (e : Exn) (db : Db)
      → db.orders ≡ os
      → Inserted d.user.id d.nonce os (again e db)) where
  or_retry-Inserted :
      (b : Bundle) (t : Result Order × Db)
      → Attempted d os t
      → Inserted d.user.id d.nonce os (or_retry names again b t.0 t.1)
  or_retry-Inserted b (ok o, db) h = h
  or_retry-Inserted b (raised (integrity_error c), db) h =
      retried d.user.id d.nonce os (names c) (again (integrity_error c)) (raise (integrity_error c))
        db (retry (integrity_error c) db h) h
  or_retry-Inserted b (raised value_error, db) h = h
  or_retry-Inserted b (raised key_error, db) h = h
  or_retry-Inserted b (raised multiple_results, db) h = h
  or_retry-Inserted b (raised no_result, db) h = h
  or_retry-Inserted b (raised json_error, db) h = h
  or_retry-Inserted b (raised (symbol_not_resolved v a), db) h = h
  or_retry-Inserted b (raised (client_error e), db) h = h

insert_row : Env → Draft → ℕ → Bundle → Order → Action (Order × Bundle)
insert_row env d left bundle row db =
    or_retry env.names_client_order_id (insert_with_retry env d left) bundle (insert_order row db).0
      (insert_order row db).1

insert_bundle : Env → Draft → ℕ → Text → Bundle → Action (Order × Bundle)
insert_bundle env d left c bundle = draft_row env d c bundle >>= insert_row env d left bundle

insert_named : Env → Draft → ℕ → Text → Action (Order × Bundle)
insert_named env d left c =
    build_new_order_bundle env d.request d.user.sodex_account_id d.symbol_id d.nonce c
    >>= insert_bundle env d left c

pub insert_with_retry-Inserted :
    (env : Env) (d : Draft) (left : ℕ) (last : Exn) (os : List Order) (db : Db)
    → db.orders ≡ os
    → Inserted d.user.id d.nonce os (insert_with_retry env d left last db)
unfolding insert_with_retry insert_named insert_bundle insert_row Drafted
insert_with_retry-Inserted env d zero last os db e = e
insert_with_retry-Inserted env d (suc left) last os db e =
    let P = Inserted d.user.id d.nonce os in
    after_quiet (insert_named env d left) P (make_client_order_id d.request.venue (env.token left))
      db (make_client_order_id-Quiet d.request.venue (env.token left)) (λ x db1 fr. fr.0 ∙ e)
      (λ c db1 fr1.
        after_quiet (insert_bundle env d left c) P
          (build_new_order_bundle env d.request d.user.sodex_account_id d.symbol_id d.nonce c) db1
          (build_new_order_bundle-Quiet env d.request d.user.sodex_account_id d.symbol_id d.nonce c)
          (λ x db2 fr. fr.0 ∙ fr1.0 ∙ e)
          (λ b db2 fr2.
            split_known (insert_row env d left b) P (Drafted d db2.orders) (draft_row env d c b db2)
              (draft_row-Drafted env d c b db2) (λ x db3 h. h ∙ fr2.0 ∙ fr1.0 ∙ e)
              (λ row db3 h.
                or_retry-Inserted env.names_client_order_id d os (insert_with_retry env d left)
                  (λ x db4 k. insert_with_retry-Inserted env d left x os db4 k) b
                  (insert_order row db3)
                  (subst (λ l. Attempted d l (insert_order row db3)) (h.1 ∙ fr2.0 ∙ fr1.0 ∙ e)
                    (insert_order-Attempted d row db3 h.0)))))
