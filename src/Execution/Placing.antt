-- ===== src/Execution/Placing.antt =====
-- What `prepare_new` does to the orders.
use etfpulse.Base.{
  ℕ, ◌/◌, ◌≡◌, refl, Bool, true, false, Option, none, some, [], ◌∷◌, ◌++◌, Text, inl, inr, ◌⊎◌,
  find_sound, ◌==◌, ==_iff, Option-cases, if◌then◌else◌, sym, ap, subst,
}
use etfpulse.Models.{
  Order, Venue, User, Db, Action, Result, Exn, ok, raised, pure, gets, find_user, value_error,
  integrity_error, client_order_id_unique, symbol_not_resolved, ◌>>=◌, >>=-ok, >>=-raised,
}
use etfpulse.Nonce.{next_nonce_for_user}
use etfpulse.Risk.{Settings, RiskRequest, RiskDecision, check_order, gates, first_denial}
use etfpulse.Risk.Laws.{allows, check_order-found, check_order-missing}
use etfpulse.Execution.Clients.{Env, Bundle, PrepareNewResult}
use etfpulse.Execution.Prepare.{
  Draft, insert_with_retry, resolve_symbol_id, freshest, prepare_allowed, decided, refused,
  prepare_new,
}
use etfpulse.Execution.Inserts.{IsNewRow, Inserted, insert_with_retry-Inserted, split_known}

-- What a preparation comes to, by the risk controller's answer. A refusal changes nothing, and names
-- no order. A grant puts one new row behind the orders, and names it. An exception leaves the orders.
abbrev pub Prepared : Bool → ℕ → ℕ → Db → Result PrepareNewResult × Db → Type 0
Prepared false user nonce db (ok r, db') = (r.allow ≡ false) × ((r.order_id ≡ none) × (db' ≡ db))
Prepared true user nonce db (ok r, db') =
    (r.allow ≡ true)
    × ((o : Order) × ((db'.orders ≡ db.orders ++ o ∷ [])
          × (IsNewRow user nonce db.orders o × (r.order_id ≡ some o.id))))
Prepared false user nonce db (raised e, db') = db' ≡ db
Prepared true user nonce db (raised e, db') = db'.orders ≡ db.orders

resolve_symbol_id-cases :
    (v : Venue) (a : Text) (db : Db)
    → (resolve_symbol_id v a db ≡ (raised (symbol_not_resolved v a), db))
      ⊎ ((n : ℕ) × (resolve_symbol_id v a db ≡ (ok n, db)))
unfolding resolve_symbol_id
resolve_symbol_id-cases v a db = elim (Option-cases (freshest v a db.symbols)) [
  | inl e ↦ inl (rw (e, resolve_symbol_id) refl)
  | inr (s, e) ↦ inr (s.symbol_id, rw (e, resolve_symbol_id) refl)
]

draft_of : RiskRequest → Option ℕ → User → ℕ → ℕ → Draft
draft_of r signal_id user symbol_id nonce = record {
  user = user;
  request = r;
  signal_id = signal_id;
  symbol_id = symbol_id;
  nonce = nonce;
}

granted_result : ℕ → Order × Bundle → Action PrepareNewResult
granted_result nonce x = pure (record {
  allow = true;
  order_id = some x.0.id;
  client_order_id = some x.0.client_order_id;
  nonce = some nonce;
  reason = none;
  breaker_trigger = none;
})

with_symbol : Env → RiskRequest → Option ℕ → User → ℕ → Action PrepareNewResult
with_symbol env r signal_id user symbol_id =
    gets (next_nonce_for_user (env.now / 1000) user.id) >>= λ nonce.
    insert_with_retry env (draft_of r signal_id user symbol_id nonce) 3
      (integrity_error client_order_id_unique)
    >>= granted_result nonce

with_symbol-Prepared :
    (env : Env) (r : RiskRequest) (signal_id : Option ℕ) (user : User) (n : ℕ) (db : Db)
    → Prepared true user.id
        (next_nonce_for_user (env.now / 1000) user.id db)
        db
        (with_symbol env r signal_id user n db)
unfolding with_symbol granted_result draft_of
with_symbol-Prepared env r signal_id user n db =
    let nonce = next_nonce_for_user (env.now / 1000) user.id db in
    let d = draft_of r signal_id user n nonce in
    split_known (granted_result nonce) (Prepared true user.id nonce db)
      (Inserted user.id nonce db.orders)
      (insert_with_retry env d 3 (integrity_error client_order_id_unique) db)
      (insert_with_retry-Inserted env d 3 (integrity_error client_order_id_unique) db.orders db
        refl)
      (λ e db' h. h) (λ x db' h. (refl, (x.0, (h.0, (h.1, refl)))))

prepare_allowed-Prepared :
    (env : Env) (r : RiskRequest) (signal_id : Option ℕ) (user : User) (db : Db)
    → Prepared true user.id
        (next_nonce_for_user (env.now / 1000) user.id db)
        db
        (prepare_allowed env r signal_id user db)
unfolding prepare_allowed with_symbol granted_result draft_of
prepare_allowed-Prepared env r signal_id user db =
    let P = Prepared true user.id (next_nonce_for_user (env.now / 1000) user.id db) db in
    elim (resolve_symbol_id-cases r.venue r.asset db) [
      | inl e ↦
          subst P
            (sym (
              >>=-raised (resolve_symbol_id r.venue r.asset) (with_symbol env r signal_id user)
                (symbol_not_resolved r.venue r.asset) db db e))
            refl
      | inr (n, e) ↦
          subst P
            (sym (
              >>=-ok (resolve_symbol_id r.venue r.asset) (with_symbol env r signal_id user) n db db
                e))
            (with_symbol-Prepared env r signal_id user n db)
    ]

chosen :
    (c : Bool) (user nonce : ℕ) (db : Db) (m : Action PrepareNewResult) (d : RiskDecision)
    → Prepared true user nonce db (m db)
    → Prepared c user nonce db ((if c then m else pure (refused d)) db)
unfolding refused
chosen true user nonce db m d h = h
chosen false user nonce db m d h = (refl, (refl, refl))

decided-Prepared :
    (env : Env) (r : RiskRequest) (signal_id : Option ℕ) (d : RiskDecision) (user : User) (db : Db)
    → Prepared d.allow user.id
        (next_nonce_for_user (env.now / 1000) user.id db)
        db
        (decided env r signal_id (d, user) db)
unfolding decided
decided-Prepared env r signal_id d user db =
    chosen d.allow user.id (next_nonce_for_user (env.now / 1000) user.id db) db
      (prepare_allowed env r signal_id user) d (prepare_allowed-Prepared env r signal_id user db)

Prepared-raised :
    (granted : Bool) (user nonce : ℕ) (e : Exn) (db : Db)
    → Prepared granted user nonce db (raised e, db)
Prepared-raised true user nonce e db = refl
Prepared-raised false user nonce e db = refl

-- A preparation answers as the risk controller does. A refused one changes nothing and names no order,
-- and one that raises leaves the orders as they were. An allowed one that returns has put one row behind the orders: pending and unsigned, of this user and with the user's
-- next nonce, within the CHECKs, and with a client order id that no other row has.
pub prepare_new-row :
    (s : Settings) (env : Env) (id : ℕ) (r : RiskRequest) (signal_id : Option ℕ) (db : Db)
    → Prepared
        (allows (check_order s env.now id r db).0)
        id
        (next_nonce_for_user (env.now / 1000) id db)
        db
        (prepare_new s env id r signal_id db)
unfolding prepare_new
prepare_new-row s env id r signal_id db = elim (Option-cases (find_user id db)) [
  | inl e ↦
      subst (Prepared _ id _ db)
        (sym (
          >>=-raised (check_order s env.now id r) (decided env r signal_id) value_error db db
            (check_order-missing s env.now id r db e)))
        (Prepared-raised _ id _ value_error db)
  | inr (u, e) ↦
      let found = check_order-found s env.now id r db u e in
      let d = first_denial (gates s env.now r db u) in
      let same : u.id ≡ id = (==_iff u.id id).0 (find_sound (λ x. x.id == id) db.users u e) in
      subst
        (λ g.
          Prepared g id (next_nonce_for_user (env.now / 1000) id db) db
            (prepare_new s env id r signal_id db))
        (sym (ap (λ x. allows x.0) found))
        (subst
          (λ k.
            Prepared d.allow k (next_nonce_for_user (env.now / 1000) k db) db
              (prepare_new s env id r signal_id db))
          same
          (subst (Prepared d.allow u.id (next_nonce_for_user (env.now / 1000) u.id db) db)
            (sym (>>=-ok (check_order s env.now id r) (decided env r signal_id) (d, u) db db found))
            (decided-Prepared env r signal_id d u db)))
]
