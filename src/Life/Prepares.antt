-- ===== src/Life/Prepares.antt =====
-- `prepare_new` along the life of orders: one new row, behind the others.
use etfpulse.Base.{
  ℕ, zero, suc, ◌/◌, refl, true, Option, none, some, [], ◌∷◌, Text, List, inl, inr, Bool-cases,
  Option-cases, any, text_eq, Bool,
}
use etfpulse.Models.{
  OrderSide, OrderType, Order, Venue, sodex_spot, sodex_perps, unknown_venue, User, Db, Action,
  Result, ok, raised, Exn, Constraint, client_order_id_unique, integrity_error, value_error,
  key_error, multiple_results, no_result, json_error, symbol_not_resolved, client_error, pure,
  or_raise, gets, find_user, sodex_to_db_side, sodex_to_db_type, sodex_to_db_tif, ◌>>=◌, >>=-ok,
  >>=-raised,
}
use etfpulse.Models.Checks.{order_checks}
use etfpulse.Nonce.{next_nonce_for_user}
use etfpulse.Risk.{Settings, RiskRequest, RiskDecision, check_order, gates, first_denial}
use etfpulse.Risk.Laws.{check_order-found, check_order-missing}
use etfpulse.Execution.Clients.{Env, Bundle, PrepareNewResult}
use etfpulse.Execution.Prepare.{
  freshest, perps_part, request_of, resolve_symbol_id, make_client_order_id, build_new_order_bundle,
  Draft, new_order, insert_order, or_retry, draft_row, insert_with_retry, prepare_allowed, decided,
  prepare_new,
}
use etfpulse.Life.Rows.{OrdersApart-insert, Grows-append, below_later}
use etfpulse.Life.Upholds.{Kept, Upholds, Upholds->>=, Upholds-if, or_raise-Upholds}

module _ (xs : List Order) where
  insert_order-Upholds : (o : Order) → Upholds xs (insert_order o)
  unfolding insert_order
  insert_order-Upholds o db k =
      let row = record o { id = db.next_order_id } in
      let later : Kept xs (record db { next_order_id = suc db.next_order_id }) =
        ((k.0.0, below_later db.next_order_id db.orders k.0.1), k.1) in
      elim (Bool-cases (order_checks row)) [
        | inr c ↦ rw (c, insert_order) later
        | inl c ↦
            elim (Bool-cases (any (λ x. text_eq x.client_order_id o.client_order_id) db.orders)) [
              | inl t ↦ rw (c, t, insert_order) later
              | inr t ↦
                  rw (c, t, insert_order)
                    (
                      OrdersApart-insert row db refl k.0,
                      (k.1.0, Grows-append xs db.orders (row ∷ []) k.1.1),
                    )
            ]
      ]

  resolve_symbol_id-Upholds :
      (venue : Venue) (asset : Text) → Upholds xs (resolve_symbol_id venue asset)
  unfolding resolve_symbol_id
  resolve_symbol_id-Upholds venue asset db k =
      elim (Option-cases (freshest venue asset db.symbols)) [
        | inl e ↦ rw (e, resolve_symbol_id) k
        | inr (s, e) ↦ rw (e, resolve_symbol_id) k
      ]

  make_client_order_id-Upholds :
      (venue : Venue) (token : Text) → Upholds xs (make_client_order_id venue token)
  unfolding make_client_order_id
  make_client_order_id-Upholds sodex_spot token db k = k
  make_client_order_id-Upholds sodex_perps token db k = k
  make_client_order_id-Upholds unknown_venue token db k = k

  perps_part-Upholds : (r : RiskRequest) (venue : Venue) → Upholds xs (perps_part r venue)
  perps_part-Upholds r sodex_spot db k = k
  perps_part-Upholds r unknown_venue db k = k
  perps_part-Upholds r sodex_perps db k = elim (Option-cases r.position_side) [
    | inl e ↦ rw e k
    | inr (side, e) ↦ rw e k
  ]

  bundle-Upholds :
      (env : Env) (r : RiskRequest) (account : Option ℕ) (symbol_id nonce : ℕ) (id : Text)
      → Upholds xs (build_new_order_bundle env r account symbol_id nonce id)
  unfolding build_new_order_bundle
  bundle-Upholds env r none symbol_id nonce id = λ db k. k
  bundle-Upholds env r (some account) symbol_id nonce id =
      Upholds->>= xs (perps_part r r.venue)
        (λ perps.
          or_raise (env.build_new_order (request_of r account symbol_id id perps) nonce)
            value_error)
        (perps_part-Upholds r r.venue)
        λ perps.
          or_raise-Upholds xs (env.build_new_order (request_of r account symbol_id id perps) nonce)
            value_error

  draft_row-Upholds :
      (env : Env) (d : Draft) (id : Text) (bundle : Bundle) → Upholds xs (draft_row env d id bundle)
  unfolding draft_row
  draft_row-Upholds env d id bundle =
      Upholds->>= xs (or_raise (sodex_to_db_side d.request.side) key_error) sided
        (or_raise-Upholds xs (sodex_to_db_side d.request.side) key_error)
        λ side.
          Upholds->>= xs (or_raise (sodex_to_db_type d.request.order_type) key_error) (typed side)
            (or_raise-Upholds xs (sodex_to_db_type d.request.order_type) key_error)
            λ type.
              Upholds->>= xs (or_raise (sodex_to_db_tif d.request.time_in_force) key_error)
                (λ tif. pure (new_order env.now d id bundle side type tif))
                (or_raise-Upholds xs (sodex_to_db_tif d.request.time_in_force) key_error)
                λ tif db k. k
    where
      typed : OrderSide → OrderType → Action Order
      typed side type = or_raise (sodex_to_db_tif d.request.time_in_force) key_error >>= λ tif.
          pure (new_order env.now d id bundle side type tif)

      sided : OrderSide → Action Order
      sided side = or_raise (sodex_to_db_type d.request.order_type) key_error >>= typed side

  or_retry-Upholds :
      (names : Constraint → Bool) (again : Exn → Action (Order × Bundle)) (b : Bundle)
      (x : Result Order)
      → ((e : Exn) → Upholds xs (again e))
      → Upholds xs (or_retry names again b x)
  or_retry-Upholds names again b (ok o) h = λ db k. k
  or_retry-Upholds names again b (raised (integrity_error c)) h =
      Upholds-if xs (names c) _ _ (h (integrity_error c)) λ db k. k
  or_retry-Upholds names again b (raised value_error) h = λ db k. k
  or_retry-Upholds names again b (raised key_error) h = λ db k. k
  or_retry-Upholds names again b (raised multiple_results) h = λ db k. k
  or_retry-Upholds names again b (raised no_result) h = λ db k. k
  or_retry-Upholds names again b (raised json_error) h = λ db k. k
  or_retry-Upholds names again b (raised (symbol_not_resolved v a)) h = λ db k. k
  or_retry-Upholds names again b (raised (client_error e)) h = λ db k. k

  attempt : Env → Draft → ℕ → Bundle → Order → Action (Order × Bundle)
  attempt env d left bundle row db =
      or_retry env.names_client_order_id (insert_with_retry env d left) bundle
        (insert_order row db).0 (insert_order row db).1

  insert_with_retry-Upholds :
      (env : Env) (d : Draft) (left : ℕ) (last : Exn)
      → Upholds xs (insert_with_retry env d left last)
  unfolding insert_with_retry attempt
  insert_with_retry-Upholds env d zero last = λ db k. k
  insert_with_retry-Upholds env d (suc left) last =
      Upholds->>= xs (make_client_order_id d.request.venue (env.token left)) bundled
        (make_client_order_id-Upholds d.request.venue (env.token left))
        λ id.
          Upholds->>= xs
            (build_new_order_bundle env d.request d.user.sodex_account_id d.symbol_id d.nonce id)
            (rowed id) (bundle-Upholds env d.request d.user.sodex_account_id d.symbol_id d.nonce id)
            λ b.
              Upholds->>= xs (draft_row env d id b) (attempt env d left b)
                (draft_row-Upholds env d id b)
                λ row db k.
                  or_retry-Upholds env.names_client_order_id (insert_with_retry env d left) b
                    (insert_order row db).0 (insert_with_retry-Upholds env d left)
                    (insert_order row db).1 (insert_order-Upholds row db k)
    where
      rowed : Text → Bundle → Action (Order × Bundle)
      rowed id b = draft_row env d id b >>= attempt env d left b

      bundled : Text → Action (Order × Bundle)
      bundled id =
          build_new_order_bundle env d.request d.user.sodex_account_id d.symbol_id d.nonce id
          >>= rowed id

  prepare_allowed-Upholds :
      (env : Env) (r : RiskRequest) (signal_id : Option ℕ) (user : User)
      → Upholds xs (prepare_allowed env r signal_id user)
  unfolding prepare_allowed
  prepare_allowed-Upholds env r signal_id user =
      Upholds->>= xs (resolve_symbol_id r.venue r.asset) numbered
        (resolve_symbol_id-Upholds r.venue r.asset)
        λ symbol.
          Upholds->>= xs (gets (next_nonce_for_user (env.now / 1000) user.id)) (inserted symbol)
            (λ db k. k)
            λ nonce.
              Upholds->>= xs
                (insert_with_retry env (draft symbol nonce) 3
                  (integrity_error client_order_id_unique))
                (allowed nonce)
                (insert_with_retry-Upholds env (draft symbol nonce) 3
                  (integrity_error client_order_id_unique))
                λ x db k. k
    where
      draft : ℕ → ℕ → Draft
      draft symbol nonce = record {
        user = user;
        request = r;
        signal_id = signal_id;
        symbol_id = symbol;
        nonce = nonce;
      }

      allowed : ℕ → Order × Bundle → Action PrepareNewResult
      allowed nonce inserted = pure (record {
        allow = true;
        order_id = some inserted.0.id;
        client_order_id = some inserted.0.client_order_id;
        nonce = some nonce;
        reason = none;
        breaker_trigger = none;
      })

      inserted : ℕ → ℕ → Action PrepareNewResult
      inserted symbol nonce =
          insert_with_retry env (draft symbol nonce) 3 (integrity_error client_order_id_unique)
          >>= allowed nonce

      numbered : ℕ → Action PrepareNewResult
      numbered symbol = gets (next_nonce_for_user (env.now / 1000) user.id) >>= inserted symbol

  decided-Upholds :
      (env : Env) (r : RiskRequest) (signal_id : Option ℕ) (x : RiskDecision × User)
      → Upholds xs (decided env r signal_id x)
  unfolding decided
  decided-Upholds env r signal_id (d, user) =
      Upholds-if xs d.allow _ _ (prepare_allowed-Upholds env r signal_id user) λ db k. k

pub prepare_new-Kept :
    (s : Settings) (env : Env) (id : ℕ) (r : RiskRequest) (signal_id : Option ℕ) (db : Db)
    → Kept db.orders db
    → Kept db.orders (prepare_new s env id r signal_id db).1
unfolding prepare_new
prepare_new-Kept s env id r signal_id db k = elim (Option-cases (find_user id db)) [
  | inl e ↦
      rw
        (>>=-raised (check_order s env.now id r) (decided env r signal_id) value_error db db
          (check_order-missing s env.now id r db e))
        k
  | inr (u, e) ↦
      rw
        (>>=-ok (check_order s env.now id r) (decided env r signal_id)
          (first_denial (gates s env.now r db u), u) db db
          (check_order-found s env.now id r db u e))
        (decided-Upholds db.orders env r signal_id (first_denial (gates s env.now r db u), u) db k)
]
