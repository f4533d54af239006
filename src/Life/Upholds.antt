-- ===== src/Life/Upholds.antt =====
-- Actions that keep both tables apart and let the orders of an earlier table advance only, and how
-- they compose. The calls of the orchestrator are built from these.
use etfpulse.Base.{
  All, ◌<◌, subst, sym, ℕ, ◌≡◌, refl, Bool, true, false, Option, none, some, Text, inl, inr,
  Bool-cases, Option-cases, if◌then◌else◌, List, [], ◌∷◌,
}
use etfpulse.Decimal.{Decimal}
use etfpulse.Models.{
  >>=-ok, >>=-raised, find_order, Venue, sodex_spot, sodex_perps, unknown_venue, Order, User, Sent,
  Db, Exn, Action, pure, raise, or_raise, find_user, save_order, value_error, ◌>>=◌, ◌>>◌,
}
use etfpulse.Models.Checks.{order_checks}
use etfpulse.Positions.Apart.{PositionsApart}
use etfpulse.Positions.Fills.{spot_apply_fill-PositionsApart, perps_apply_fill-PositionsApart}
use etfpulse.Positions.Spot.{spot_apply_fill}
use etfpulse.Positions.Perps.{perps_apply_fill}
use etfpulse.Execution.Clients.{
  Env, Answer, items, sodex_auth_error, sodex_envelope_error, other_error,
}
use etfpulse.Execution.Orders.{
  load_order, load_order_found, load_order_missing, flush_order, load_user,
  default_api_key_resolver, key_name, send, answered,
}
use etfpulse.Execution.Paper.{apply_fill}
use etfpulse.Execution.Frames.{split}
use etfpulse.Life.{Advanced}
use etfpulse.Life.Fills.{spot_apply_fill-OrderFrame, perps_apply_fill-OrderFrame}
use etfpulse.Life.Rows.{
  Grows-trans, found-OnlyRow, DistinctOrders, OrdersApart, Grows, OnlyRow, Grows-put,
  OrdersApart-put,
}

-- The state along a step that began with the orders `xs`.
abbrev pub Kept : List Order → Db → Type 0
Kept xs db = OrdersApart db × (PositionsApart db × Grows xs db.orders)

abbrev pub Upholds {ℓ} : {A : Type ℓ} → List Order → Action A → Type 0
Upholds xs m = (db : Db) → Kept xs db → Kept xs (m db).1

-- An action that only reads.
abbrev pub ReadsOnly {ℓ} : {A : Type ℓ} → Action A → Type 0
ReadsOnly m = (db : Db) → (m db).1 ≡ db

module _ (xs : List Order) where
  module _ {ℓ κ} {A : Type ℓ} {B : Type κ} where
    pub Upholds->>= :
        (m : Action A) (f : A → Action B)
        → Upholds xs m
        → ((a : A) → Upholds xs (f a))
        → Upholds xs (m >>= f)
    Upholds->>= m f h k db p =
        split f (λ t. Kept xs t.1) (m db) (λ e. h db p) (λ a. k a (m db).1 (h db p))

    pub Upholds->> :
        (m : Action A) (k : Action B) → Upholds xs m → Upholds xs k → Upholds xs (m >> k)
    Upholds->> m k h j = Upholds->>= m (λ _. k) h (λ _. j)

  module _ {ℓ} {A : Type ℓ} where
    pub Upholds-if :
        (b : Bool) (m n : Action A) → Upholds xs m → Upholds xs n → Upholds xs (if b then m else n)
    Upholds-if true m n h k = h
    Upholds-if false m n h k = k

    -- A branch knows the outcome of its test.
    pub Upholds-test :
        (b : Bool) (m n : Action A)
        → (b ≡ true → Upholds xs m)
        → (b ≡ false → Upholds xs n)
        → Upholds xs (if b then m else n)
    Upholds-test true m n h k = h refl
    Upholds-test false m n h k = k refl

    pub ReadsOnly-Upholds : (m : Action A) → ReadsOnly m → Upholds xs m
    ReadsOnly-Upholds m h db p = subst (Kept xs) (sym (h db)) p

    pub or_raise-Upholds : (x : Option A) (e : Exn) → Upholds xs (or_raise x e)
    or_raise-Upholds none e db p = p
    or_raise-Upholds (some a) e db p = p

  -- A state whose orders are those of one that is kept.
  pub same_orders :
      (db db' : Db)
      → Kept xs db
      → db'.orders ≡ db.orders
      → db'.next_order_id ≡ db.next_order_id
      → PositionsApart db'
      → Kept xs db'
  same_orders db db' p same next a = (
    subst (λ os. DistinctOrders os × All (λ o. o.id < db'.next_order_id) os) (sym same)
        (subst (λ n. DistinctOrders db.orders × All (λ o. o.id < n) db.orders) (sym next) p.0),
    (a, subst (Grows xs) (sym same) p.1.1),
  )

  pub load_user-Upholds : (id : Option ℕ) → Upholds xs (load_user id)
  unfolding load_user
  load_user-Upholds none db p = p
  load_user-Upholds (some id) db p = elim (Option-cases (find_user id db)) [
    | inl e ↦ rw (e, load_user) p
    | inr (u, e) ↦ rw (e, load_user) p
  ]

  key_name-Upholds : (name : Option Text) → Upholds xs (key_name name)
  key_name-Upholds none db p = p
  key_name-Upholds (some []) db p = p
  key_name-Upholds (some (c ∷ cs)) db p = p

  pub default_api_key_resolver-Upholds :
      (u : User) (v : Venue) → Upholds xs (default_api_key_resolver u v)
  unfolding default_api_key_resolver
  default_api_key_resolver-Upholds u sodex_spot = key_name-Upholds u.sodex_spot_api_key_name
  default_api_key_resolver-Upholds u sodex_perps = key_name-Upholds u.sodex_perps_api_key_name
  default_api_key_resolver-Upholds u unknown_venue = λ db p. p

  -- A flush of what has become of an order.
  pub flush_order-Upholds :
      (o o' : Order) → OnlyRow o xs → Advanced o o' → Upholds xs (flush_order o')
  unfolding flush_order save_order
  flush_order-Upholds o o' only a db p = elim (Bool-cases (order_checks o')) [
    | inl c ↦
        rw (c, flush_order)
          (OrdersApart-put o' db p.0, (p.1.0, Grows-put o o' xs db.orders only a p.1.1))
    | inr c ↦ rw (c, flush_order) p
  ]

  pub flush_pure-Upholds {ℓ} :
      {A : Type ℓ} (o o' : Order) (r : A)
      → OnlyRow o xs
      → Advanced o o'
      → Upholds xs (flush_order o' >> pure r)
  flush_pure-Upholds o o' r only a =
      Upholds->> (flush_order o') (pure r) (flush_order-Upholds o o' only a) (λ db p. p)

  answered-Upholds : (a : Answer) → Upholds xs (answered a)
  answered-Upholds (items is) db p = p
  answered-Upholds (sodex_auth_error t) db p = p
  answered-Upholds (sodex_envelope_error t) db p = p
  answered-Upholds (other_error e) db p = p

  pub send-Upholds : (env : Env) (s : Sent) → Upholds xs (send env s)
  unfolding send
  send-Upholds env s db p = answered-Upholds (env.gateway db.sent s) _ p

  pub spot_apply_fill-Upholds :
      (now : ℕ) (o : Order) (price size : Decimal) → Upholds xs (spot_apply_fill now o price size)
  spot_apply_fill-Upholds now o price size db p =
      let (same, next) = spot_apply_fill-OrderFrame now o price size db p.1.0 in
      same_orders db (spot_apply_fill now o price size db).1 p same next
        (spot_apply_fill-PositionsApart now o price size db p.1.0)

  pub perps_apply_fill-Upholds :
      (now : ℕ) (o : Order) (price size : Decimal) → Upholds xs (perps_apply_fill now o price size)
  perps_apply_fill-Upholds now o price size db p =
      let (same, next) = perps_apply_fill-OrderFrame now o price size db p.1.0 in
      same_orders db (perps_apply_fill now o price size db).1 p same next
        (perps_apply_fill-PositionsApart now o price size db p.1.0)

  pub apply_fill-Upholds :
      (now : ℕ) (o : Order) (price size : Decimal) → Upholds xs (apply_fill now o price size)
  unfolding apply_fill
  apply_fill-Upholds now o price size = at o.venue
    where
      at :
          (v : Venue)
          → Upholds xs (elim v [
            | sodex_spot ↦ spot_apply_fill now o price size
            | sodex_perps ↦ perps_apply_fill now o price size
            | unknown_venue ↦ raise value_error
          ])
      at sodex_spot = spot_apply_fill-Upholds now o price size
      at sodex_perps = perps_apply_fill-Upholds now o price size
      at unknown_venue = λ db p. p

-- A step from a state that an earlier one led to.
pub rebased : (xs : List Order) (db db' : Db) → Kept xs db → Kept db.orders db' → Kept xs db'
rebased xs db db' k j = (j.0, (j.1.0, Grows-trans xs db.orders db'.orders k.1.1 j.1.1))

-- What follows a read by primary key.
pub loaded-Kept {ℓ} :
    {A : Type ℓ} (id : ℕ) (f : Order → Action A) (db : Db)
    → Kept db.orders db
    → ((o : Order) → OnlyRow o db.orders → Upholds db.orders (f o))
    → Kept db.orders ((load_order id >>= f) db).1
loaded-Kept id f db k h = elim (Option-cases (find_order id db)) [
  | inl e ↦ rw (>>=-raised (load_order id) f value_error db db (load_order_missing id db e)) k
  | inr (o, e) ↦
      rw (>>=-ok (load_order id) f o db db (load_order_found id db o e))
        (h o (found-OnlyRow id db.orders o k.0.0 e) db k)
]
