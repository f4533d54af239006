-- ===== src/Execution/Frames.antt =====
-- Actions that leave the orders and the writes to the venue as they are, and what follows them.
use etfpulse.Base.{
  ◌≡◌, refl, ◌∙◌, ◌==◌, inl, inr, Option-cases, Bool-cases, List, [], ◌∷◌, Text, ◌&&◌, select, ℕ,
  Option, none, some,
}
use etfpulse.Decimal.{Decimal}
use etfpulse.Models.{
  User, find_user, position_side_eq, Order, Position, OrderSide, buy, sell, unknown_side, Db,
  Action, Result, ok, raised, Exn, pure, raise, gets, raise_if, or_raise, value_error,
  insert_position, save_position, ◌>>=◌, ◌>>◌, Venue, sodex_spot, sodex_perps, unknown_venue,
  PositionSide,
}
use etfpulse.Positions.{existing_position, one_or_none, order_key, holds}
use etfpulse.Positions.Spot.{spot_apply_fill, dispatch_spot, apply_spot_buy, apply_spot_sell}
use etfpulse.Positions.Perps.{
  perps_apply_fill, guarded_fill, dispatch_fill, perps_open, perps_extend, perps_reduce_or_close,
  fill_side, nothing_to_reduce,
}
use etfpulse.Execution.Orders.{load_user, default_api_key_resolver, key_name}
use etfpulse.Execution.Paper.{apply_fill, simulate_fill, slipped_price}

abbrev pub Frame : Db → Db → Type 0
Frame db db' = (db'.orders ≡ db.orders) × (db'.sent ≡ db.sent)

abbrev pub Quiet {ℓ} : {A : Type ℓ} → Action A → Type 0
Quiet m = (db : Db) → Frame db (m db).1

module _ {ℓ κ λ'} {A : Type ℓ} {B : Type κ} (f : A → Action B) (P : Result B × Db → Type λ') where
  pub split :
      (t : Result A × Db)
      → ((e : Exn) → P (raised e, t.1))
      → ((a : A) → P (f a t.1))
      → P (elim t.0 [ ok a ↦ f a t.1 | raised e ↦ raise e t.1 ])
  split (ok a, db') bad good = good a
  split (raised e, db') bad good = bad e

  -- What holds after a bind, by what holds after its second part in any state that the first leaves.
  pub after_quiet :
      (m : Action A) (db : Db)
      → Quiet m
      → ((e : Exn) (db' : Db) → Frame db db' → P (raised e, db'))
      → ((a : A) (db' : Db) → Frame db db' → P (f a db'))
      → P ((m >>= f) db)
  after_quiet m db q bad good =
      split (m db) (λ e. bad e (m db).1 (q db)) (λ a. good a (m db).1 (q db))

module _ {ℓ κ} {A : Type ℓ} {B : Type κ} where
  pub Quiet->>= :
      (m : Action A) (f : A → Action B) → Quiet m → ((a : A) → Quiet (f a)) → Quiet (m >>= f)
  Quiet->>= m f q k db =
      after_quiet f (λ t. Frame db t.1) m db q (λ e db' fr. fr)
        (λ a db' fr. (let (p, s) = fr in let (p', s') = k a db' in (p' ∙ p, s' ∙ s)))

pub or_raise-Quiet {ℓ} : {A : Type ℓ} (x : Option A) (e : Exn) → Quiet (or_raise x e)
or_raise-Quiet none e db = (refl, refl)
or_raise-Quiet (some a) e db = (refl, refl)

pub load_user-Quiet : (id : Option ℕ) → Quiet (load_user id)
unfolding load_user
load_user-Quiet none db = (refl, refl)
load_user-Quiet (some id) db = elim (Option-cases (find_user id db)) [
  | inl e ↦ rw (e, load_user) (refl, refl)
  | inr (u, e) ↦ rw (e, load_user) (refl, refl)
]

key_name-Quiet : (name : Option Text) → Quiet (key_name name)
key_name-Quiet none db = (refl, refl)
key_name-Quiet (some []) db = (refl, refl)
key_name-Quiet (some (c ∷ cs)) db = (refl, refl)

pub default_api_key_resolver-Quiet : (u : User) (v : Venue) → Quiet (default_api_key_resolver u v)
unfolding default_api_key_resolver
default_api_key_resolver-Quiet u sodex_spot db = key_name-Quiet u.sodex_spot_api_key_name db
default_api_key_resolver-Quiet u sodex_perps db = key_name-Quiet u.sodex_perps_api_key_name db
default_api_key_resolver-Quiet u unknown_venue db = (refl, refl)

one_or_none-Quiet : (ps : List Position) → Quiet (one_or_none ps)
unfolding one_or_none
one_or_none-Quiet [] db = (refl, refl)
one_or_none-Quiet (p ∷ []) db = (refl, refl)
one_or_none-Quiet (p ∷ q ∷ ps) db = (refl, refl)

existing_position-Quiet : (o : Order) → Quiet (existing_position o)
unfolding existing_position
existing_position-Quiet o =
    Quiet->>= (gets (λ db. select (holds (order_key o)) db.positions)) one_or_none
      (λ db. (refl, refl)) one_or_none-Quiet

dispatch_spot-Quiet :
    (now : ℕ) (o : Order) (fp fs : Decimal) (e : Option Position) (s : OrderSide)
    → Quiet (dispatch_spot now o fp fs e s)
unfolding dispatch_spot apply_spot_buy apply_spot_sell insert_position save_position
dispatch_spot-Quiet now o fp fs none buy db = (refl, refl)
dispatch_spot-Quiet now o fp fs (some p) buy db = (refl, refl)
dispatch_spot-Quiet now o fp fs none sell db = (refl, refl)
dispatch_spot-Quiet now o fp fs (some p) sell db = (refl, refl)
dispatch_spot-Quiet now o fp fs e unknown_side db = (refl, refl)

dispatch_fill-Quiet :
    (now : ℕ) (o : Order) (fp fs : Decimal) (s : PositionSide) (e : Option Position)
    → Quiet (dispatch_fill now o fp fs s e)
unfolding dispatch_fill perps_open perps_extend perps_reduce_or_close insert_position save_position
dispatch_fill-Quiet now o fp fs s none db = (refl, refl)
dispatch_fill-Quiet now o fp fs s (some p) db = elim (Bool-cases (position_side_eq p.side s)) [
  | inl h ↦ rw (h, dispatch_fill) (refl, refl)
  | inr h ↦ rw (h, dispatch_fill) (refl, refl)
]

guarded_fill-Quiet :
    (now : ℕ) (o : Order) (fp fs : Decimal) (e : Option Position) (s : PositionSide)
    → Quiet (guarded_fill now o fp fs e s)
unfolding guarded_fill
guarded_fill-Quiet now o fp fs e s db = elim (Bool-cases (o.reduce_only && nothing_to_reduce s e)) [
  | inl h ↦ rw (h, guarded_fill) (refl, refl)
  | inr h ↦
      rw (h, guarded_fill)
        (Quiet->>= (dispatch_fill now o fp fs s e) (λ p. pure (some p))
          (dispatch_fill-Quiet now o fp fs s e) (λ p x. (refl, refl)) db)
]

pub spot_apply_fill-Quiet :
    (now : ℕ) (o : Order) (fp fs : Decimal) → Quiet (spot_apply_fill now o fp fs)
unfolding spot_apply_fill
spot_apply_fill-Quiet now o fp fs =
    let last = existing_position o >>= λ e. dispatch_spot now o fp fs e o.side in
    let inner = raise_if (fp == 0) value_error >> last in
    Quiet->>= (raise_if (fs == 0) value_error) (λ _. inner) (λ x. (refl, refl))
      (λ _.
        Quiet->>= (raise_if (fp == 0) value_error) (λ _. last) (λ x. (refl, refl))
          (λ _.
            Quiet->>= (existing_position o) (λ e. dispatch_spot now o fp fs e o.side)
              (existing_position-Quiet o) (λ e. dispatch_spot-Quiet now o fp fs e o.side)))

sided : ℕ → Order → Decimal → Decimal → Option Position → Action (Option Position)
sided now o fp fs e = or_raise (fill_side o.side) value_error >>= λ s. guarded_fill now o fp fs e s

pub perps_apply_fill-Quiet :
    (now : ℕ) (o : Order) (fp fs : Decimal) → Quiet (perps_apply_fill now o fp fs)
unfolding perps_apply_fill sided
perps_apply_fill-Quiet now o fp fs =
    let last = existing_position o >>= sided now o fp fs in
    let inner = raise_if (fp == 0) value_error >> last in
    Quiet->>= (raise_if (fs == 0) value_error) (λ _. inner) (λ x. (refl, refl))
      (λ _.
        Quiet->>= (raise_if (fp == 0) value_error) (λ _. last) (λ x. (refl, refl))
          (λ _.
            Quiet->>= (existing_position o) (sided now o fp fs) (existing_position-Quiet o) (λ e.
              Quiet->>= (or_raise (fill_side o.side) value_error)
                (λ s. guarded_fill now o fp fs e s) (or_raise-Quiet _ _)
                (λ s. guarded_fill-Quiet now o fp fs e s))))

apply_fill_at-Quiet :
    (now : ℕ) (o : Order) (fp fs : Decimal) (v : Venue)
    → Quiet (elim v [
      | sodex_spot ↦ spot_apply_fill now o fp fs
      | sodex_perps ↦ perps_apply_fill now o fp fs
      | unknown_venue ↦ raise value_error
    ])
apply_fill_at-Quiet now o fp fs sodex_spot db = spot_apply_fill-Quiet now o fp fs db
apply_fill_at-Quiet now o fp fs sodex_perps db = perps_apply_fill-Quiet now o fp fs db
apply_fill_at-Quiet now o fp fs unknown_venue db = (refl, refl)

pub apply_fill-Quiet : (now : ℕ) (o : Order) (fp fs : Decimal) → Quiet (apply_fill now o fp fs)
unfolding apply_fill
apply_fill-Quiet now o fp fs = apply_fill_at-Quiet now o fp fs o.venue

slipped : ℕ → Order → Decimal → Action (Decimal × Decimal)
slipped bps o p =
    or_raise (slipped_price bps o.side p) value_error >>= λ fp. pure (fp, o.requested_size)

pub simulate_fill-Quiet : (bps : ℕ) (o : Order) → Quiet (simulate_fill bps o)
unfolding simulate_fill slipped
simulate_fill-Quiet bps o =
    Quiet->>= (or_raise o.requested_price value_error)
      (λ p. raise_if (o.requested_size == 0) value_error >> slipped bps o p) (or_raise-Quiet _ _)
      (λ p.
        Quiet->>= (raise_if (o.requested_size == 0) value_error) (λ _. slipped bps o p)
          (λ x. (refl, refl))
          (λ _.
            Quiet->>= (or_raise (slipped_price bps o.side p) value_error)
              (λ fp. pure (fp, o.requested_size)) (or_raise-Quiet _ _) (λ x db. (refl, refl))))
