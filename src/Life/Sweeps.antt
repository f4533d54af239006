-- ===== src/Life/Sweeps.antt =====
-- `reconcile_open_orders` along the life of orders.
use etfpulse.Base.{ℕ, ◌≡◌, refl, sym, true, false, List, [], ◌∷◌, All, arith, subst}
use etfpulse.Decimal.{Decimal}
use etfpulse.Models.{
  Venue, sodex_spot, sodex_perps, unknown_venue, is_terminal, Order, Db, save_order,
}
use etfpulse.Reconcile.Tasks.{Tick}
use etfpulse.Reconcile.Fold.{Reads, apply_delta, with_fill}
use etfpulse.Reconcile.Sweep.{
  is_live, reconcile_one_user, contained, reconcile_users, reconcile_open_orders,
}
use etfpulse.Reconcile.Keeps.{reconcile_one_user-Keeps}
use etfpulse.Reconcile.Tally.{contained-db}
use etfpulse.Reconcile.Spot.{spot_reconcile_positions}
use etfpulse.Reconcile.Perps.{perps_reconcile_positions}
use etfpulse.Reconcile.Ends.{
  spot_reconcile_positions-PositionsApart, perps_reconcile_positions-PositionsApart,
  spot_reconcile_positions-frame, perps_reconcile_positions-frame,
}
use etfpulse.Life.{rank, Advanced}
use etfpulse.Life.Rows.{OnlyRow, All-OnlyRow, Grows-refl, Grows-put, OrdersApart-put}
use etfpulse.Life.Upholds.{
  rebased, Kept, Upholds, same_orders, spot_apply_fill-Upholds, perps_apply_fill-Upholds,
}

-- A live order that is no later than partially filled, and its row after a fill.
with_fill-Advanced :
    (o : Order) (v price : Decimal)
    → is_terminal o.status ≡ false
    → Advanced o (with_fill o v price)
unfolding rank with_fill
with_fill-Advanced o v price live = record {
  same_id = refl;
  forward = ground arith;
  settled = λ t. ground arith;
}

apply_delta-Upholds :
    (xs : List Order) (now : ℕ) (o : Order) (venue : Venue) (price size : Decimal)
    → Upholds xs (apply_delta now o venue price size)
unfolding apply_delta
apply_delta-Upholds xs now o sodex_spot price size = spot_apply_fill-Upholds xs now o price size
apply_delta-Upholds xs now o sodex_perps price size = perps_apply_fill-Upholds xs now o price size
apply_delta-Upholds xs now o unknown_venue price size = λ db k. k

live_only :
    (xs os : List Order)
    → All (λ o. OnlyRow o xs) os
    → All (λ o. is_live o ≡ true → OnlyRow o xs × (is_terminal o.status ≡ false)) os
live_only xs [] h = tt
live_only xs (o ∷ os) h = ((λ live. (h.0, ground arith)), live_only xs os h.1)

-- One user's reconciliation, from any state.
one_user-Kept :
    (r : Reads) (id : ℕ) (s : Tick)
    → Kept s.db.orders s.db
    → Kept s.db.orders (reconcile_one_user r id s).1.db
unfolding save_order
one_user-Kept r id s k =
    let xs = s.db.orders in
    reconcile_one_user-Keeps (λ t. Kept xs t.db)
      (λ o. OnlyRow o xs × (is_terminal o.status ≡ false)) r (λ f _ t k. k)
      (λ o v price g _ t k. (
        OrdersApart-put (with_fill o v price) t.db k.0,
        (
          k.1.0,
          Grows-put o (with_fill o v price) xs t.db.orders g.0 (with_fill-Advanced o v price g.1)
              k.1.1,
        ),
      ))
      (λ o venue price size t. apply_delta-Upholds xs r.now o venue price size t.db)
      (λ user balances t k.
        let (same, next) = spot_reconcile_positions-frame r.now user t.db k.1.0 balances in
        same_orders xs t.db (spot_reconcile_positions r.now user sodex_spot balances t.db).1 k same
          next (spot_reconcile_positions-PositionsApart r.now user t.db k.1.0 balances))
      (λ user rows t k.
        let (same, next) =
          perps_reconcile_positions-frame r.now user t.db k.1.0 r.read_decimal rows in
        same_orders xs t.db
          (perps_reconcile_positions r.read_decimal r.now user sodex_perps rows t.db).1 k same next
          (perps_reconcile_positions-PositionsApart r.now user t.db k.1.0 r.read_decimal rows))
      id s (live_only xs xs (All-OnlyRow xs k.0.0)) k

users-Kept :
    (xs : List Order) (r : Reads) (ids : List ℕ) (s : Tick)
    → Kept xs s.db
    → Kept xs (reconcile_users r ids s).db
unfolding reconcile_users
users-Kept xs r [] s k = k
users-Kept xs r (id ∷ ids) s k =
    let x = reconcile_one_user r id s in
    users-Kept xs r ids (contained x.0 x.1) (
      subst (Kept xs) (sym (contained-db x.0 x.1))
        (rebased xs s.db x.1.db k (one_user-Kept r id s (k.0, (k.1.0, Grows-refl s.db.orders)))))

pub reconcile_open_orders-Kept :
    (r : Reads) (db : Db) → Kept db.orders db → Kept db.orders (reconcile_open_orders r db).db
unfolding reconcile_open_orders
reconcile_open_orders-Kept r db k = users-Kept db.orders r _ _ k
