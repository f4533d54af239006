-- ===== src/Reconcile/Tally.antt =====
-- The sweep counts each user once: processed, or failed.
use etfpulse.Base.{ℕ, suc, ◌+◌, ◌≡◌, refl, List, [], ◌∷◌, length, arith, true, All, ◌∙◌}
use etfpulse.Models.{Order, Db, Result, ok, raised}
use etfpulse.Reconcile.Tasks.{Tick, no_counts}
use etfpulse.Reconcile.Fold.{Reads, seconds_before}
use etfpulse.Reconcile.Sweep.{
  is_live, reconcile_one_user, contained, reconcile_users, user_ids, reconcile_open_orders,
}
use etfpulse.Reconcile.Keeps.{reconcile_one_user-Keeps}

-- The two counts of a state.
abbrev Counts : ℕ → ℕ → Tick → Type 0
Counts processed errors s =
    (s.summary.users_processed ≡ processed) × (s.summary.user_errors ≡ errors)

pub live_trivial : (os : List Order) → All (λ o. is_live o ≡ true → Unit {0}) os
live_trivial [] = tt
live_trivial (o ∷ os) = ((λ _. tt), live_trivial os)

one_user-Counts :
    (r : Reads) (id a b : ℕ) (s : Tick) → Counts a b s → Counts a b (reconcile_one_user r id s).1
one_user-Counts r id a b s h =
    reconcile_one_user-Keeps (Counts a b) (λ _. Unit {0}) r
      (λ f leaves s h. (leaves.processed s.summary ∙ h.0, leaves.errors s.summary ∙ h.1))
      (λ o v price _ _ s h. h) (λ o venue price size s h. h) (λ user balances s h. h)
      (λ user rows s h. h) id s (live_trivial s.db.orders) h

users_of : Tick → ℕ
users_of s = s.summary.users_processed + s.summary.user_errors

contained-users_of :
    (x : Result (Unit {0})) (s : Tick) → users_of (contained x s) ≡ suc (users_of s)
unfolding contained users_of
contained-users_of (ok tt) s = omega arith
contained-users_of (raised e) s = omega arith

reconcile_users-users_of :
    (r : Reads) (ids : List ℕ) (s : Tick)
    → users_of (reconcile_users r ids s) ≡ users_of s + length ids
unfolding reconcile_users users_of
reconcile_users-users_of r [] s = omega arith
reconcile_users-users_of r (id ∷ ids) s =
    let step : users_of (contained (reconcile_one_user r id s).0 (reconcile_one_user r id s).1)
        ≡ suc (users_of (reconcile_one_user r id s).1) =
      contained-users_of (reconcile_one_user r id s).0 (reconcile_one_user r id s).1 in
    let (same, same') =
      one_user-Counts r id s.summary.users_processed s.summary.user_errors s (refl, refl) in
    omega (
      arith,
      step,
      same,
      same',
      reconcile_users-users_of r ids
          (contained (reconcile_one_user r id s).0 (reconcile_one_user r id s).1),
    )

-- A sweep comes to its end whatever raises on the way, and each user whose orders it is about is
-- counted as processed or as failed.
pub reconcile_open_orders-users :
    (r : Reads) (db : Db)
    → let c = (reconcile_open_orders r db).summary in
      c.users_processed + c.user_errors
      ≡ length (user_ids (seconds_before r.now r.order_reconcile_min_age_seconds) db.orders)
unfolding reconcile_open_orders users_of
reconcile_open_orders-users r db = omega (
  arith,
  reconcile_users-users_of r
      (user_ids (seconds_before r.now r.order_reconcile_min_age_seconds) db.orders)
      (record { db = db; summary = no_counts }),
)

-- Containing a raise changes the summary alone.
pub contained-db : (x : Result (Unit {0})) (s : Tick) → (contained x s).db ≡ s.db
unfolding contained
contained-db (ok tt) s = refl
contained-db (raised e) s = refl
