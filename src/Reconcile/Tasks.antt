-- ===== src/Reconcile/Tasks.antt =====
-- The state of a sweep: the session, and the summary that its steps count in, which keeps what was
-- counted before a raise.
use etfpulse.Base.{ℕ}
use etfpulse.Models.{Db, Action, Result, ok, raised, Exn}

pub record Summary : Type 0 where
  pub users_processed : ℕ
  pub orders_filled : ℕ
  pub orders_partially_filled : ℕ
  pub orders_drift_unmatched : ℕ
  pub user_errors : ℕ
  pub positions_closed_via_reconcile : ℕ
  pub positions_orphans : ℕ
  pub positions_drift : ℕ
  pub positions_side_mismatch : ℕ
  pub positions_skipped_unparseable : ℕ

abbrev pub no_counts : Summary
no_counts = record {
  users_processed = 0;
  orders_filled = 0;
  orders_partially_filled = 0;
  orders_drift_unmatched = 0;
  user_errors = 0;
  positions_closed_via_reconcile = 0;
  positions_orphans = 0;
  positions_drift = 0;
  positions_side_mismatch = 0;
  positions_skipped_unparseable = 0;
}

pub record Tick : Type 0 where
  pub db : Db
  pub summary : Summary

abbrev pub Task {ℓ} : Type ℓ → Type ℓ
Task A = Tick → Result A × Tick

module _ {ℓ} {A : Type ℓ} where
  abbrev pub done : A → Task A
  done a s = (ok a, s)

  abbrev pub fail : Exn → Task A
  fail e s = (raised e, s)

  -- A call that needs the session alone.
  abbrev pub on_db : Action A → Task A
  on_db m s = let (r, db') = m s.db in (r, record s { db = db' })

  -- An answer that is a value or an exception, such as that of an HTTP request.
  abbrev pub fetched : Result A → Task A
  fetched r s = (r, s)

abbrev pub count : (Summary → Summary) → Task (Unit {0})
count f s = (ok tt, record s { summary = f s.summary })

infixl 5 ◌>>=◌ ◌>>◌
abbrev pub ◌>>=◌ {ℓ κ} : {A : Type ℓ} {B : Type κ} → Task A → (A → Task B) → Task B
◌>>=◌ m f s = let (r, s') = m s in elim r [ ok a ↦ f a s' | raised e ↦ fail e s' ]

abbrev pub ◌>>◌ {ℓ κ} : {A : Type ℓ} {B : Type κ} → Task A → Task B → Task B
m >> k = m >>= λ _. k
