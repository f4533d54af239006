-- ===== src/Life/Steps.antt =====
-- The program as a relation on its tables: the calls that a route commits, and the jobs of the
-- scheduler. A call that raises is rolled back, and is no step.
use etfpulse.Base.{
  true, false, ℕ, ◌≡◌, refl, ap, ◌∙◌, Option, some, List, [], ◌∷◌, Text, find, ◌==◌, subst, arith,
  inl, inr, Bool-cases,
}
use etfpulse.Models.{Order, Db, ok, find_order}
use etfpulse.Positions.Apart.{PositionsApart}
use etfpulse.Risk.{Settings, RiskRequest}
use etfpulse.Execution.Clients.{Env, PrepareNewResult, PrepareCancelResult, SubmitResult}
use etfpulse.Execution.Prepare.{prepare_new}
use etfpulse.Execution.Submit.{submit_new}
use etfpulse.Execution.Cancel.{prepare_cancel, submit_cancel}
use etfpulse.Reconcile.Fold.{Reads}
use etfpulse.Reconcile.Sweep.{reconcile_open_orders}
use etfpulse.Reaper.{expire_overdue_orders}
use etfpulse.Life.{Advanced}
use etfpulse.Life.Rows.{OrdersApart, Grows, Grows-refl}
use etfpulse.Life.Upholds.{Kept, rebased}
use etfpulse.Life.Submits.{submit_new-Kept}
use etfpulse.Life.Cancels.{prepare_cancel-Kept, submit_cancel-Kept}
use etfpulse.Life.Prepares.{prepare_new-Kept}
use etfpulse.Life.Sweeps.{reconcile_open_orders-Kept}
use etfpulse.Life.Reapers.{expire_overdue_orders-Kept}

pub data Step (db : Db) : Db → Type 0 where
  prepares :
      (s : Settings) (env : Env) (user : ℕ) (r : RiskRequest) (signal_id : Option ℕ)
      (x : PrepareNewResult) (db' : Db)
      → prepare_new s env user r signal_id db ≡ (ok x, db')
      → Step db db'
  submits :
      (env : Env) (id : ℕ) (signature : Text) (x : SubmitResult) (db' : Db)
      → submit_new env id signature db ≡ (ok x, db')
      → Step db db'
  prepares_cancel :
      (env : Env) (user id : ℕ) (x : PrepareCancelResult) (db' : Db)
      → prepare_cancel env user id db ≡ (ok x, db')
      → Step db db'
  submits_cancel :
      (env : Env) (id : ℕ) (signature : Text) (x : SubmitResult) (db' : Db)
      → submit_cancel env id signature db ≡ (ok x, db')
      → Step db db'
  sweeps : (r : Reads) → Step db (reconcile_open_orders r db).db
  reaps : (now : ℕ) → Step db (expire_overdue_orders now db).1

-- The states that a run of the program leads to.
pub data Reach (db : Db) : Db → Type 0 where
  start : Reach db db
  then : (mid end : Db) → Reach db mid → Step mid end → Reach db end

-- Order ids and position ids are distinct, and no key has two OPEN positions.
abbrev pub Consistent : Db → Type 0
Consistent db = OrdersApart db × PositionsApart db

Step-Kept : (db db' : Db) → Step db db' → Kept db.orders db → Kept db.orders db'
Step-Kept db _ (prepares s env user r signal_id x db' e) k =
    subst (λ t. Kept db.orders t.1) e (prepare_new-Kept s env user r signal_id db k)
Step-Kept db _ (submits env id signature x db' e) k =
    subst (λ t. Kept db.orders t.1) e (submit_new-Kept env id signature db k)
Step-Kept db _ (prepares_cancel env user id x db' e) k =
    subst (λ t. Kept db.orders t.1) e (prepare_cancel-Kept env user id db k)
Step-Kept db _ (submits_cancel env id signature x db' e) k =
    subst (λ t. Kept db.orders t.1) e (submit_cancel-Kept env id signature db k)
Step-Kept db _ (sweeps r) k = reconcile_open_orders-Kept r db k
Step-Kept db _ (reaps now) k = expire_overdue_orders-Kept now db k

Reach-Kept : (db db' : Db) → Reach db db' → Consistent db → Kept db.orders db'
Reach-Kept db _ start (a, b) = (a, (b, Grows-refl db.orders))
Reach-Kept db _ (then mid end before last) c =
    let k = Reach-Kept db mid before c in
    rebased db.orders mid end k (Step-Kept mid end last (k.0, (k.1.0, Grows-refl mid.orders)))

-- Every run of the program, from tables where order and position ids are distinct and no key has two
-- OPEN positions, keeps them so, whatever the venue answers.
pub Reach-Consistent : (db db' : Db) → Reach db db' → Consistent db → Consistent db'
Reach-Consistent db db' run c = let k = Reach-Kept db db' run c in (k.0, k.1.0)

Grows-find :
    (id : ℕ) (xs ys : List Order) (o : Order)
    → Grows xs ys
    → find (λ x. x.id == id) xs ≡ some o
    → (o' : Order) × ((find (λ x. x.id == id) ys ≡ some o') × Advanced o o')
Grows-find id [] ys o g h = absurd (ground (arith, h))
Grows-find id (x ∷ xs) [] o g h = absurd g
Grows-find id (x ∷ xs) (y ∷ ys) o g h = elim (Bool-cases (x.id == id)) [
  | inl e ↦
      let here : x ≡ o = ground arith in
      let there : (y.id == id) ≡ true = ap (λ i. i == id) g.0.same_id ∙ e in
      (y, rw there (refl, subst (λ z. Advanced z y) here g.0))
  | inr e ↦
      let there : (y.id == id) ≡ false = ap (λ i. i == id) g.0.same_id ∙ e in
      let (o', (found, a)) = Grows-find id xs ys o g.1 (ground arith) in (o', rw there (found, a))
]

-- Along every run of the program from consistent tables, an order stays in the table; its status only
-- moves forward along the enum; and once it is terminal, its row never changes again.
pub Reach-order :
    (db db' : Db) (id : ℕ) (o : Order)
    → Reach db db'
    → Consistent db
    → find_order id db ≡ some o
    → (o' : Order) × ((find_order id db' ≡ some o') × Advanced o o')
Reach-order db db' id o run c found =
    Grows-find id db.orders db'.orders o (Reach-Kept db db' run c).1.1 found
