-- ===== src/Risk/Caps.antt =====
-- The caps that an allowed order respects, and what a child order hangs on.
use etfpulse.Base.{
  ℕ, ◌≤◌, ◌<◌, ◌≡◌, ◌≢◌, Option-cases, inl, inr, true, false, none, some, text_eq→eq, arith, subst,
}
use etfpulse.Decimal.{Decimal, add, mul}
use etfpulse.Models.{User, Db, Order, find_order, venue_eq, sodex_to_db_side, OrderSide}
use etfpulse.Positions.Keys.{option_eq→eq}
use etfpulse.Risk.{check_order, gates, Settings, RiskRequest}
use etfpulse.Risk.Queries.{compute_usage}
use etfpulse.Risk.Gates.{open_order_gate, notional_gate, parent_gate, is_failed}
use etfpulse.Risk.Laws.{allows, passed}

-- The room that a usage leaves under the caps for one more order of this notional.
abbrev pub FitsCaps : Settings → ℕ → ℕ → RiskRequest → Db → Decimal → Type 0
FitsCaps s now user r db notional =
    let usage = compute_usage now user (some r.asset) db in
    (usage.open_orders < s.execution_max_open_orders_per_user)
    × ((add usage.daily_notional notional ≤ s.execution_daily_notional_usd_cap)
        × ((n : Decimal)
            → usage.per_symbol_notional ≡ some n
            → add n notional ≤ s.execution_per_symbol_notional_usd_cap))

caps_fit :
    (s : Settings) (now : ℕ) (r : RiskRequest) (db : Db) (u : User) (price : Decimal)
    → r.reduce_only ≡ false
    → r.requested_price ≡ some price
    → open_order_gate s r db u ≡ none
    → notional_gate s now r db u ≡ none
    → FitsCaps s now u.id r db (mul r.requested_size price)
unfolding open_order_gate notional_gate compute_usage
caps_fit s now r db u price e p g h = (ground arith, (ground arith, λ n f. ground arith))

-- An allowed order that may open exposure and has a price fits the caps, by the numbers that the usage
-- snapshot of the same instant reports.
pub check_order-caps :
    (s : Settings) (now id : ℕ) (r : RiskRequest) (db : Db) (price : Decimal)
    → r.reduce_only ≡ false
    → r.requested_price ≡ some price
    → allows (check_order s now id r db).0 ≡ true
    → FitsCaps s now id r db (mul r.requested_size price)
unfolding gates
check_order-caps s now id r db price e p h =
    let (u, (f, (i, (g1, (g2, (g3, (g4, (g5, (g6, (g7, (g8, (g9, k)))))))))))) =
      passed s now id r db h in
    subst (λ user. FitsCaps s now user r db (mul r.requested_size price)) i
      (caps_fit s now r db u price e p g7 g9)

-- The parent of an allowed child: an order of the same user, venue and asset that did not fail, on the
-- other side.
abbrev pub IsParentOf : ℕ → RiskRequest → Order → Type 0
IsParentOf user r parent =
    (parent.user_id ≡ some user)
    × ((parent.venue ≡ r.venue)
        × ((parent.asset ≡ r.asset)
            × ((is_failed parent.status ≡ false)
                × ((side : OrderSide) → sodex_to_db_side r.side ≡ some side → parent.side ≢ side))))

venue_eq→eq : (a b : _) → venue_eq a b ≡ true → a ≡ b
venue_eq→eq a b h = ground arith

parent_gate-none :
    (r : RiskRequest) (db : Db) (u : User) (parent_id : ℕ)
    → r.parent_order_id ≡ some parent_id
    → parent_gate r db u ≡ none
    → (r.reduce_only ≡ true)
      × ((parent : Order) × ((find_order parent_id db ≡ some parent) × IsParentOf u.id r parent))
unfolding parent_gate
parent_gate-none r db u parent_id e h = elim (Option-cases (find_order parent_id db)) [
  | inl f ↦ ground arith
  | inr (parent, f) ↦ (
    ground arith,
    (
      parent,
      (
        f,
        (
          option_eq→eq parent.user_id (some u.id) (ground arith),
          (
            venue_eq→eq parent.venue r.venue (ground arith),
            (
              text_eq→eq parent.asset r.asset (ground arith),
              (ground arith, λ side k l. ground arith),
            ),
          ),
        ),
      ),
    ),
  )
]

-- An allowed child order is reduce-only, and its parent exists and fits it.
pub check_order-parent :
    (s : Settings) (now id : ℕ) (r : RiskRequest) (db : Db) (parent_id : ℕ)
    → r.parent_order_id ≡ some parent_id
    → allows (check_order s now id r db).0 ≡ true
    → (r.reduce_only ≡ true)
      × ((parent : Order) × ((find_order parent_id db ≡ some parent) × IsParentOf id r parent))
unfolding gates
check_order-parent s now id r db parent_id e h =
    let (u, (f, (i, (g1, (g2, (g3, (g4, (g5, (g6, k))))))))) = passed s now id r db h in
    subst
      (λ user.
        (r.reduce_only ≡ true)
        × ((parent : Order) × ((find_order parent_id db ≡ some parent) × IsParentOf user r parent)))
      i (parent_gate-none r db u parent_id e g6)
