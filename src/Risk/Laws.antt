-- ===== src/Risk/Laws.antt =====
-- What an allowed order has passed, and what stops one.
use etfpulse.Base.{
  ℕ, ◌≡◌, refl, Bool, true, false, Option, none, some, List, [], ◌∷◌, All, find_sound, ◌==◌, ==_iff,
  arith, Option-cases, inl, inr, ap, ◌∙◌, sym,
}
use etfpulse.Models.{value_error, User, Db, Result, ok, raised, find_user}
use etfpulse.Risk.{check_order, gates, first_denial, Settings, RiskRequest, RiskDecision}
use etfpulse.Risk.Gates.{
  identity_gate, breaker_gate, enum_gate, leverage_gate, stop_gate, parent_gate, open_order_gate,
  price_gate, notional_gate,
}

abbrev pub allows : Result (RiskDecision × User) → Bool
allows (ok d) = d.0.allow
allows (raised e) = false

-- A gate either passes or denies.
abbrev IsGate : Option RiskDecision → Type 0
IsGate g = (d : RiskDecision) → g ≡ some d → d.allow ≡ false

identity_gate-IsGate : (r : RiskRequest) (u : User) → IsGate (identity_gate r u)
unfolding identity_gate
identity_gate-IsGate r u d h = ground arith

breaker_gate-IsGate : (r : RiskRequest) (db : Db) (u : User) → IsGate (breaker_gate r db u)
unfolding breaker_gate
breaker_gate-IsGate r db u d h = ground arith

enum_gate-IsGate : (r : RiskRequest) → IsGate (enum_gate r)
unfolding enum_gate
enum_gate-IsGate r d h = ground arith

leverage_gate-IsGate : (s : Settings) (r : RiskRequest) → IsGate (leverage_gate s r)
unfolding leverage_gate
leverage_gate-IsGate s r d h = ground arith

stop_gate-IsGate : (r : RiskRequest) → IsGate (stop_gate r)
unfolding stop_gate
stop_gate-IsGate r d h = ground arith

parent_gate-IsGate : (r : RiskRequest) (db : Db) (u : User) → IsGate (parent_gate r db u)
unfolding parent_gate
parent_gate-IsGate r db u d h = ground arith

open_order_gate-IsGate :
    (s : Settings) (r : RiskRequest) (db : Db) (u : User) → IsGate (open_order_gate s r db u)
unfolding open_order_gate
open_order_gate-IsGate s r db u d h = ground arith

price_gate-IsGate : (r : RiskRequest) → IsGate (price_gate r)
unfolding price_gate
price_gate-IsGate r d h = ground arith

notional_gate-IsGate :
    (s : Settings) (now : ℕ) (r : RiskRequest) (db : Db) (u : User)
    → IsGate (notional_gate s now r db u)
unfolding notional_gate
notional_gate-IsGate s now r db u d h = ground arith

All-pass :
    (gs : List (Option RiskDecision))
    → All IsGate gs
    → (first_denial gs).allow ≡ true
    → All (λ g. g ≡ none) gs
All-pass [] gates h = tt
All-pass (none ∷ gs) (g, others) h = (refl, All-pass gs others h)
All-pass (some d ∷ gs) (g, others) h = ground (arith, g d refl)

gates-IsGate :
    (s : Settings) (now : ℕ) (r : RiskRequest) (db : Db) (u : User)
    → All IsGate (gates s now r db u)
unfolding gates
gates-IsGate s now r db u = (
  identity_gate-IsGate r u,
  (
    breaker_gate-IsGate r db u,
    (
      enum_gate-IsGate r,
      (
        leverage_gate-IsGate s r,
        (
          stop_gate-IsGate r,
          (
            parent_gate-IsGate r db u,
            (
              open_order_gate-IsGate s r db u,
              (price_gate-IsGate r, (notional_gate-IsGate s now r db u, tt)),
            ),
          ),
        ),
      ),
    ),
  ),
)

pub check_order-found :
    (s : Settings) (now id : ℕ) (r : RiskRequest) (db : Db) (u : User)
    → find_user id db ≡ some u
    → check_order s now id r db ≡ (ok (first_denial (gates s now r db u), u), db)
unfolding check_order
check_order-found s now id r db u e = rw (e, check_order) refl

pub check_order-missing :
    (s : Settings) (now id : ℕ) (r : RiskRequest) (db : Db)
    → find_user id db ≡ none
    → check_order s now id r db ≡ (raised value_error, db)
unfolding check_order
check_order-missing s now id r db e = rw (e, check_order) refl

use_found :
    (s : Settings) (now id : ℕ) (r : RiskRequest) (db : Db) (u : User)
    → find_user id db ≡ some u
    → allows (check_order s now id r db).0 ≡ true
    → (first_denial (gates s now r db u)).allow ≡ true
use_found s now id r db u e h = ap (λ x. allows x.0) (sym (check_order-found s now id r db u e)) ∙ h

-- An allowed order is a found user's, and passed every gate.
pub passed :
    (s : Settings) (now id : ℕ) (r : RiskRequest) (db : Db)
    → allows (check_order s now id r db).0 ≡ true
    → (u : User) × ((find_user id db ≡ some u)
        × ((u.id ≡ id) × All (λ g. g ≡ none) (gates s now r db u)))
unfolding check_order
passed s now id r db h = elim (Option-cases (find_user id db)) [
  | inl e ↦ ground (arith, e, h)
  | inr (u, e) ↦ (
    u,
    (
      e,
      (
        (==_iff u.id id).0 (find_sound (λ x. x.id == id) db.users u e),
        All-pass _ (gates-IsGate s now r db u) (use_found s now id r db u e h),
      ),
    ),
  )
]
