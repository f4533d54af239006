-- ===== src/Risk/Halts.antt =====
-- Breakers, and the exemption of reduce-only orders.
use etfpulse.Base.{
  ℕ, ◌≡◌, refl, true, false, Option, none, some, List, [], ◌∷◌, any, find, arith, Option-cases, inl,
  inr, ap, ◌∙◌, sym,
}
use etfpulse.Models.{User, Db, find_user, CircuitBreaker}
use etfpulse.Risk.{check_order, gates, Settings, RiskRequest}
use etfpulse.Risk.Queries.{find_active_breaker_trigger, in_scope, trigger_of}
use etfpulse.Risk.Gates.{breaker_gate, leverage_gate, open_order_gate, notional_gate}
use etfpulse.Risk.Laws.{allows, passed}

found_none :
    (user : Option ℕ) (bs : List CircuitBreaker)
    → trigger_of (find (in_scope user) bs) ≡ none
    → any (in_scope user) bs ≡ false
found_none user [] h = refl
found_none user (b ∷ bs) h = ground (arith, found_none user bs)

breaker_gate-none :
    (r : RiskRequest) (db : Db) (u : User)
    → breaker_gate r db u ≡ none
    → (any (in_scope none) db.breakers ≡ false)
      × (r.reduce_only ≡ false → any (in_scope (some u.id)) db.breakers ≡ false)
unfolding breaker_gate find_active_breaker_trigger
breaker_gate-none r db u h = (
  found_none none db.breakers (ground arith),
  λ e. found_none (some u.id) db.breakers (ground arith),
)

-- An allowed order, reduce-only or not, is placed while no global breaker is active; and one that is
-- not reduce-only while no breaker of its user is active.
pub check_order-breakers :
    (s : Settings) (now id : ℕ) (r : RiskRequest) (db : Db)
    → allows (check_order s now id r db).0 ≡ true
    → (any (in_scope none) db.breakers ≡ false)
      × (r.reduce_only ≡ false → any (in_scope (some id)) db.breakers ≡ false)
unfolding gates
check_order-breakers s now id r db h =
    let (u, (e, (i, (g1, (g2, gs))))) = passed s now id r db h in
    let (p, q) = breaker_gate-none r db u g2 in
    (p, λ ro. ap (λ k. any (in_scope (some k)) db.breakers) (sym i) ∙ q ro)

exempt_leverage :
    (s s' : Settings) (r : RiskRequest)
    → r.reduce_only ≡ true
    → leverage_gate s r ≡ leverage_gate s' r
unfolding leverage_gate
exempt_leverage s s' r e = ground arith

exempt_open_orders :
    (s s' : Settings) (r : RiskRequest) (db : Db) (u : User)
    → r.reduce_only ≡ true
    → open_order_gate s r db u ≡ open_order_gate s' r db u
unfolding open_order_gate
exempt_open_orders s s' r db u e = ground arith

exempt_notional :
    (s s' : Settings) (now now' : ℕ) (r : RiskRequest) (db : Db) (u : User)
    → r.reduce_only ≡ true
    → notional_gate s now r db u ≡ notional_gate s' now' r db u
unfolding notional_gate
exempt_notional s s' now now' r db u e = ground arith

-- The decision on a reduce-only order depends on no cap and on no clock: what a user may close does
-- not change with the settings.
pub check_order-reduce_only :
    (s s' : Settings) (now now' id : ℕ) (r : RiskRequest) (db : Db)
    → r.reduce_only ≡ true
    → check_order s now id r db ≡ check_order s' now' id r db
unfolding check_order gates
check_order-reduce_only s s' now now' id r db e = elim (Option-cases (find_user id db)) [
  | inl f ↦ rw (f, check_order) refl
  | inr (u, f) ↦
      rw
        (
          f,
          exempt_leverage s s' r e,
          exempt_open_orders s s' r db u e,
          exempt_notional s s' now now' r db u e,
          check_order,
          gates,
        )
        refl
]
