-- ===== src/Risk.antt =====
-- backend/etfpulse/pipeline/execution/risk.py: the checks before a trade. This file has the request,
-- the decision and `check_order`; Risk/Queries the reads of the database, Risk/Gates the checks.
pub mod Requests
pub mod Queries
pub mod Gates
pub mod Laws
pub mod Halts
pub mod Caps
pub use Requests.*
use etfpulse.Base.{ℕ, true, Option, none, some, List, [], ◌∷◌}
use etfpulse.Models.{User, Db, Action, pure, raise, find_user, value_error}
use etfpulse.Risk.Gates.{
  identity_gate, breaker_gate, enum_gate, leverage_gate, stop_gate, parent_gate, open_order_gate,
  price_gate, notional_gate,
}

-- The gates in their order.
unfoldable pub gates : Settings → ℕ → RiskRequest → Db → User → List (Option RiskDecision)
gates s now r db user =
    identity_gate r user
    ∷ breaker_gate r db user
    ∷ enum_gate r
    ∷ leverage_gate s r
    ∷ stop_gate r
    ∷ parent_gate r db user
    ∷ open_order_gate s r db user
    ∷ price_gate r
    ∷ notional_gate s now r db user
    ∷ []

-- The first denial ends the call; past the last gate the order is allowed.
abbrev pub first_denial : List (Option RiskDecision) → RiskDecision
first_denial [] = record { allow = true; reason = none; breaker_trigger = none }
first_denial (none ∷ ds) = first_denial ds
first_denial (some d ∷ ds) = d

unfoldable pub check_order : Settings → ℕ → ℕ → RiskRequest → Action (RiskDecision × User)
check_order s now user_id r db = elim (find_user user_id db) [
  | none ↦ raise value_error db
  | some user ↦ pure (first_denial (gates s now r db user), user) db
]
