-- ===== src/Breaker.antt =====
-- backend/etfpulse/pipeline/circuit_breaker.py: activations of circuit breakers, global or of one
-- user, and their resolution.
pub mod Laws
use etfpulse.Base.{
  ℕ, suc, ◌+◌, Bool, true, false, ◌&&◌, ◌==◌, Option, none, some, is_none, List, [], ◌∷◌, ◌++◌,
  Text, any, count_if, map, leb, if◌then◌else◌,
}
use etfpulse.Models.{Trigger, trigger_eq, CircuitBreaker, Db, Action, pure}
use etfpulse.Positions.{option_eq}

-- The WHERE clause of one scope: an unresolved row of the trigger, for the user or for nobody.
unfoldable pub is_active : Trigger → Option ℕ → CircuitBreaker → Bool
is_active trigger user b =
    trigger_eq b.trigger_type trigger && option_eq b.user_id user && is_none b.resolved_at

-- `INSERT ... ON CONFLICT DO NOTHING` on the partial unique index of the active scope. The index takes
-- a missing user for -1, which is no id.
unfoldable pub record_breaker : ℕ → Trigger → Option ℕ → Action (Option CircuitBreaker)
record_breaker now trigger user db =
    let row : CircuitBreaker = record {
      id = db.next_breaker_id;
      user_id = user;
      trigger_type = trigger;
      triggered_at = now;
      resolved_at = none;
      resolved_by = none;
    } in
    if any (is_active trigger user) db.breakers
    then pure none db
    else pure (some row)
        (record db { breakers = db.breakers ++ row ∷ []; next_breaker_id = suc db.next_breaker_id })

-- The newest of the active rows: `order_by(triggered_at.desc()).limit(1)`.
abbrev pub newer : CircuitBreaker → Option CircuitBreaker → Option CircuitBreaker
newer b none = some b
newer b (some c) = if leb c.triggered_at b.triggered_at then some b else some c

abbrev pub newest : (CircuitBreaker → Bool) → List CircuitBreaker → Option CircuitBreaker
newest test [] = none
newest test (b ∷ bs) = let rest = newest test bs in if test b then newer b rest else rest

unfoldable pub find_active : Trigger → Option ℕ → Db → Option CircuitBreaker
find_active trigger user db = newest (is_active trigger user) db.breakers

abbrev pub resolve_row : ℕ → Text → (CircuitBreaker → Bool) → CircuitBreaker → CircuitBreaker
resolve_row now by test b =
    if test b then record b { resolved_at = some now; resolved_by = some by } else b

-- `resolve`: the UPDATE of one scope, and its row count.
unfoldable pub resolve : ℕ → Trigger → Text → Option ℕ → Action ℕ
resolve now trigger by user db =
    pure (count_if (is_active trigger user) db.breakers)
      (record db { breakers = map (resolve_row now by (is_active trigger user)) db.breakers })

unfoldable pub count_active : Db → ℕ
count_active db = count_if (λ b. is_none b.resolved_at) db.breakers
