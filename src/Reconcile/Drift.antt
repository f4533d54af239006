-- ===== src/Reconcile/Drift.antt =====
-- What the two reconciliations of positions share: the query for a user's rows, the close, and the
-- test for a size that differs by more than one basis point.
use etfpulse.Base.{ℕ, ◌^◌, Bool, not, ◌&&◌, ltb, ◌==◌, some, List, [], ◌∷◌, Text, text_eq, any}
use etfpulse.Decimal.{Decimal, abs_diff, div}
use etfpulse.Models.{Venue, venue_eq, is_open, closed_position, Position, Action, pure, ◌>>=◌}
use etfpulse.Positions.{option_eq}

-- `Decimal("0.0001")`
abbrev pub tolerance : Decimal
tolerance = 10 ^ 42

-- The WHERE clause: the OPEN rows of a user at a venue that are not paper trades.
unfoldable pub is_tracked : ℕ → Venue → Position → Bool
is_tracked user venue p =
    option_eq p.user_id (some user)
    && venue_eq p.venue venue
    && is_open p.status
    && not p.paper_trade

-- A row whose position is gone. Its `close_price` stays as it is: nobody knows the price.
unfoldable pub closed_outside : ℕ → Position → Position
closed_outside now p = record p { status = closed_position; closed_at = some now }

-- `relative_diff > tolerance`, under the guard against a size of 0.
unfoldable pub is_drifted : Decimal → Position → Bool
is_drifted venue_size p =
    not (p.size == 0) && ltb tolerance (div (abs_diff venue_size p.size) p.size)

-- `asset in our_assets`
unfoldable pub has_asset : Text → List Position → Bool
has_asset asset ps = any (λ p. text_eq p.asset asset) ps

-- A loop over rows that threads its counts.
unfoldable pub each {ℓ} : {A : Type ℓ} {D : Type 0} → (A → D → Action D) → List A → D → Action D
each f [] d = pure d
each f (x ∷ xs) d = f x d >>= λ d'. each f xs d'
