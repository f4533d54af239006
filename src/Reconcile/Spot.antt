-- ===== src/Reconcile/Spot.antt =====
-- positions_spot.py: `spot_reconcile_positions`.
use etfpulse.Base.{
  ℕ, suc, not, ◌&&◌, ◌==◌, or_zero, count_if, List, Dict, dict_get, select, if◌then◌else◌, Text,
}
use etfpulse.Decimal.{Decimal}
use etfpulse.Models.{Venue, Position, Action, pure, gets, save_position, ◌>>=◌, ◌>>◌}
use etfpulse.Reconcile.Drift.{is_tracked, closed_outside, is_drifted, has_asset, each}

pub record SpotDrift : Type 0 where
  pub closed : ℕ
  pub orphans : ℕ
  pub drift : ℕ

abbrev pub no_spot_drift : SpotDrift
no_spot_drift = record { closed = 0; orphans = 0; drift = 0 }

-- `venue_balances.get(asset, Decimal("0"))`
abbrev pub balance_of : Text → Dict Decimal → Decimal
balance_of asset balances = or_zero (dict_get asset balances)

-- One round of the loop over the OPEN positions.
unfoldable pub reconcile_spot_row : ℕ → Dict Decimal → Position → SpotDrift → Action SpotDrift
reconcile_spot_row now balances p d =
    let qty = balance_of p.asset balances in
    if qty == 0
    then (save_position (closed_outside now p) >> pure (record d { closed = suc d.closed }))
    else if is_drifted qty p
    then pure (record d { drift = suc d.drift })
    else pure d

-- The loop over the balances: the assets that the venue holds and no OPEN position has.
unfoldable pub count_spot_orphans : Dict Decimal → List Position → ℕ
count_spot_orphans balances ps =
    count_if (λ entry. not (entry.1 == 0) && not (has_asset entry.0 ps)) balances

unfoldable pub spot_reconcile_positions : ℕ → ℕ → Venue → Dict Decimal → Action SpotDrift
spot_reconcile_positions now user venue balances = do
  open_positions ← gets (λ db. select (is_tracked user venue) db.positions)
  d ← each (reconcile_spot_row now balances) open_positions no_spot_drift
  pure (record d { orphans = count_spot_orphans balances open_positions })
