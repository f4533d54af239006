-- ===== src/Reconcile/Perps.antt =====
-- positions_perps.py: `perps_reconcile_positions`.
use etfpulse.Base.{
  ℕ, suc, not, ◌==◌, Option, none, some, count_if, List, [], ◌∷◌, Dict, dict_get, dict_set, select,
  if◌then◌else◌, Text, is_none, not,
}
use etfpulse.Decimal.{Decimal}
use etfpulse.Models.{
  Venue, PositionSide, position_side_eq, Position, Action, pure, gets, save_position, ◌>>=◌, ◌>>◌,
}
use etfpulse.Reconcile.Rows.{VenuePosition, normalise_venue_position}
use etfpulse.Reconcile.Drift.{is_tracked, closed_outside, is_drifted, has_asset, each}

pub record PerpsDrift : Type 0 where
  pub closed : ℕ
  pub orphans : ℕ
  pub drift : ℕ
  pub side_mismatch : ℕ
  pub skipped : ℕ

abbrev pub Entry : Type 0
Entry = PositionSide × Decimal

-- A parsed row in `venue_by_asset`: a position of size 0 is closed on the venue, and left out.
abbrev pub note_entry : Option (Text × Entry) → Dict Entry → Dict Entry
note_entry none d = d
note_entry (some (asset, (side, size))) d = if size == 0 then d else dict_set asset (side, size) d

-- The loop over the venue's rows, from the dict that the rows before made.
unfoldable pub venue_by_asset :
    (Text → Option Decimal) → Dict Entry → List VenuePosition → Dict Entry
venue_by_asset read_decimal d [] = d
venue_by_asset read_decimal d (row ∷ rows) =
    venue_by_asset read_decimal (note_entry (normalise_venue_position read_decimal row) d) rows

unfoldable pub count_skipped : (Text → Option Decimal) → List VenuePosition → ℕ
count_skipped read_decimal rows =
    count_if (λ row. is_none (normalise_venue_position read_decimal row)) rows

-- One round of the loop over the OPEN positions, with what the venue has under the row's asset.
unfoldable pub reconcile_perps_row : ℕ → Position → PerpsDrift → Option Entry → Action PerpsDrift
reconcile_perps_row now p d none =
    save_position (closed_outside now p) >> pure (record d { closed = suc d.closed })
reconcile_perps_row now p d (some (side, size)) =
    if not (position_side_eq p.side side)
    then pure (record d { side_mismatch = suc d.side_mismatch })
    else if is_drifted size p
    then pure (record d { drift = suc d.drift })
    else pure d

unfoldable pub count_perps_orphans : Dict Entry → List Position → ℕ
count_perps_orphans entries ps = count_if (λ entry. not (has_asset entry.0 ps)) entries

unfoldable pub perps_reconcile_positions :
    (Text → Option Decimal) → ℕ → ℕ → Venue → List VenuePosition → Action PerpsDrift
perps_reconcile_positions read_decimal now user venue rows = do
  let entries = venue_by_asset read_decimal [] rows
  open_positions ← gets (λ db. select (is_tracked user venue) db.positions)
  d ←
      each (λ p d. reconcile_perps_row now p d (dict_get p.asset entries)) open_positions
        (record {
          closed = 0;
          orphans = 0;
          drift = 0;
          side_mismatch = 0;
          skipped = count_skipped read_decimal rows;
        })
  pure (record d { orphans = count_perps_orphans entries open_positions })
