-- ===== src/Reconcile/Rows.antt =====
-- What the venue reports of positions: the untyped rows of /positions, and
-- `_normalise_venue_position` of positions_perps.py.
use mathlib.Core.Option.{bind as ◌>>=◌}
use etfpulse.Base.{
  ℕ, true, ◌&&◌, ◌==◌, leb, Option, none, some, if◌then◌else◌, Text, text_eq, codes, map, ◌-◌,
}
use etfpulse.Decimal.{Decimal}
use etfpulse.Models.{PositionSide, long, short}
use etfpulse.Symbols.{extract_asset_from_symbol_name}
use etfpulse.Reconcile.Json.{
  Json, string, integer, boolean, truthy_or, safe_decimal, non_empty_text,
}

-- A row of the venue's /positions: the fields that the code probes.
pub record VenuePosition : Type 0 where
  pub asset : Json
  pub symbol : Json
  pub s : Json
  pub side : Json
  pub position_side : Json
  pub S : Json
  pub size : Json
  pub quantity : Json
  pub q : Json

-- `x.upper()` of an ASCII character.
abbrev pub upper : ℕ → ℕ
upper c = if leb b'a' c && leb c b'z' then c - 32 else c

unfoldable pub side_of_text : Text → Option PositionSide
side_of_text t =
    if text_eq t (codes "LONG")
    then some long
    else if text_eq t (codes "1")
    then some long
    else if text_eq t (codes "SHORT")
    then some short
    else if text_eq t (codes "2")
    then some short
    else none

unfoldable pub side_of_number : ℕ → Option PositionSide
side_of_number n = if n == 1 then some long else if n == 2 then some short else none

-- `True` is the integer 1.
unfoldable pub venue_side : Json → Option PositionSide
venue_side (string t) = side_of_text (map upper t)
venue_side (integer n) = side_of_number n
venue_side (boolean true) = some long
venue_side _ = none

-- `_normalise_venue_position`
unfoldable pub normalise_venue_position :
    (Text → Option Decimal) → VenuePosition → Option (Text × (PositionSide × Decimal))
normalise_venue_position read_decimal row = do
  raw ← non_empty_text (truthy_or row.asset (truthy_or row.symbol row.s))
  asset ← extract_asset_from_symbol_name raw
  side ← venue_side (truthy_or row.side (truthy_or row.position_side row.S))
  size ← safe_decimal read_decimal (truthy_or row.size (truthy_or row.quantity row.q))
  some (asset, (side, size))
