-- ===== src/Positions/Book.antt =====
-- What the tracker promises: for each key a holding, which a fill opens, grows, shrinks or ends.
use etfpulse.Base.{
  ◌+◌, ◌-◌, ◌≡◌, Bool, leb, Option, none, some, List, [], ◌∷◌, min, select, if◌then◌else◌,
}
use etfpulse.Decimal.{Decimal, context}
use etfpulse.Models.{PositionSide, position_side_eq, Position, Db}
use etfpulse.Positions.{Key, holds}

-- The side and the size that are held.
abbrev pub Holding : Type 0
Holding = Option (PositionSide × Decimal)

abbrev pub first_holding : List Position → Holding
first_holding [] = none
first_holding (p ∷ ps) = some (p.side, p.size)

abbrev pub holding : Key → Db → Holding
holding k db = first_holding (select (holds k) db.positions)

-- A fill on the fill's own side opens or grows, unless it may only reduce; one on the other side
-- shrinks, and ends the holding when it is as large. What exceeds the holding is dropped.
abbrev pub book_fill : Bool → PositionSide → Decimal → Holding → Holding
book_fill reduce_only side size none = if reduce_only then none else some (side, size)
book_fill reduce_only side size (some (s, held)) =
    if position_side_eq s side
    then some (s, if reduce_only then held else held + size)
    else if leb held size
    then none
    else some (s, held - size)

-- Sums and differences with the holding have at most 28 significant digits.
abbrev pub FitsContext : Holding → Decimal → Type 0
FitsContext none size = Unit
FitsContext (some (_, held)) size =
    (context (held + size) ≡ held + size) × (context (held - min size held) ≡ held - min size held)
