-- ===== src/Symbols.antt =====
-- backend/etfpulse/pipeline/symbols_refresh.py: `extract_asset_from_symbol_name`, by which the
-- symbols of both venues become asset codes.
pub mod Laws
use etfpulse.Base.{ℕ, Bool, ◌||◌, ◌==◌, Option, none, some, [], ◌∷◌, Text, if◌then◌else◌}

-- `text.split(separator, 1)[0]`
unfoldable pub before : ℕ → Text → Text
before separator [] = []
before separator (c ∷ cs) =
    let rest = before separator cs in if c == separator then [] else c ∷ rest

abbrev pub is_v : ℕ → Bool
is_v c = c == b'v' || c == b'V'

-- `base.lstrip("vV")`
unfoldable pub strip_v : Text → Text
strip_v [] = []
strip_v (c ∷ cs) = let rest = strip_v cs in if is_v c then rest else c ∷ cs

-- The first of two texts that is not empty, or nothing.
unfoldable pub first_not_empty : Text → Text → Option Text
first_not_empty [] [] = none
first_not_empty [] (c ∷ cs) = some (c ∷ cs)
first_not_empty (c ∷ cs) base = some (c ∷ cs)

-- The branch for the empty name is the last one's answer too: it has no base.
unfoldable pub extract_asset_from_symbol_name : Text → Option Text
extract_asset_from_symbol_name name =
    let base = before b'-' (before b'_' name) in first_not_empty (strip_v base) base
