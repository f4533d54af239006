-- ===== src/Execution/Wire.antt =====
-- Text that goes to the venue: `extract_params_bytes` of bytes_helpers.py, and Python's `lower` and
-- `str`.
pub mod Laws
use etfpulse.Base.{
  ℕ, zero, suc, ◌+◌, ◌/◌, ◌%◌, Bool, true, false, not, ◌&&◌, ◌||◌, Option, none, some, is_none,
  List, [], ◌∷◌, ◌++◌, map, Text, codes, leb, ltb, ◌==◌, if◌then◌else◌,
}
use etfpulse.Models.{Result, ok, raised, value_error}

-- `_TYPE_PARAMS_MARKER`
abbrev pub marker : Text
marker = codes ",\"params\":"

-- The rest of a text that starts with the prefix.
abbrev pub strip_prefix : Text → Text → Option Text
strip_prefix [] t = some t
strip_prefix (c ∷ cs) [] = none
strip_prefix (c ∷ cs) (x ∷ xs) = let rest = strip_prefix cs xs in if c == x then rest else none

-- `t.count(m)`. No two occurrences of the marker overlap: its first character is nowhere else in it.
abbrev pub occurrences : Text → Text → ℕ
occurrences m [] = 0
occurrences m (x ∷ xs) = (if is_none (strip_prefix m (x ∷ xs)) then 0 else 1) + occurrences m xs

-- `t[t.index(m) + len(m):]`
abbrev pub first_of : Option Text → Text → Text
first_of none later = later
first_of (some t) later = t

abbrev pub after : Text → Text → Text
after m [] = []
after m (x ∷ xs) = first_of (strip_prefix m (x ∷ xs)) (after m xs)

-- `t[:-1]`, and whether `t` ends with the character.
abbrev pub drop_last : Text → Text
drop_last [] = []
drop_last (x ∷ []) = []
drop_last (x ∷ y ∷ ys) = x ∷ drop_last (y ∷ ys)

abbrev pub ends_with : ℕ → Text → Bool
ends_with c [] = false
ends_with c (x ∷ []) = x == c
ends_with c (x ∷ y ∷ ys) = ends_with c (y ∷ ys)

unfoldable pub extract_params_bytes : (Text → Bool) → Text → Result Text
extract_params_bytes is_action_json payload =
    if not (is_action_json payload)
    then raised value_error
    else if not (occurrences marker payload == 1)
    then raised value_error
    else if not (ends_with b'}' payload)
    then raised value_error
    else ok (drop_last (after marker payload))

-- `signature.lower()`, on ASCII: no other character lowers to one that a signature has.
abbrev pub lower_char : ℕ → ℕ
lower_char c = if leb b'A' c && leb c b'Z' then c + 32 else c

unfoldable pub lower : Text → Text
lower t = map lower_char t

-- `str(n)`. The fuel is enough for every n below 10^fuel.
abbrev pub digits_from : ℕ → ℕ → Text → Text
digits_from zero n acc = acc
digits_from (suc fuel) n acc =
    let more = digits_from fuel (n / 10) ((n % 10 + 48) ∷ acc) in
    if ltb n 10 then (n + 48) ∷ acc else more

unfoldable pub str : ℕ → Text
str n = digits_from 40 n []
