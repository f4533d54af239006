-- ===== src/Reconcile/Json.antt =====
-- What the JSON rows of the venue hold, and how the code reads them. A negative number acts as 0:
-- every number that is read is compared with 0 or with one that is not negative. Numbers that are
-- not finite are left out.
use etfpulse.Base.{
  ℕ, ◌*◌, Bool, true, false, not, ◌==◌, Option, none, some, [], ◌∷◌, Text, if◌then◌else◌,
}
use etfpulse.Decimal.{Decimal, one}

-- `structure` is a list or an object, with whether it has elements.
pub data Json : Type 0 where
  null : Json
  string : Text → Json
  integer : ℕ → Json
  real : Decimal → Json
  boolean structure : Bool → Json

-- `bool(raw)`
unfoldable pub is_truthy : Json → Bool
is_truthy null = false
is_truthy (string []) = false
is_truthy (string (c ∷ cs)) = true
is_truthy (integer n) = not (n == 0)
is_truthy (real d) = not (d == 0)
is_truthy (boolean b) = b
is_truthy (structure b) = b

-- `a or b`
unfoldable pub truthy_or : Json → Json → Json
unfolding is_truthy
truthy_or a b = if is_truthy a then a else b

-- `Decimal(str(raw))`, or nothing where it raises. `read_decimal` is `Decimal` of a text.
unfoldable pub safe_decimal : (Text → Option Decimal) → Json → Option Decimal
safe_decimal read_decimal null = none
safe_decimal read_decimal (string t) = read_decimal t
safe_decimal read_decimal (integer n) = some (n * one)
safe_decimal read_decimal (real d) = some d
safe_decimal read_decimal (boolean b) = none
safe_decimal read_decimal (structure b) = none

-- `isinstance(raw, str) and raw`
unfoldable pub non_empty_text : Json → Option Text
non_empty_text (string (c ∷ cs)) = some (c ∷ cs)
non_empty_text _ = none
