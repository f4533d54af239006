-- ===== src/Reconcile/Listed.antt =====
-- When the dict of the venue's perps positions has an asset: when a row lists a position of it.
use etfpulse.Base.{
  ◌≡◌, refl, ap, Bool, false, not, ◌&&◌, ltb, Option, none, some, is_none, List, [], ◌∷◌, Text,
  text_eq, text_eq→eq, Dict, dict_get, dict_set, arith, any, inl, inr, Bool-cases,
}
use etfpulse.Decimal.{Decimal}
use etfpulse.Reconcile.Rows.{VenuePosition, normalise_venue_position}
use etfpulse.Reconcile.Perps.{Entry, note_entry, venue_by_asset}

-- A parsed row is a position of an asset when it names it, with a size above 0.
abbrev pub is_position_of : Text → Option (Text × Entry) → Bool
is_position_of asset none = false
is_position_of asset (some (a, (side, size))) = text_eq a asset && ltb 0 size

-- Some row of the venue is a position of the asset.
abbrev pub is_listed : (Text → Option Decimal) → Text → List VenuePosition → Bool
is_listed read_decimal asset rows =
    any (λ row. is_position_of asset (normalise_venue_position read_decimal row)) rows

dict_get-dict_set :
    (a k : Text) (v : Entry) (d : Dict Entry)
    → is_none (dict_get a (dict_set k v d)) ≡ (not (text_eq k a) && is_none (dict_get a d))
dict_get-dict_set a k v [] = ground arith
dict_get-dict_set a k v ((j, w) ∷ d) = elim (Bool-cases (text_eq j k)) [
  | inl e ↦
      let same : text_eq j a ≡ text_eq k a = ap (λ z. text_eq z a) (text_eq→eq j k e) in
      elim (Bool-cases (text_eq k a)) [
        | inl f ↦ rw (e, same, f) refl
        | inr f ↦ rw (e, same, f) refl
      ]
  | inr e ↦ elim (Bool-cases (text_eq j a)) [
    | inl f ↦ rw (e, f) (ground arith)
    | inr f ↦ rw (e, f) (dict_get-dict_set a k v d)
  ]
]

note_entry-listed :
    (a : Text) (x : Option (Text × Entry)) (d : Dict Entry)
    → is_none (dict_get a (note_entry x d)) ≡ (not (is_position_of a x) && is_none (dict_get a d))
note_entry-listed a none d = refl
note_entry-listed a (some (asset, (side, size))) d =
    ground (arith, dict_get-dict_set a asset (side, size) d)

venue_by_asset-from :
    (read_decimal : Text → Option Decimal) (a : Text) (rows : List VenuePosition) (d : Dict Entry)
    → is_none (dict_get a (venue_by_asset read_decimal d rows))
      ≡ (not (is_listed read_decimal a rows) && is_none (dict_get a d))
unfolding venue_by_asset
venue_by_asset-from read_decimal a [] d = refl
venue_by_asset-from read_decimal a (row ∷ rows) d =
    let x = normalise_venue_position read_decimal row in
    ground
      (arith, venue_by_asset-from read_decimal a rows (note_entry x d), note_entry-listed a x d)

pub venue_by_asset-listed :
    (read_decimal : Text → Option Decimal) (a : Text) (rows : List VenuePosition)
    → is_none (dict_get a (venue_by_asset read_decimal [] rows))
      ≡ not (is_listed read_decimal a rows)
venue_by_asset-listed read_decimal a rows =
    ground (arith, venue_by_asset-from read_decimal a rows [])
