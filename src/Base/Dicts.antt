-- ===== src/Base/Dicts.antt =====
-- A Python dict with text keys: the entries in the order of their first insertion.
use mathlib.Core.List.{List, [], ◌∷◌}
use mathlib.Core.Option.{Option, none, some}
use etfpulse.Base.Tests.{if◌then◌else◌}
use etfpulse.Base.Codes.{Text, text_eq}

abbrev pub Dict {ℓ} : Type ℓ → Type ℓ
Dict V = List (Text × V)

module _ {ℓ} {V : Type ℓ} where
  -- `d[k] = v`
  abbrev pub dict_set : Text → V → Dict V → Dict V
  dict_set k v [] = (k, v) ∷ []
  dict_set k v ((j, w) ∷ d) =
      let rest = dict_set k v d in if text_eq j k then (j, v) ∷ d else (j, w) ∷ rest

  -- `d.get(k)`
  abbrev pub dict_get : Text → Dict V → Option V
  dict_get k [] = none
  dict_get k ((j, w) ∷ d) = if text_eq j k then some w else dict_get k d
