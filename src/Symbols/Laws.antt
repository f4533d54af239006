-- ===== src/Symbols/Laws.antt =====
-- The asset code of the symbols that the venues print.
use etfpulse.Base.{
  ◌≡◌, refl, ◌||◌, not, true, false, ◌==◌, some, [], ◌∷◌, ◌++◌, Text, arith, every, Bool, ℕ, ap,
  ◌∙◌,
}
use etfpulse.Symbols.{before, strip_v, is_v, first_not_empty, extract_asset_from_symbol_name}

-- A text without the two separators.
abbrev pub is_plain : ℕ → Bool
is_plain c = not (c == b'_' || c == b'-')

before-append :
    (separator : ℕ) (base rest : Text)
    → every (λ c. not (c == separator)) base ≡ true
    → before separator (base ++ separator ∷ rest) ≡ base
unfolding before
before-append separator [] rest h = ground arith
before-append separator (c ∷ cs) rest h = ground (arith, before-append separator cs rest)

-- A separator stays when the text is cut at another one behind it.
before-through :
    (separator other : ℕ) (base rest : Text)
    → every (λ c. not (c == separator)) base ≡ true
    → (other == separator) ≡ false
    → before separator (base ++ other ∷ rest) ≡ base ++ other ∷ before separator rest
unfolding before
before-through separator other [] rest h ne = ground arith
before-through separator other (c ∷ cs) rest h ne =
    ground (arith, before-through separator other cs rest)

before-absent :
    (separator : ℕ) (base : Text)
    → every (λ c. not (c == separator)) base ≡ true
    → before separator base ≡ base
unfolding before
before-absent separator [] h = refl
before-absent separator (c ∷ cs) h = ground (arith, before-absent separator cs)

no_underscore :
    (base : Text) → every is_plain base ≡ true → every (λ c. not (c == b'_')) base ≡ true
no_underscore [] h = refl
no_underscore (c ∷ cs) h = ground (arith, no_underscore cs)

no_dash : (base : Text) → every is_plain base ≡ true → every (λ c. not (c == b'-')) base ≡ true
no_dash [] h = refl
no_dash (c ∷ cs) h = ground (arith, no_dash cs)

module _ (c : ℕ) (cs quote : Text) (plain : every is_plain (c ∷ cs) ≡ true)
    (other : is_v c ≡ false) where
  stripped : first_not_empty (strip_v (c ∷ cs)) (c ∷ cs) ≡ some (c ∷ cs)
  unfolding strip_v first_not_empty
  stripped = rw other refl

  from_base :
      (name : Text)
      → before b'-' (before b'_' name) ≡ c ∷ cs
      → extract_asset_from_symbol_name name ≡ some (c ∷ cs)
  unfolding extract_asset_from_symbol_name
  from_base name e = ap (λ t. first_not_empty (strip_v t) t) e ∙ stripped

  v_base :
      (name : Text)
      → before b'-' (before b'_' name) ≡ b'v' ∷ c ∷ cs
      → extract_asset_from_symbol_name name ≡ some (c ∷ cs)
  unfolding extract_asset_from_symbol_name strip_v first_not_empty
  v_base name e = ap (λ t. first_not_empty (strip_v t) t) e ∙ rw other refl

  -- The spot symbol of an asset (`v<base>_<quote>`), its perps symbol (`<base>-<quote>`) and the bare
  -- code all give the code back, for a code that has neither separator and no leading v.
  pub extract_asset-base :
      (extract_asset_from_symbol_name (b'v' ∷ (c ∷ cs) ++ b'_' ∷ quote) ≡ some (c ∷ cs))
      × (extract_asset_from_symbol_name ((c ∷ cs) ++ b'-' ∷ quote) ≡ some (c ∷ cs))
      × (extract_asset_from_symbol_name (c ∷ cs) ≡ some (c ∷ cs))
  extract_asset-base = (
    v_base (b'v' ∷ (c ∷ cs) ++ b'_' ∷ quote) (
        ap (before b'-')
          (before-append b'_' (b'v' ∷ c ∷ cs) quote (no_underscore (b'v' ∷ c ∷ cs) plain))
        ∙ before-absent b'-' (b'v' ∷ c ∷ cs) (no_dash (b'v' ∷ c ∷ cs) plain)),
    from_base ((c ∷ cs) ++ b'-' ∷ quote) (
        ap (before b'-')
          (before-through b'_' b'-' (c ∷ cs) quote (no_underscore (c ∷ cs) plain) refl)
        ∙ before-append b'-' (c ∷ cs) (before b'_' quote) (no_dash (c ∷ cs) plain)),
    from_base (c ∷ cs) (
        ap (before b'-') (before-absent b'_' (c ∷ cs) (no_underscore (c ∷ cs) plain))
        ∙ before-absent b'-' (c ∷ cs) (no_dash (c ∷ cs) plain)),
  )
