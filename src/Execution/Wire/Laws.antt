-- ===== src/Execution/Wire/Laws.antt =====
-- The body that is sent is the part of the stored payload that was signed as `params`.
use etfpulse.Base.{ℕ, ◌<◌, ◌≡◌, refl, Bool, true, some, [], ◌∷◌, ◌++◌, Text, ==_refl, arith, ap}
use etfpulse.Models.{ok}
use etfpulse.Execution.Wire.{
  marker, strip_prefix, occurrences, after, drop_last, ends_with, extract_params_bytes,
}

strip_prefix-append : (m ys : Text) → strip_prefix m (m ++ ys) ≡ some ys
strip_prefix-append [] ys = refl
strip_prefix-append (c ∷ cs) ys = rw (==_refl c) (strip_prefix-append cs ys)

occurs : (c : ℕ) (cs xs ys : Text) → 0 < occurrences (c ∷ cs) (xs ++ ((c ∷ cs) ++ ys))
occurs c cs [] ys = rw (==_refl c, strip_prefix-append cs ys) (omega arith)
occurs c cs (x ∷ xs) ys = omega (arith, occurs c cs xs ys)

after-only :
    (c : ℕ) (cs xs ys : Text)
    → occurrences (c ∷ cs) (xs ++ ((c ∷ cs) ++ ys)) ≡ 1
    → after (c ∷ cs) (xs ++ ((c ∷ cs) ++ ys)) ≡ ys
after-only c cs [] ys h = rw (==_refl c, strip_prefix-append cs ys) refl
after-only c cs (x ∷ xs) ys h = ground (arith, h, occurs c cs xs ys, after-only c cs xs ys)

drop_last-append : (c : ℕ) (xs : Text) → drop_last (xs ++ c ∷ []) ≡ xs
drop_last-append c [] = refl
drop_last-append c (x ∷ []) = refl
drop_last-append c (x ∷ y ∷ ys) = ap (λ t. x ∷ t) (drop_last-append c (y ∷ ys))

ends_with-more : (c : ℕ) (xs ys : Text) → ends_with c ys ≡ true → ends_with c (xs ++ ys) ≡ true
ends_with-more c [] ys h = h
ends_with-more c (x ∷ []) [] h = ground (arith, h)
ends_with-more c (x ∷ []) (y ∷ ys) h = h
ends_with-more c (x ∷ x' ∷ xs) ys h = ends_with-more c (x' ∷ xs) ys h

ends_with-payload :
    (head body : Text) → ends_with b'}' (head ++ (marker ++ (body ++ b'}' ∷ []))) ≡ true
ends_with-payload head body =
    ends_with-more b'}' head (marker ++ (body ++ b'}' ∷ []))
      (ends_with-more b'}' marker (body ++ b'}' ∷ []) (ends_with-more b'}' body (b'}' ∷ []) refl))

-- The extraction returns the very bytes between the marker and the closing brace, for a payload that
-- the parser reads and where the marker stands once.
pub extract_params_bytes-payload :
    (is_action_json : Text → Bool) (head body : Text)
    → is_action_json (head ++ (marker ++ (body ++ b'}' ∷ []))) ≡ true
    → occurrences marker (head ++ (marker ++ (body ++ b'}' ∷ []))) ≡ 1
    → extract_params_bytes is_action_json (head ++ (marker ++ (body ++ b'}' ∷ []))) ≡ ok body
unfolding extract_params_bytes
extract_params_bytes-payload is_action_json head body h k =
    rw
      (
        h,
        k,
        ends_with-payload head body,
        after-only _ _ head (body ++ b'}' ∷ []) k,
        extract_params_bytes,
      )
      (ap ok (drop_last-append b'}' body))
