-- ===== src/Positions/OneOpen.antt =====
-- The rows of a table stay apart: ids are distinct and below the sequence, and no key has two OPEN
-- positions. `existing_position` then never raises.
use mathlib.Core.Bool.{false≢true}
use etfpulse.Base.{
  ◌≢◌, inl, inr, Bool-cases, ℕ, suc, ◌+◌, ◌≤◌, ◌<◌, ◌≡◌, refl, sym, ap, ◌∙◌, Bool, true, false,
  ◌==◌, some, List, [], ◌∷◌, ◌++◌, arith, if◌then◌else◌, any, find, select, count_if, All, length,
  count_if-append,
}
use etfpulse.Models.{Position, put_position}
use etfpulse.Positions.{Key, holds}

-- Ids are distinct.
abbrev pub DistinctIds : List Position → Type 0
DistinctIds [] = Unit
DistinctIds (p ∷ ps) = (any (λ q. q.id == p.id) ps ≡ false) × DistinctIds ps

-- Each key has at most one OPEN position.
abbrev pub OneOpen : List Position → Type 0
OneOpen ps = (k : Key) → count_if (holds k) ps ≤ 1

pub put_absent :
    (i : ℕ) (new : Position) (ps : List Position)
    → new.id ≡ i
    → any (λ q. q.id == i) ps ≡ false
    → put_position new ps ≡ ps
put_absent i new [] same h = refl
put_absent i new (p ∷ ps) same h = ground (arith, put_absent i new ps same)

-- How a key's count moves when a row is replaced.
count-put :
    (k : Key) (e new : Position) (ps : List Position)
    → new.id ≡ e.id
    → DistinctIds ps
    → find (λ q. q.id == e.id) ps ≡ some e
    → count_if (holds k) (put_position new ps) + (if holds k e then 1 else 0)
      ≡ count_if (holds k) ps + (if holds k new then 1 else 0)
count-put k e new [] same d h = ground arith
count-put k e new (p ∷ ps) same d h = elim (Bool-cases (p.id == e.id)) [
  | inl hit ↦
      let found : p ≡ e = ground arith in
      let rest : put_position new ps ≡ ps = put_absent p.id new ps (ground arith) d.0 in
      ground arith
  | inr miss ↦ ground (arith, count-put k e new ps same d.1)
]

find→any :
    (test : Position → Bool) (ps : List Position) (e : Position)
    → find test ps ≡ some e
    → any test ps ≡ true
find→any test [] e h = ground arith
find→any test (p ∷ ps) e h = elim (Bool-cases (test p)) [
  | inl hit ↦ ground arith
  | inr miss ↦ let rest : any test ps ≡ true = find→any test ps e (ground arith) in ground arith
]

-- A row stands apart from every row behind it.
pub ids_apart :
    (p e : Position) (ps : List Position)
    → any (λ q. q.id == p.id) ps ≡ false
    → find (λ q. q.id == e.id) ps ≡ some e
    → p.id ≢ e.id
ids_apart p e ps d found same =
    false≢true
      (sym d ∙ ap (λ i. any (λ q. q.id == i) ps) same ∙ find→any (λ q. q.id == e.id) ps e found)

-- The single row that a query returns is the row of its id.
pub find_selected :
    (test : Position → Bool) (e : Position) (ps : List Position)
    → DistinctIds ps
    → select test ps ≡ e ∷ []
    → (find (λ q. q.id == e.id) ps ≡ some e) × (test e ≡ true)
find_selected test e [] d h = ground arith
find_selected test e (p ∷ ps) d h = elim (Bool-cases (test p)) [
  | inl hit ↦ let found : p ≡ e = ground arith in ground arith
  | inr miss ↦
      let (found, passes) = find_selected test e ps d.1 (ground arith) in
      let apart : p.id ≢ e.id = ids_apart p e ps d.0 found in ground arith
]

-- A query's row count is the length of its answer.
pub select_none :
    (test : Position → Bool) (ps : List Position) → select test ps ≡ [] → count_if test ps ≡ 0
select_none test [] h = refl
select_none test (p ∷ ps) h = ground (arith, select_none test ps)

-- The three answers of `one_or_none`.
pub length-select :
    (test : Position → Bool) (ps : List Position) → length (select test ps) ≡ count_if test ps
length-select test [] = refl
length-select test (p ∷ ps) = ground (arith, length-select test ps)

-- The rows of the positions table stay apart.
pub record Apart (next : ℕ) (ps : List Position) : Type 0 where
  pub distinct : DistinctIds ps
  pub below : All (λ p. p.id < next) ps
  pub one_open : OneOpen ps

below-put :
    (n : ℕ) (new : Position) (ps : List Position)
    → All (λ p. p.id < n) ps
    → All (λ p. p.id < n) (put_position new ps)
below-put n new [] h = tt
below-put n new (p ∷ ps) h = ground (arith, below-put n new ps h.1)

any-put :
    (i : ℕ) (new : Position) (ps : List Position)
    → any (λ q. q.id == i) (put_position new ps) ≡ any (λ q. q.id == i) ps
any-put i new [] = refl
any-put i new (p ∷ ps) = ground (arith, any-put i new ps)

distinct-put :
    (new : Position) (ps : List Position) → DistinctIds ps → DistinctIds (put_position new ps)
distinct-put new [] d = tt
distinct-put new (p ∷ ps) d =
    ground (arith, any-put p.id new ps, any-put new.id new ps, distinct-put new ps d.1)

-- An update that opens no key that the row did not hold keeps the rows apart.
pub put-Apart :
    (n : ℕ) (e new : Position) (ps : List Position)
    → Apart n ps
    → new.id ≡ e.id
    → find (λ q. q.id == e.id) ps ≡ some e
    → ((k : Key) → holds k new ≡ true → holds k e ≡ true)
    → Apart n (put_position new ps)
put-Apart n e new ps a same found keeps = record {
  distinct = distinct-put new ps a.distinct;
  below = below-put n new ps a.below;
  one_open = λ k. ground (arith, count-put k e new ps same a.distinct found, a.one_open k, keeps k);
}

fresh_id : (n : ℕ) (ps : List Position) → All (λ p. p.id < n) ps → any (λ q. q.id == n) ps ≡ false
fresh_id n [] h = refl
fresh_id n (p ∷ ps) h = ground (arith, fresh_id n ps h.1)

any-append-one :
    (i : ℕ) (new : Position) (ps : List Position)
    → any (λ q. q.id == i) ps ≡ false
    → new.id ≢ i
    → any (λ q. q.id == i) (ps ++ new ∷ []) ≡ false
any-append-one i new [] h ne = ground arith
any-append-one i new (p ∷ ps) h ne = ground (arith, any-append-one i new ps)

distinct-append :
    (n : ℕ) (new : Position) (ps : List Position)
    → new.id ≡ n
    → All (λ p. p.id < n) ps
    → DistinctIds ps
    → DistinctIds (ps ++ new ∷ [])
distinct-append n new [] e b d = ground arith
distinct-append n new (p ∷ ps) e b d =
    (any-append-one p.id new ps d.0 (omega arith), distinct-append n new ps e b.1 d.1)

below-append :
    (n : ℕ) (new : Position) (ps : List Position)
    → new.id ≡ n
    → All (λ p. p.id < n) ps
    → All (λ p. p.id < suc n) (ps ++ new ∷ [])
below-append n new [] e b = ground arith
below-append n new (p ∷ ps) e b = (omega arith, below-append n new ps e b.1)

-- A row inserted under a key that no row holds keeps the rows apart.
pub append-Apart :
    (n : ℕ) (new : Position) (ps : List Position)
    → Apart n ps
    → new.id ≡ n
    → ((k : Key) → holds k new ≡ true → count_if (holds k) ps ≡ 0)
    → Apart (suc n) (ps ++ new ∷ [])
append-Apart n new ps a e none_held = record {
  distinct = distinct-append n new ps e a.below a.distinct;
  below = below-append n new ps e a.below;
  one_open =
      λ k. ground (arith, count_if-append (holds k) ps (new ∷ []), a.one_open k, none_held k);
}
