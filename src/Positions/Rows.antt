-- ===== src/Positions/Rows.antt =====
-- A query by key after an update or an insert.
use etfpulse.Base.{
  ◌≡◌, ◌≢◌, refl, Bool, false, ◌==◌, inl, inr, some, List, [], ◌∷◌, ◌++◌, arith, select, find,
  if◌then◌else◌, Bool-cases,
}
use etfpulse.Models.{Position, put_position}
use etfpulse.Positions.OneOpen.{DistinctIds, put_absent, find_selected, ids_apart}

-- The row that was found is replaced, if the new one still passes.
pub select-put :
    (test : Position → Bool) (e new : Position) (ps : List Position)
    → new.id ≡ e.id
    → DistinctIds ps
    → select test ps ≡ e ∷ []
    → select test (put_position new ps) ≡ (if test new then new ∷ [] else [])
select-put test e new [] same d h = ground arith
select-put test e new (p ∷ ps) same d h = elim (Bool-cases (test p)) [
  | inl hit ↦
      let found : p ≡ e = ground arith in
      let rest : put_position new ps ≡ ps = put_absent p.id new ps (ground arith) d.0 in
      ground arith
  | inr miss ↦
      let apart : p.id ≢ e.id =
        ids_apart p e ps d.0 (find_selected test e ps d.1 (ground arith)).0 in
      let rest : select test (put_position new ps) ≡ (if test new then new ∷ [] else []) =
        select-put test e new ps same d.1 (ground arith) in
      ground arith
]

-- A query that neither the old row nor the new one passes is not changed.
pub select-put_other :
    (test : Position → Bool) (e new : Position) (ps : List Position)
    → new.id ≡ e.id
    → DistinctIds ps
    → find (λ q. q.id == e.id) ps ≡ some e
    → test e ≡ false
    → test new ≡ false
    → select test (put_position new ps) ≡ select test ps
select-put_other test e new [] same d found old fresh = refl
select-put_other test e new (p ∷ ps) same d found old fresh = elim (Bool-cases (p.id == e.id)) [
  | inl hit ↦
      let here : p ≡ e = ground arith in
      let rest : put_position new ps ≡ ps = put_absent p.id new ps (ground arith) d.0 in
      ground arith
  | inr miss ↦ ground (arith, select-put_other test e new ps same d.1)
]

pub select-append_one :
    (test : Position → Bool) (new : Position) (ps : List Position)
    → select test (ps ++ new ∷ []) ≡ select test ps ++ (if test new then new ∷ [] else [])
select-append_one test new [] = ground arith
select-append_one test new (p ∷ ps) = ground (arith, select-append_one test new ps)
