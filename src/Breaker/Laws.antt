-- ===== src/Breaker/Laws.antt =====
-- What activations and resolutions do to the scopes.
use etfpulse.Base.{
  ℕ, ◌+◌, ◌≤◌, ◌<◌, ◌≡◌, refl, Bool, true, false, Option, none, some, Option-cases, is_none, List,
  [], ◌∷◌, ◌++◌, Text, any, count_if, count_if-append, arith, map, inl, inr, Bool-cases, ◌∙◌, sym,
}
use etfpulse.Models.{
  Trigger, macro_event, manual, daily_loss_limit, trigger_eq, CircuitBreaker, Db, ok,
}
use etfpulse.Positions.Keys.{option_eq→eq, option_eq_refl}
use etfpulse.Breaker.{
  is_active, record_breaker, resolve, resolve_row, count_active, find_active, newest,
}

-- Each scope has at most one unresolved row.
abbrev pub OneActive : List CircuitBreaker → Type 0
OneActive bs = (t : Trigger) (u : Option ℕ) → count_if (is_active t u) bs ≤ 1

any-false :
    (test : CircuitBreaker → Bool) (bs : List CircuitBreaker)
    → any test bs ≡ false
    → count_if test bs ≡ 0
any-false test [] h = refl
any-false test (b ∷ bs) h = ground (arith, any-false test bs)

any-true :
    (test : CircuitBreaker → Bool) (bs : List CircuitBreaker)
    → any test bs ≡ true
    → 0 < count_if test bs
any-true test [] h = ground arith
any-true test (b ∷ bs) h = ground (arith, any-true test bs)

newest-none :
    (test : CircuitBreaker → Bool) (bs : List CircuitBreaker)
    → count_if test bs ≡ 0
    → newest test bs ≡ none
newest-none test [] h = refl
newest-none test (b ∷ bs) h = ground (arith, newest-none test bs)

is_active-scope :
    (t : Trigger) (u : Option ℕ) (b : CircuitBreaker)
    → is_active t u b ≡ true
    → (b.trigger_type ≡ t) × (b.user_id ≡ u)
unfolding is_active
is_active-scope t u b h = ground (arith, option_eq→eq b.user_id u)

-- A row is active in one scope only.
one_scope :
    (t s : Trigger) (u v : Option ℕ) (b : CircuitBreaker)
    → is_active t u b ≡ true
    → is_active s v b ≡ true
    → (t ≡ s) × (u ≡ v)
unfolding is_active
one_scope t s u v b h k =
    let (p, q) = is_active-scope t u b h in
    let (p', q') = is_active-scope s v b k in (sym p ∙ p', sym q ∙ q')

same_scope :
    {t s : Trigger} {u v : Option ℕ} (bs : List CircuitBreaker)
    → t ≡ s
    → u ≡ v
    → count_if (is_active t u) bs ≡ 0
    → count_if (is_active s v) bs ≡ 0
same_scope bs e f h = rw (sym e, sym f) h

append-OneActive :
    (bs : List CircuitBreaker) (row : CircuitBreaker) (trigger : Trigger) (user : Option ℕ)
    → row.trigger_type ≡ trigger
    → row.user_id ≡ user
    → any (is_active trigger user) bs ≡ false
    → OneActive bs
    → OneActive (bs ++ row ∷ [])
append-OneActive bs row trigger user et eu new h t u = elim (Bool-cases (is_active t u row)) [
  | inl act ↦
      let (p, q) = is_active-scope t u row act in
      rw
        (
          count_if-append (is_active t u) bs (row ∷ []),
          act,
          same_scope bs (sym et ∙ p) (sym eu ∙ q) (any-false (is_active trigger user) bs new),
        )
        (omega arith)
  | inr out ↦ rw (count_if-append (is_active t u) bs (row ∷ []), out) (omega (arith, h t u))
]

-- An activation keeps each scope at one unresolved row, whatever the trigger and the scope.
pub record_breaker-OneActive :
    (now : ℕ) (trigger : Trigger) (user : Option ℕ) (db : Db)
    → OneActive db.breakers
    → OneActive (record_breaker now trigger user db).1.breakers
unfolding record_breaker
record_breaker-OneActive now trigger user db h t u =
    elim (Bool-cases (any (is_active trigger user) db.breakers)) [
      | inl old ↦ rw (old, record_breaker) (h t u)
      | inr new ↦
          rw (new, record_breaker) (append-OneActive db.breakers _ trigger user refl refl new h t u)
    ]

-- A row that a resolution touched is active in no scope.
row_resolved :
    (now : ℕ) (by : Text) (t : Trigger) (u : Option ℕ) (b : CircuitBreaker)
    → is_active t u (resolve_row now by (is_active t u) b) ≡ false
unfolding is_active
row_resolved now by t u b = ground (arith)

-- The rows of the table after a resolution: the unresolved ones of the scope have its time and its
-- author, and every other one is as before.
pub data Resolves (now : ℕ) (by : Text) (t : Trigger) (u : Option ℕ)
    : List CircuitBreaker → List CircuitBreaker → Type 0 where
  no_rows : Resolves now by t u [] []
  resolved_row :
      (b : CircuitBreaker) (bs bs' : List CircuitBreaker)
      → b.trigger_type ≡ t
      → b.user_id ≡ u
      → b.resolved_at ≡ none
      → Resolves now by t u bs bs'
      → Resolves now by t u
          (b ∷ bs)
          (record b { resolved_at = some now; resolved_by = some by } ∷ bs')
  other_row :
      (b : CircuitBreaker) (bs bs' : List CircuitBreaker)
      → ¬ ((b.trigger_type ≡ t) × ((b.user_id ≡ u) × (b.resolved_at ≡ none)))
      → Resolves now by t u bs bs'
      → Resolves now by t u (b ∷ bs) (b ∷ bs')

is_active-unresolved :
    (t : Trigger) (u : Option ℕ) (b : CircuitBreaker)
    → is_active t u b ≡ true
    → b.resolved_at ≡ none
unfolding is_active
is_active-unresolved t u b h = elim (Option-cases b.resolved_at) [
  | inl e ↦ e
  | inr (r, e) ↦ ground (arith, h, e)
]

trigger_eq_refl : (t : Trigger) → trigger_eq t t ≡ true
trigger_eq_refl macro_event = refl
trigger_eq_refl manual = refl
trigger_eq_refl daily_loss_limit = refl

in_scope :
    (t : Trigger) (u : Option ℕ) (b : CircuitBreaker)
    → b.trigger_type ≡ t
    → b.user_id ≡ u
    → b.resolved_at ≡ none
    → is_active t u b ≡ true
unfolding is_active
in_scope t u b h k l = rw (h, k, l, trigger_eq_refl t, option_eq_refl u) refl

resolve_row-Resolves :
    (now : ℕ) (by : Text) (t : Trigger) (u : Option ℕ) (bs : List CircuitBreaker)
    → Resolves now by t u bs (map (resolve_row now by (is_active t u)) bs)
resolve_row-Resolves now by t u [] = no_rows
resolve_row-Resolves now by t u (b ∷ bs) = elim (Bool-cases (is_active t u b)) [
  | inl act ↦
      let (p, q) = is_active-scope t u b act in
      rw act (
        resolved_row b bs _ p q (is_active-unresolved t u b act)
          (resolve_row-Resolves now by t u bs))
  | inr out ↦ rw out (
      other_row b bs _ (λ k. ground (arith, out, in_scope t u b k.0 k.1.0 k.1.1))
        (resolve_row-Resolves now by t u bs))
]

resolved_none :
    (now : ℕ) (by : Text) (t : Trigger) (u : Option ℕ) (bs : List CircuitBreaker)
    → count_if (is_active t u) (map (resolve_row now by (is_active t u)) bs) ≡ 0
resolved_none now by t u [] = refl
resolved_none now by t u (b ∷ bs) =
    rw (row_resolved now by t u b) (omega (arith, resolved_none now by t u bs))

resolved_active :
    (now : ℕ) (by : Text) (t : Trigger) (u : Option ℕ) (bs : List CircuitBreaker)
    → count_if (λ b. is_none b.resolved_at) (map (resolve_row now by (is_active t u)) bs)
        + count_if (is_active t u) bs
      ≡ count_if (λ b. is_none b.resolved_at) bs
unfolding is_active
resolved_active now by t u [] = omega arith
resolved_active now by t u (b ∷ bs) = ground (arith, resolved_active now by t u bs)

-- What a resolution does: its scope has no unresolved row left; the unresolved rows of the scope have
-- its time and its author, and every other row of the table is as it was; and it returns the number
-- of rows that are unresolved no more.
pub resolve-scope :
    (now : ℕ) (t : Trigger) (by : Text) (u : Option ℕ) (db : Db)
    → let (result, db') = resolve now t by u db in
      (find_active t u db' ≡ none)
      × (Resolves now by t u db.breakers db'.breakers
          × ((n : ℕ) × ((result ≡ ok n) × (count_active db' + n ≡ count_active db))))
unfolding resolve count_active find_active
resolve-scope now t by u db = (
  newest-none (is_active t u) _ (resolved_none now by t u db.breakers),
  (
    resolve_row-Resolves now by t u db.breakers,
    (count_if (is_active t u) db.breakers, (refl, resolved_active now by t u db.breakers)),
  ),
)
