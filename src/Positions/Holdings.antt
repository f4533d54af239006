-- ===== src/Positions/Holdings.antt =====
-- A fill moves the holding of its key as the book says, and no other.
use mathlib.Core.List.{append-nil}
use mathlib.Core.Bool.{false≢true}
use etfpulse.Base.{
  ℕ, ◌+◌, ◌-◌, ◌≡◌, ◌≢◌, refl, sym, ap, ◌∙◌, true, false, ◌==◌, none, some, [], ◌∷◌, ◌++◌, select,
  inl, inr, Bool-cases, arith, min, leb, if◌then◌else◌,
}
use etfpulse.Base.Int.{ℤ}
use etfpulse.Decimal.{Decimal, context, add, sub}
use etfpulse.Models.{Order, Position, PositionSide, Db, save_position, insert_position}
use etfpulse.Positions.{Key, holds, order_key}
use etfpulse.Positions.Book.{Holding, holding, first_holding}
use etfpulse.Positions.Spot.{opened, extended, close_if_empty, shrunk}
use etfpulse.Positions.Keys.{holds_sound, holds_complete, holds_unique}
use etfpulse.Positions.OneOpen.{find_selected}
use etfpulse.Positions.Rows.{select-put, select-put_other, select-append_one}
use etfpulse.Positions.Apart.{keeps_keys, PositionsApart}
use etfpulse.Positions.Cases.{SameColumns}

-- A row that took the place of the one that was found: its key's holding is its own, while OPEN.
pub holding-save :
    (k : Key) (e new : Position) (db : Db)
    → PositionsApart db
    → select (holds k) db.positions ≡ e ∷ []
    → new.id ≡ e.id
    → holding k (save_position new db).1 ≡ first_holding (if holds k new then new ∷ [] else [])
unfolding save_position
holding-save k e new db a one same =
    ap first_holding (select-put (holds k) e new db.positions same a.distinct one)

not_held : (k j : Key) (p : Position) → holds k p ≡ true → k ≢ j → holds j p ≡ false
not_held k j p h ne = elim (Bool-cases (holds j p)) [
  | inl both ↦ absurd (ne (holds_unique k j p h both))
  | inr e ↦ e
]

-- The other keys keep theirs, when a row that keeps its key columns is written back.
pub holding-save_other :
    (k j : Key) (e new : Position) (db : Db)
    → PositionsApart db
    → select (holds k) db.positions ≡ e ∷ []
    → SameColumns new e
    → k ≢ j
    → holding j (save_position new db).1 ≡ holding j db
unfolding save_position
holding-save_other k j e new db a one (i, u, v, t, p) ne =
    let (found, passes) = find_selected (holds k) e db.positions a.distinct one in
    ap first_holding (
      select-put_other (holds j) e new db.positions i a.distinct found (not_held k j e passes ne) (
        elsewhere j e new (keeps_keys e new j u v t p (holds_sound k e passes).is_open_row)
          (not_held k j e passes ne)))
  where
    elsewhere :
        (j : Key) (e new : Position)
        → (holds j new ≡ true → holds j e ≡ true)
        → holds j e ≡ false
        → holds j new ≡ false
    elsewhere j e new keeps old = elim (Bool-cases (holds j new)) [
      | inl h ↦ absurd (false≢true (sym old ∙ keeps h))
      | inr e ↦ e
    ]

holding-insert :
    (k : Key) (new : Position) (db : Db)
    → holding k (insert_position new db).1
      ≡ first_holding (
          select (holds k) db.positions
          ++ (if holds k (record new { id = db.next_position_id })
              then record new { id = db.next_position_id } ∷ []
              else []))
unfolding insert_position
holding-insert k new db =
    ap first_holding
      (select-append_one (holds k) (record new { id = db.next_position_id }) db.positions)

-- The holding of a reduced row: none once its size is 0.
holding_closed :
    (k : Key) (now : ℕ) (fill_price : Decimal) (p : Position)
    → holds k p ≡ true
    → let q = close_if_empty now fill_price p in
      first_holding (if holds k q then q ∷ [] else [])
      ≡ (if p.size == 0 then none else some (p.side, p.size))
unfolding close_if_empty holds
holding_closed k now fill_price p h = ground arith

-- A row keeps its key when its key columns and its status stay.
still_holds :
    (k : Key) (p q : Position)
    → q.user_id ≡ p.user_id
    → q.venue ≡ p.venue
    → q.asset ≡ p.asset
    → q.status ≡ p.status
    → q.paper_trade ≡ p.paper_trade
    → holds k p ≡ true
    → holds k q ≡ true
unfolding holds
still_holds k p q u v a s t h = ground arith

-- What is left of a holding that is reduced.
left_over :
    (side : PositionSide) (held size : ℕ)
    → sub held (min size held) ≡ held - min size held
    → if◌then◌else◌ {A = Holding}
        (sub held (min size held) == 0)
        none
        (some (side, sub held (min size held)))
      ≡ (if leb held size then none else some (side, held - size))
left_over side held size e = rw e (ground arith)

-- The reduced row's holding is the book's.
holding_reduced :
    (k : Key) (now : ℕ) (p : Position) (per_unit : ℤ) (fill_price fill_size : Decimal)
    → holds k p ≡ true
    → context (p.size - min fill_size p.size) ≡ p.size - min fill_size p.size
    → let q = close_if_empty now fill_price (shrunk p per_unit fill_size) in
      first_holding (if holds k q then q ∷ [] else [])
      ≡ (if leb p.size fill_size then none else some (p.side, p.size - fill_size))
unfolding shrunk sub
holding_reduced k now p per_unit fill_price fill_size h e =
    holding_closed k now fill_price (shrunk p per_unit fill_size)
      (still_holds k p (shrunk p per_unit fill_size) refl refl refl refl refl h)
    ∙ left_over p.side p.size fill_size e

-- An inserted row adds nothing to the keys that it does not hold.
pub holding-insert_other :
    (k j : Key) (new : Position) (db : Db)
    → holds k (record new { id = db.next_position_id }) ≡ true
    → k ≢ j
    → holding j (insert_position new db).1 ≡ holding j db
holding-insert_other k j new db h ne =
    holding-insert j new db
    ∙ rw (not_held k j (record new { id = db.next_position_id }) h ne)
        (ap first_holding (append-nil _))

close_if_empty_id :
    (now : ℕ) (fill_price : Decimal) (p : Position) → (close_if_empty now fill_price p).id ≡ p.id
unfolding close_if_empty
close_if_empty_id now fill_price p = ground arith

shrunk-id : (p : Position) (u : ℤ) (fill_size : Decimal) → (shrunk p u fill_size).id ≡ p.id
unfolding shrunk
shrunk-id p u fill_size = refl

module _ (now : ℕ) (o : Order) (fill_price fill_size : Decimal) (db : Db)
    (a : PositionsApart db) where
  pub new_holds :
      (s : PositionSide)
      → holds
          (order_key o)
          (record (opened o fill_price fill_size) { side = s; id = db.next_position_id })
        ≡ true
  unfolding opened
  new_holds s =
      holds_complete (order_key o)
        (record (opened o fill_price fill_size) { side = s; id = db.next_position_id })
        (record { user = refl; venue = refl; asset = refl; is_open_row = refl; paper = refl })

  -- The holding of a key that had none, after the insert.
  pub holding-opened :
      (s : PositionSide)
      → select (holds (order_key o)) db.positions ≡ []
      → holding
          (order_key o)
          (insert_position (record (opened o fill_price fill_size) { side = s }) db).1
        ≡ some (s, fill_size)
  unfolding opened
  holding-opened s e =
      holding-insert (order_key o) (record (opened o fill_price fill_size) { side = s }) db
      ∙ rw (e, new_holds s) refl

  -- The holding of a row that is extended.
  pub holding-extended :
      (p : Position)
      → select (holds (order_key o)) db.positions ≡ p ∷ []
      → context (p.size + fill_size) ≡ p.size + fill_size
      → holding (order_key o) (save_position (extended p fill_price fill_size) db).1
        ≡ some (p.side, p.size + fill_size)
  unfolding extended add
  holding-extended p e fits =
      holding-save (order_key o) p (extended p fill_price fill_size) db a e refl
      ∙ rw
          (still_holds (order_key o) p (extended p fill_price fill_size) refl refl refl refl refl
            (find_selected (holds (order_key o)) p db.positions a.distinct e).1)
          (rw fits refl)

  -- The holding of a row that is reduced.
  pub holding-shrunk :
      (p : Position) (per_unit : ℤ)
      → select (holds (order_key o)) db.positions ≡ p ∷ []
      → context (p.size - min fill_size p.size) ≡ p.size - min fill_size p.size
      → holding
          (order_key o)
          (save_position (close_if_empty now fill_price (shrunk p per_unit fill_size)) db).1
        ≡ (if leb p.size fill_size then none else some (p.side, p.size - fill_size))
  holding-shrunk p per_unit e fits =
      holding-save (order_key o) p (close_if_empty now fill_price (shrunk p per_unit fill_size)) db
        a e (shrunk_id p per_unit)
      ∙ holding_reduced (order_key o) now p per_unit fill_price fill_size
          (find_selected (holds (order_key o)) p db.positions a.distinct e).1 fits
    where
      shrunk_id :
          (p : Position) (u : ℤ) → (close_if_empty now fill_price (shrunk p u fill_size)).id ≡ p.id
      shrunk_id p u =
          close_if_empty_id now fill_price (shrunk p u fill_size) ∙ shrunk-id p u fill_size
