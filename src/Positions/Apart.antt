-- ===== src/Positions/Apart.antt =====
-- The two ways in which a fill changes the table, and the three answers of its query, on a table
-- whose rows are apart.
use etfpulse.Base.{
  ℕ, suc, ◌≤◌, ◌≡◌, refl, ap, ◌∙◌, true, ◌⊎◌, inl, inr, List, [], ◌∷◌, ◌++◌, arith, select,
  count_if, length,
}
use etfpulse.Models.{Order, Position, put_position, is_open, Db}
use etfpulse.Positions.{Key, holds, order_key}
use etfpulse.Positions.Keys.{holds_sound}
use etfpulse.Positions.OneOpen.{
  Apart, put-Apart, append-Apart, find_selected, select_none, length-select,
}

abbrev pub PositionsApart : Db → Type 0
PositionsApart db = Apart db.next_position_id db.positions

-- A query by key finds no row, or one.
pub select_cases :
    (n : ℕ) (ps : List Position) (k : Key)
    → Apart n ps
    → (select (holds k) ps ≡ []) ⊎ ((e : Position) × (select (holds k) ps ≡ e ∷ []))
select_cases n ps k a = short (select (holds k) ps) (rw (length-select (holds k) ps) (a.one_open k))
  where
    short : (l : List Position) → length l ≤ 1 → (l ≡ []) ⊎ ((e : Position) × (l ≡ e ∷ []))
    short [] h = inl refl
    short (e ∷ []) h = inr (e, refl)
    short (e ∷ f ∷ l) h = absurd (omega arith)

-- A row with an order's key columns has no other key.
same_key :
    (o : Order) (new : Position) (k : Key)
    → new.user_id ≡ o.user_id
    → new.venue ≡ o.venue
    → new.asset ≡ o.asset
    → new.paper_trade ≡ o.paper_trade
    → holds k new ≡ true
    → k ≡ order_key o
same_key o new k u v a p h = ground (arith, holds_sound k new h)

pub insert-Apart :
    (n : ℕ) (ps : List Position) (o : Order) (new : Position)
    → Apart n ps
    → select (holds (order_key o)) ps ≡ []
    → new.id ≡ n
    → new.user_id ≡ o.user_id
    → new.venue ≡ o.venue
    → new.asset ≡ o.asset
    → new.paper_trade ≡ o.paper_trade
    → Apart (suc n) (ps ++ new ∷ [])
insert-Apart n ps o new a empty e u v t p =
    append-Apart n new ps a e
      λ k h. ap (λ j. count_if (holds j) ps) (same_key o new k u v t p h) ∙ select_none _ ps empty

-- A row that keeps its key columns holds the keys that it held.
pub keeps_keys :
    (e new : Position) (k : Key)
    → new.user_id ≡ e.user_id
    → new.venue ≡ e.venue
    → new.asset ≡ e.asset
    → new.paper_trade ≡ e.paper_trade
    → is_open e.status ≡ true
    → holds k new ≡ true
    → holds k e ≡ true
unfolding holds
keeps_keys e new k u v a p s h = ground arith

pub update-Apart :
    (n : ℕ) (ps : List Position) (j : Key) (e new : Position)
    → Apart n ps
    → select (holds j) ps ≡ e ∷ []
    → new.id ≡ e.id
    → new.user_id ≡ e.user_id
    → new.venue ≡ e.venue
    → new.asset ≡ e.asset
    → new.paper_trade ≡ e.paper_trade
    → Apart n (put_position new ps)
update-Apart n ps j e new a one i u v t p =
    let (found, passes) = find_selected (holds j) e ps a.distinct one in
    put-Apart n e new ps a i found
      λ k. keeps_keys e new k u v t p (holds_sound j e passes).is_open_row
