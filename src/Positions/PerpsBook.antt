-- ===== src/Positions/PerpsBook.antt =====
-- `perps_apply_fill` refines the book.
use etfpulse.Base.{
  subst, ◌<◌, ℕ, ◌≡◌, ◌≢◌, refl, sym, ap, ◌∙◌, none, some, [], ◌∷◌, select, inl, inr, Bool-cases,
}
use etfpulse.Decimal.{Decimal}
use etfpulse.Models.{
  Order, Position, PositionSide, position_side_eq, Db, save_position, insert_position,
}
use etfpulse.Positions.{Key, holds, order_key}
use etfpulse.Positions.Book.{holding, first_holding, book_fill, FitsContext}
use etfpulse.Positions.Spot.{opened, extended}
use etfpulse.Positions.Perps.{
  perps_apply_fill, guarded_fill, dispatch_fill, perps_open, perps_extend, perps_reduce_or_close,
  perps_reduced, pnl_per_unit, nothing_to_reduce, fill_side,
}
use etfpulse.Positions.Apart.{PositionsApart}
use etfpulse.Positions.Cases.{not-IsRefused, same_side, perps_cases, reduced_keeps}
use etfpulse.Positions.Holdings.{
  holding-save_other, holding-insert_other, new_holds, holding-opened, holding-extended,
  holding-shrunk,
}

module _ (now : ℕ) (o : Order) (fill_price fill_size : Decimal) (db : Db)
    (a : PositionsApart db) where
  perps_holding_empty :
      (s : PositionSide)
      → select (holds (order_key o)) db.positions ≡ []
      → holding (order_key o) (guarded_fill now o fill_price fill_size none s db).1
        ≡ book_fill o.reduce_only s fill_size (holding (order_key o) db)
  unfolding guarded_fill dispatch_fill perps_open nothing_to_reduce insert_position
  perps_holding_empty s e = elim (Bool-cases o.reduce_only) [
    | inl r ↦ rw (r, guarded_fill) (rw e refl)
    | inr r ↦
        simp (r, guarded_fill) (holding-opened now o fill_price fill_size db a s e ∙ rw e refl)
  ]

  perps_holding_one :
      (s : PositionSide) (p : Position)
      → select (holds (order_key o)) db.positions ≡ p ∷ []
      → FitsContext (some (p.side, p.size)) fill_size
      → holding (order_key o) (guarded_fill now o fill_price fill_size (some p) s db).1
        ≡ book_fill o.reduce_only s fill_size (some (p.side, p.size))
  unfolding guarded_fill dispatch_fill nothing_to_reduce perps_extend perps_reduce_or_close
      perps_reduced save_position
  perps_holding_one s p e fits = elim (Bool-cases (position_side_eq p.side s)) [
    | inl same ↦ elim (Bool-cases o.reduce_only) [
      | inl r ↦ rw (r, same, guarded_fill) (rw e refl)
      | inr r ↦
          rw (r, same, guarded_fill, dispatch_fill)
            (holding-extended now o fill_price fill_size db a p e fits.0)
    ]
    | inr other ↦ elim (Bool-cases o.reduce_only) [
      | inl r ↦
          rw (r, other, guarded_fill, dispatch_fill)
            (holding-shrunk now o fill_price fill_size db a p _ e fits.1)
      | inr r ↦
          rw (r, other, guarded_fill, dispatch_fill)
            (holding-shrunk now o fill_price fill_size db a p _ e fits.1)
    ]
  ]

  -- A perps fill with a positive size and price moves the holding of the order's key as the book says,
  -- on a table whose rows are apart and while the sizes fit the context's 28 digits.
  pub perps_apply_fill-holding :
      (side : PositionSide)
      → fill_side o.side ≡ some side
      → 0 < fill_size
      → 0 < fill_price
      → FitsContext (holding (order_key o) db) fill_size
      → holding (order_key o) (perps_apply_fill now o fill_price fill_size db).1
        ≡ book_fill o.reduce_only side fill_size (holding (order_key o) db)
  perps_apply_fill-holding side sided size price fits =
      perps_cases
        (λ t.
          holding (order_key o) t.1
          ≡ book_fill o.reduce_only side fill_size (holding (order_key o) db))
        now o fill_price fill_size db a
        (λ why. absurd (not-IsRefused o fill_price fill_size side sided size price why))
        (λ s k e. rw (same_side o side s sided k) (perps_holding_empty s e))
        (λ s p k e.
          let seen : holding (order_key o) db ≡ some (p.side, p.size) = ap first_holding e in
          rw (same_side o side s sided k) (
            perps_holding_one s p e (subst (λ h. FitsContext h fill_size) seen fits)
            ∙ ap (book_fill o.reduce_only s fill_size) (sym seen)))

  perps_others_empty :
      (j : Key) (s : PositionSide)
      → order_key o ≢ j
      → select (holds (order_key o)) db.positions ≡ []
      → holding j (guarded_fill now o fill_price fill_size none s db).1 ≡ holding j db
  unfolding guarded_fill dispatch_fill perps_open nothing_to_reduce insert_position
  perps_others_empty j s ne e = elim (Bool-cases o.reduce_only) [
    | inl r ↦ simp (r, guarded_fill)
    | inr r ↦
        simp (r, guarded_fill)
          (holding-insert_other (order_key o) j
            (record (opened o fill_price fill_size) { side = s }) db
            (new_holds now o fill_price fill_size db a s) ne)
  ]

  perps_others_one :
      (j : Key) (s : PositionSide) (p : Position)
      → order_key o ≢ j
      → select (holds (order_key o)) db.positions ≡ p ∷ []
      → holding j (guarded_fill now o fill_price fill_size (some p) s db).1 ≡ holding j db
  unfolding guarded_fill dispatch_fill nothing_to_reduce perps_extend perps_reduce_or_close
      perps_reduced save_position extended
  perps_others_one j s p ne e = elim (Bool-cases (position_side_eq p.side s)) [
    | inl same ↦ elim (Bool-cases o.reduce_only) [
      | inl r ↦ rw (r, same, guarded_fill) refl
      | inr r ↦
          rw (r, same, guarded_fill, dispatch_fill)
            (holding-save_other (order_key o) j p (extended p fill_price fill_size) db a e
              (refl, refl, refl, refl, refl) ne)
    ]
    | inr other ↦ elim (Bool-cases o.reduce_only) [
      | inl r ↦ rw (r, other, guarded_fill, dispatch_fill) (shrunk_elsewhere p e)
      | inr r ↦ rw (r, other, guarded_fill, dispatch_fill) (shrunk_elsewhere p e)
    ]
  ]
    where
      shrunk_elsewhere :
          (p : Position)
          → select (holds (order_key o)) db.positions ≡ p ∷ []
          → holding j (save_position (perps_reduced now p fill_price fill_size) db).1 ≡ holding j db
      shrunk_elsewhere p e =
          holding-save_other (order_key o) j p (perps_reduced now p fill_price fill_size) db a e
            (reduced_keeps now p (pnl_per_unit p.side p.entry_price fill_price) fill_price
              fill_size)
            ne

  -- A perps fill leaves the holding of every key but the order's, on a table whose rows are apart.
  pub perps_apply_fill_others :
      (j : Key)
      → order_key o ≢ j
      → holding j (perps_apply_fill now o fill_price fill_size db).1 ≡ holding j db
  perps_apply_fill_others j ne =
      perps_cases (λ t. holding j t.1 ≡ holding j db) now o fill_price fill_size db a (λ _. refl)
        (λ s k e. perps_others_empty j s ne e) (λ s p k e. perps_others_one j s p ne e)
