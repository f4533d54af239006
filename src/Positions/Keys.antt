-- ===== src/Positions/Keys.antt =====
-- Keys as data: a row that holds two keys shows that they are the same.
use etfpulse.Base.{ℕ, Bool, true, ◌≡◌, refl, Option, none, some, text_eq→eq, text_eq_refl, arith}
use etfpulse.Models.{Venue, venue_eq, is_open, Position}
use etfpulse.Positions.{Key, holds, option_eq, bool_eq}

pub option_eq→eq : (a b : Option ℕ) → option_eq a b ≡ true → a ≡ b
option_eq→eq none none h = refl
option_eq→eq none (some b) h = ground arith
option_eq→eq (some a) none h = ground arith
option_eq→eq (some a) (some b) h = ground arith

pub option_eq_refl : (a : Option ℕ) → option_eq a a ≡ true
option_eq_refl none = refl
option_eq_refl (some a) = ground arith

pub venue_eq→eq : (a b : Venue) → venue_eq a b ≡ true → a ≡ b
venue_eq→eq a b h = ground arith

pub venue_eq_refl : (a : Venue) → venue_eq a a ≡ true
venue_eq_refl a = ground arith

pub bool_eq→eq : (a b : Bool) → bool_eq a b ≡ true → a ≡ b
bool_eq→eq a b h = ground arith

pub bool_eq_refl : (a : Bool) → bool_eq a a ≡ true
bool_eq_refl a = ground arith

-- What a key test says of the row.
pub record Holds (k : Key) (p : Position) : Type 0 where
  pub user : p.user_id ≡ k.user_id
  pub venue : p.venue ≡ k.venue
  pub asset : p.asset ≡ k.asset
  pub is_open_row : is_open p.status ≡ true
  pub paper : p.paper_trade ≡ k.paper_trade

pub holds_sound : (k : Key) (p : Position) → holds k p ≡ true → Holds k p
unfolding holds
holds_sound k p h = ground (
  arith,
  option_eq→eq p.user_id k.user_id,
  venue_eq→eq p.venue k.venue,
  text_eq→eq p.asset k.asset,
  bool_eq→eq p.paper_trade k.paper_trade,
)

-- Two keys of one row are one key.
pub holds_unique : (k j : Key) (p : Position) → holds k p ≡ true → holds j p ≡ true → k ≡ j
holds_unique k j p h g = ground (arith, holds_sound k p h, holds_sound j p g)

pub holds_complete : (k : Key) (p : Position) → Holds k p → holds k p ≡ true
unfolding holds
holds_complete k p h = ground (
  arith,
  option_eq_refl k.user_id,
  venue_eq_refl k.venue,
  text_eq_refl k.asset,
  bool_eq_refl k.paper_trade,
)
