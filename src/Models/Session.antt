-- ===== src/Models/Session.antt =====
-- A database session as state, and the exceptions that end a call. The state comes back after a
-- raise too: what the session holds stays there until its owner rolls back.
use etfpulse.Base.{
  ◌≡◌, ap, ℕ, suc, Bool, Option, none, some, List, [], ◌∷◌, ◌++◌, Text, find, ◌==◌, if◌then◌else◌,
}
use etfpulse.Models.Enums.{Venue}
use etfpulse.Models.Rows.{Order, Position, User, CircuitBreaker, SodexSymbol}

-- A signed write that went to the venue: where, whether it cancels, and the four arguments.
pub record Sent : Type 0 where
  pub venue : Venue
  pub is_cancel : Bool
  pub body : Text
  pub signature : Text
  pub nonce : ℕ
  pub api_key_name : Text

pub record Db : Type 0 where
  pub users : List User
  pub orders : List Order
  pub positions : List Position
  pub breakers : List CircuitBreaker
  pub symbols : List SodexSymbol
  pub next_order_id : ℕ
  pub next_position_id : ℕ
  pub next_breaker_id : ℕ
  pub sent : List Sent

pub data Constraint : Type 0 where
  client_order_id_unique order_check : Constraint

pub data Exn : Type 0 where
  value_error key_error multiple_results no_result json_error : Exn
  symbol_not_resolved : Venue → Text → Exn
  integrity_error : Constraint → Exn
  client_error : ℕ → Exn

pub data Result {ℓ} (A : Type ℓ) : Type ℓ where
  ok : A → Result A
  raised : Exn → Result A

abbrev pub Action {ℓ} : Type ℓ → Type ℓ
Action A = Db → Result A × Db

module _ {ℓ} {A : Type ℓ} where
  abbrev pub pure : A → Action A
  pure a db = (ok a, db)

  abbrev pub raise : Exn → Action A
  raise e db = (raised e, db)

  abbrev pub gets : (Db → A) → Action A
  gets f db = (ok (f db), db)

  abbrev pub or_raise : Option A → Exn → Action A
  or_raise none e = raise e
  or_raise (some a) e = pure a

infixl 5 ◌>>=◌ ◌>>◌
abbrev pub ◌>>=◌ {ℓ κ} : {A : Type ℓ} {B : Type κ} → Action A → (A → Action B) → Action B
◌>>=◌ m f db = let (r, db') = m db in elim r [ ok a ↦ f a db' | raised e ↦ raise e db' ]

abbrev pub ◌>>◌ {ℓ κ} : {A : Type ℓ} {B : Type κ} → Action A → Action B → Action B
m >> k = m >>= λ _. k

-- A bind whose first part is known to return, or to raise.
pub >>=-ok {ℓ κ} :
    {A : Type ℓ} {B : Type κ} (m : Action A) (f : A → Action B) (a : A) (db db' : Db)
    → m db ≡ (ok a, db')
    → (m >>= f) db ≡ f a db'
>>=-ok m f a db db' e = ap (λ t. elim t.0 [ ok x ↦ f x t.1 | raised x ↦ raise x t.1 ]) e

pub >>=-raised {ℓ κ} :
    {A : Type ℓ} {B : Type κ} (m : Action A) (f : A → Action B) (x : Exn) (db db' : Db)
    → m db ≡ (raised x, db')
    → (m >>= f) db ≡ (raised x, db')
>>=-raised m f x db db' e = ap (λ t. elim t.0 [ ok a ↦ f a t.1 | raised y ↦ raise y t.1 ]) e

abbrev pub raise_if : Bool → Exn → Action (Unit {0})
raise_if c e db = (if c then raised e else ok tt, db)

abbrev pub modify : (Db → Db) → Action (Unit {0})
modify f db = (ok tt, f db)

-- `session.get(Order, id)`, and the other primary-key reads.
abbrev pub find_order : ℕ → Db → Option Order
find_order id db = find (λ o. o.id == id) db.orders

abbrev pub find_user : ℕ → Db → Option User
find_user id db = find (λ u. u.id == id) db.users

-- Writing a changed row back: every row of that id is replaced.
abbrev pub put_order : Order → List Order → List Order
put_order o [] = []
put_order o (x ∷ xs) = (if x.id == o.id then o else x) ∷ put_order o xs

abbrev pub put_position : Position → List Position → List Position
put_position p [] = []
put_position p (x ∷ xs) = (if x.id == p.id then p else x) ∷ put_position p xs

unfoldable pub save_order : Order → Action (Unit {0})
save_order o db = (ok tt, record db { orders = put_order o db.orders })

unfoldable pub save_position : Position → Action (Unit {0})
save_position p db = (ok tt, record db { positions = put_position p db.positions })

-- An insert takes the next id of the table's sequence.
unfoldable pub insert_position : Position → Action Position
insert_position p db =
    let row = record p { id = db.next_position_id } in
    (
      ok row,
      record db {
        positions = db.positions ++ row ∷ [];
        next_position_id = suc db.next_position_id;
      },
    )
