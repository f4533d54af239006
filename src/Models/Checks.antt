-- ===== src/Models/Checks.antt =====
-- The CHECK constraints of `Order.__table_args__` and the two formats that they match.
use etfpulse.Base.{
  ℕ, Bool, true, false, not, ◌&&◌, ◌||◌, Option, none, some, ◌∷◌, Text, leb, ltb, ◌==◌, every,
  length, is_none,
}
use etfpulse.Models.Enums.{Venue, unknown_venue}
use etfpulse.Models.Rows.{Order}

-- `[0-9a-f]`
unfoldable pub is_hex : ℕ → Bool
is_hex c = leb b'0' c && leb c b'9' || leb b'a' c && leb c b'f'

-- `^0x01[0-9a-f]{130}$`, of the whole text: also `_EIP712_SIGNATURE_RE.fullmatch`.
unfoldable pub is_signature : Text → Bool
unfolding is_hex
is_signature (a ∷ b ∷ c ∷ d ∷ rest) =
    a == b'0' && b == b'x' && c == b'0' && d == b'1' && length rest == 130 && every is_hex rest
is_signature _ = false

-- `^0x[0-9a-f]{64}$`
unfoldable pub is_payload_hash : Text → Bool
unfolding is_hex
is_payload_hash (a ∷ b ∷ rest) = a == b'0' && b == b'x' && length rest == 64 && every is_hex rest
is_payload_hash _ = false

-- `x IS NULL OR p x`
abbrev pub null_or {ℓ} : {A : Type ℓ} → (A → Bool) → Option A → Bool
null_or p none = true
null_or p (some a) = p a

abbrev pub is_known : Venue → Bool
is_known unknown_venue = false
is_known _ = true

abbrev bool_eq : Bool → Bool → Bool
bool_eq true b = b
bool_eq false b = not b

-- The CHECKs on the row that is signed to be placed.
unfoldable pub placing_checks : Order → Bool
placing_checks o =
    bool_eq (is_none o.nonce) (is_none o.nonce_expires_at)
    && (is_none o.eip712_signature || not (is_none o.eip712_payload))
    && null_or is_signature o.eip712_signature
    && null_or is_payload_hash o.eip712_payload_hash

-- The CHECKs on the columns of a cancel.
unfoldable pub cancel_checks : Order → Bool
cancel_checks o =
    bool_eq (is_none o.cancel_nonce) (is_none o.cancel_eip712_payload)
    && (is_none o.cancel_eip712_signature || not (is_none o.cancel_eip712_payload))
    && null_or is_signature o.cancel_eip712_signature
    && null_or is_payload_hash o.cancel_eip712_payload_hash

-- The CHECKs on the venue, the stop and the parent. Those on `status` and `stop_type` hold by their
-- types.
unfoldable pub row_checks : Order → Bool
row_checks o =
    is_known o.venue
    && null_or (λ p. ltb 0 p) o.stop_price
    && bool_eq (is_none o.stop_price) (is_none o.stop_type)
    && null_or (λ p. not (p == o.id)) o.parent_order_id

unfoldable pub order_checks : Order → Bool
order_checks o = row_checks o && placing_checks o && cancel_checks o
