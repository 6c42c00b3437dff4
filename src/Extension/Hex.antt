-- ===== src/Extension/Hex.antt =====
-- Go's encoding/hex, as the TCP server uses it
-- (pkg/protocol/extension/protocol/tcpserver/tcpserver.go).
use zingthings.Base.{
  ℕ, ◌+◌, ◌-◌, ◌*◌, ◌/◌, ◌%◌, ◌<◌, ◌≡◌, refl, [], ◌∷◌, arith, All, length, ltb, if◌then◌else◌,
}
use zingthings.Base.Text.{Text}

-- The digits of "0123456789abcdef".
unfoldable pub hex_digit : ℕ → ℕ
hex_digit d = if ltb d 10 then b'0' + d else b'a' + (d - 10)

-- hex.EncodeToString
unfoldable pub encode_to_string : Text → Text
unfolding hex_digit
encode_to_string [] = []
encode_to_string (b ∷ t) = hex_digit (b / 16) ∷ hex_digit (b % 16) ∷ encode_to_string t

-- The value of a digit, and the reading of pairs of digits as bytes.
abbrev pub digit_value : ℕ → ℕ
digit_value c = if ltb c b'a' then c - b'0' else c - b'a' + 10

unfoldable pub read_pairs : Text → Text
read_pairs [] = []
read_pairs (c ∷ []) = []
read_pairs (c ∷ d ∷ t) = (digit_value c * 16 + digit_value d) ∷ read_pairs t

abbrev pub IsByte : ℕ → Type 0
IsByte b = b < 256

digit_value-hex_digit : (d : ℕ) → d < 16 → digit_value (hex_digit d) ≡ d
unfolding hex_digit
digit_value-hex_digit d h = ground arith

pair :
    (b : ℕ)
    → IsByte b
    → digit_value (hex_digit (b / 16)) * 16 + digit_value (hex_digit (b % 16)) ≡ b
pair b h =
    rw (digit_value-hex_digit (b / 16) (omega arith), digit_value-hex_digit (b % 16) (omega arith))
      (omega arith)

-- The bytes are read back from their hexadecimal digits, two digits for each.
pub read_pairs-encode_to_string :
    (t : Text)
    → All IsByte t
    → (read_pairs (encode_to_string t) ≡ t) × (length (encode_to_string t) ≡ 2 * length t)
unfolding read_pairs encode_to_string
read_pairs-encode_to_string [] h = (refl, refl)
read_pairs-encode_to_string (b ∷ t) h =
    let (same, long) = read_pairs-encode_to_string t h.1 in
    (rw (pair b h.0, same), omega (arith, long))
