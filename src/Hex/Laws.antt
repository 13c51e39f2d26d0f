-- ===== src/Hex/Laws.antt =====
-- Hex texts decode to the bytes that they were made from.
use axel_sol.Prelude.{
  ℕ, ◌/◌, ◌%◌, ◌<◌, ◌≡◌, refl, arith, some, List, [], ◌∷◌, All, lower, lower_char,
}
use axel_sol.Hex.{to_hex, from_hex, buffer_from_hex, hex_char, digit_value, pair_value}

-- Values that fit a byte.
abbrev pub IsBytes : List ℕ → Type 0
IsBytes bytes = All (λ b. b < 256) bytes

digit-hex_char : (v : ℕ) → v < 16 → digit_value (hex_char v) ≡ some v
digit-hex_char v h = ground arith

pair-hex_char : (b : ℕ) → b < 256 → pair_value (hex_char (b / 16)) (hex_char (b % 16)) ≡ some b
pair-hex_char b h =
    ground (arith, digit-hex_char (b / 16) (omega arith), digit-hex_char (b % 16) (omega arith))

-- Every list of bytes is decoded from its hex text, by the frontend's reader and by the backend's.
pub from_hex-to_hex :
    (bytes : List ℕ)
    → IsBytes bytes
    → (from_hex (to_hex bytes) ≡ some bytes) × (buffer_from_hex (to_hex bytes) ≡ bytes)
unfolding from_hex to_hex buffer_from_hex
from_hex-to_hex [] h = (refl, refl)
from_hex-to_hex (b ∷ bytes) (h, hs) =
    let (e, e') = from_hex-to_hex bytes hs in
    (rw (pair-hex_char b h, e), rw (pair-hex_char b h, e'))

lower-hex_char : (v : ℕ) → v < 16 → lower_char (hex_char v) ≡ hex_char v
lower-hex_char v h = ground arith

pub lower-to_hex : (bytes : List ℕ) → IsBytes bytes → lower (to_hex bytes) ≡ to_hex bytes
unfolding lower to_hex
lower-to_hex [] h = refl
lower-to_hex (b ∷ bytes) (h, hs) = cc (
  lower-hex_char (b / 16) (omega arith),
  lower-hex_char (b % 16) (omega arith),
  lower-to_hex bytes hs,
)
