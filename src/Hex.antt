-- ===== src/Hex.antt =====
-- Hex texts: `toHex` and `fromHex` of frontend/src/lib/verify/sha256.ts, and the decoding of
-- Node's `Buffer.from(text, 'hex')`, which the backend uses.
pub mod Laws
use axel_sol.Prelude.{
  ℕ, zero, suc, ◌+◌, ◌-◌, ◌*◌, ◌/◌, ◌%◌, Bool, true, false, ◌&&◌, ◌||◌, Option, none, some, List,
  [], ◌∷◌, leb, ltb, if◌then◌else◌, Text,
}

abbrev pub hex_char : ℕ → ℕ
hex_char v = if ltb v 10 then v + 48 else v + 87

unfoldable pub to_hex : List ℕ → Text
to_hex [] = []
to_hex (byte ∷ bytes) = hex_char (byte / 16) ∷ hex_char (byte % 16) ∷ to_hex bytes

-- The value of a hex digit of either case.
abbrev pub digit_value : ℕ → Option ℕ
digit_value c =
    if leb b'0' c && leb c b'9'
    then some (c - 48)
    else if leb b'a' c && leb c b'f'
    then some (c - 87)
    else if leb b'A' c && leb c b'F'
    then some (c - 55)
    else none

abbrev pub pair_value : ℕ → ℕ → Option ℕ
pair_value a b = elim (digit_value a) [
  | none ↦ none
  | some x ↦ elim (digit_value b) [ none ↦ none | some y ↦ some (x * 16 + y) ]
]

abbrev prepend : Option ℕ → Option (List ℕ) → Option (List ℕ)
prepend none rest = none
prepend (some v) none = none
prepend (some v) (some rest) = some (v ∷ rest)

-- `none` where the code throws: the text is not pairs of hex digits.
unfoldable pub from_hex : Text → Option (List ℕ)
from_hex [] = some []
from_hex (a ∷ []) = none
from_hex (a ∷ b ∷ rest) = prepend (pair_value a b) (from_hex rest)

abbrev keep : Option ℕ → List ℕ → List ℕ
keep none rest = []
keep (some v) rest = v ∷ rest

-- Decoding stops at the first pair that is not hex.
unfoldable pub buffer_from_hex : Text → List ℕ
buffer_from_hex [] = []
buffer_from_hex (a ∷ []) = []
buffer_from_hex (a ∷ b ∷ rest) = keep (pair_value a b) (buffer_from_hex rest)

-- A 32-bit number as four bytes, the least significant first.
abbrev pub u32_le : ℕ → List ℕ
u32_le n = (n % 256) ∷ (n / 256 % 256) ∷ (n / 65536 % 256) ∷ (n / 16777216 % 256) ∷ []
