-- ===== src/Golib/Base64.antt =====
-- base64.StdEncoding: `EncodeToString` and `DecodeString`.
pub mod Laws
use spectre_relay.Prelude.{
  ℕ, ◌+◌, ◌-◌, ◌*◌, ◌/◌, ◌%◌, Bool, true, false, ◌&&◌, ◌||◌, not, Option, none, some, List, [], ◌∷◌,
  if◌then◌else◌, ◌==◌, leb, ltb, Text, Bytes, keep_if,
}

-- The character of a six-bit number, and back.
unfoldable pub char_of : ℕ → ℕ
char_of n =
    if ltb n 26
    then n + b'A'
    else if ltb n 52
    then n - 26 + b'a'
    else if ltb n 62
    then n - 52 + b'0'
    else if n == 62
    then b'+'
    else b'/'

unfoldable pub value_of : ℕ → Option ℕ
value_of c =
    if leb b'A' c && leb c b'Z'
    then some (c - b'A')
    else if leb b'a' c && leb c b'z'
    then some (c - b'a' + 26)
    else if leb b'0' c && leb c b'9'
    then some (c - b'0' + 52)
    else if c == b'+'
    then some 62
    else if c == b'/'
    then some 63
    else none

unfoldable pub encode : Bytes → Text
unfolding char_of
encode [] = []
encode (a ∷ []) = char_of (a / 4) ∷ char_of (a % 4 * 16) ∷ b'=' ∷ b'=' ∷ []
encode (a ∷ b ∷ []) =
    char_of (a / 4) ∷ char_of (a % 4 * 16 + b / 16) ∷ char_of (b % 16 * 4) ∷ b'=' ∷ []
encode (a ∷ b ∷ c ∷ s) =
    char_of (a / 4)
    ∷ char_of (a % 4 * 16 + b / 16)
    ∷ char_of (b % 16 * 4 + c / 64)
    ∷ char_of (c % 64)
    ∷ encode s

-- The bytes written before the first error, and whether there was none.
pub record Decoded : Type 0 where
  pub bytes : Bytes
  pub valid : Bool

abbrev failed : Decoded
failed = record { bytes = []; valid = false }

-- The last quantum of `x y = =` or `x y z =`: what stands behind it must be empty, and its bytes
-- are written before that is tested.
abbrev pub ends : Text → Bytes → Decoded
ends [] bs = record { bytes = bs; valid = true }
ends (c ∷ s) bs = record { bytes = bs; valid = false }

abbrev pub put_front : Bytes → Decoded → Decoded
put_front [] d = d
put_front (b ∷ bs) d =
    let rest = put_front bs d in record { bytes = b ∷ rest.bytes; valid = rest.valid }

-- A quantum from two values and its last two characters.
abbrev finish : ℕ → ℕ → ℕ → ℕ → Text → (Bytes → Decoded) → Decoded
finish x y r t s continue =
    if r == b'='
    then if t == b'=' then ends s ((x * 4 + y / 16) ∷ []) else failed
    else elim (value_of r) [
      | none ↦ failed
      | some z ↦
          if t == b'='
          then ends s ((x * 4 + y / 16) ∷ (y % 16 * 16 + z / 4) ∷ [])
          else elim (value_of t) [
            | none ↦ failed
            | some w ↦ continue ((x * 4 + y / 16) ∷ (y % 16 * 16 + z / 4) ∷ (z % 4 * 64 + w) ∷ [])
          ]
    ]

-- Quanta of four characters, with line breaks already taken out.
unfoldable pub decode_quanta : Text → Decoded
unfolding value_of
decode_quanta [] = record { bytes = []; valid = true }
decode_quanta (a ∷ b ∷ r ∷ t ∷ s) =
    let rest = decode_quanta s in
    elim (value_of a) [
      | none ↦ failed
      | some x ↦ elim (value_of b) [
        | none ↦ failed
        | some y ↦ finish x y r t s (λ bs. put_front bs rest)
      ]
    ]
decode_quanta _ = failed

abbrev pub is_text : ℕ → Bool
is_text c = not (c == 10) && not (c == 13)

-- Line feeds and carriage returns are skipped wherever they stand.
unfoldable pub decode : Text → Decoded
unfolding decode_quanta
decode s = decode_quanta (keep_if is_text s)
