-- ===== src/Json.antt =====
-- encoding/json, as the relay uses it: a value of any shape, the syntax as a parameter, and the
-- rules by which `json.Unmarshal` stores a value into a Go variable. A type error is remembered,
-- and the rest of the value is still stored.
use spectre_relay.Prelude.{
  ℕ, ◌+◌, ◌≡◌, Bool, true, false, ◌&&◌, Option, none, some, [], ◌∷◌, if◌then◌else◌, ◌==◌, leb, ltb,
  Text, Bytes, Result, ok, Error,
}
use spectre_relay.Prelude.Int.{ℤ, pos}
use spectre_relay.Golib.Base64

-- What a number literal is to `ParseInt` and `ParseUint`, which read `-0` differently.
pub data Number : Type 0 where
  int64 : ℤ → Number
  minus_zero : Number
  not_int64 : Number

mutual
  pub data Json : Type 0 where
    null : Json
    bool : Bool → Json
    number : Number → Json
    string : Text → Json
    array : Items → Json
    object : Members → Json

  pub data Items : Type 0 where
    end : Items
    item : Json → Items → Items

  pub data Members : Type 0 where
    nil : Members
    member : Text → Json → Members → Members

-- The syntax: `unmarshal` finds the value that a text denotes, or that it is malformed; `marshal`
-- prints one. Text that is not UTF-8 is not printed faithfully, hence the predicate.
pub record Syntax : Type 1 where
  pub unmarshal : Bytes → Option Json
  pub marshal : Json → Result Error Bytes
  pub IsPrintable : Json → Type 0
  pub unmarshal-marshal :
      (v : Json) → IsPrintable v → (b : Bytes) × (marshal v ≡ ok b) × (unmarshal b ≡ some v)

-- The variable after a store, and whether there was no type error.
pub record Stored {ℓ} (A : Type ℓ) : Type ℓ where
  pub value : A
  pub valid : Bool

abbrev pub stored {ℓ} : {A : Type ℓ} → A → Stored A
stored a = record { value = a; valid = true }

abbrev pub mistyped {ℓ} : {A : Type ℓ} → A → Stored A
mistyped a = record { value = a; valid = false }

-- A store into a field of a struct.
abbrev pub in_field {ℓ κ} : {A : Type ℓ} {S : Type κ} → (A → S) → Stored A → Stored S
in_field put r = record { value = put r.value; valid = r.valid }

-- Into a `string`. A null leaves any variable but a slice, a map or a pointer as it is.
unfoldable pub store_text : Text → Json → Stored Text
store_text old null = stored old
store_text old (string s) = stored s
store_text old _ = mistyped old

unfoldable pub store_int64 : ℤ → Json → Stored ℤ
store_int64 old null = stored old
store_int64 old (number (int64 n)) = stored n
store_int64 old (number minus_zero) = stored (pos 0)
store_int64 old _ = mistyped old

-- Into an unsigned integer of a type with `bound` values.
unfoldable pub store_uint : ℕ → ℕ → Json → Stored ℕ
store_uint bound old null = stored old
store_uint bound old (number (int64 (pos n))) = if ltb n bound then stored n else mistyped old
store_uint bound old _ = mistyped old

-- An array may be stored into a byte slice too, element by element.
store_items : Items → Stored Bytes
store_items end = stored []
store_items (item v vs) =
    let rest = store_items vs in
    let b = store_uint 256 0 v in
    record { value = b.value ∷ rest.value; valid = b.valid && rest.valid }

abbrev from_base64 : Bytes → Base64.Decoded → Stored Bytes
from_base64 old d = if d.valid then stored d.bytes else mistyped old

-- Into a `[]byte`.
unfoldable pub store_bytes : Bytes → Json → Stored Bytes
unfolding store_items store_uint
store_bytes old null = stored []
store_bytes old (string s) = from_base64 old (Base64.decode s)
store_bytes old (array vs) = store_items vs
store_bytes old _ = mistyped old

-- The members of an object in order, each by the struct's own rule for the key.
unfoldable pub store_members {ℓ} :
    {S : Type ℓ} → (Text → Json → S → Stored S) → S → Members → Stored S
store_members rule s nil = stored s
store_members rule s (member k v ms) =
    let first = rule k v s in
    let rest = store_members rule first.value ms in
    record { value = rest.value; valid = first.valid && rest.valid }

-- Into a struct.
unfoldable pub store_struct {ℓ} : {S : Type ℓ} → (Text → Json → S → Stored S) → S → Json → Stored S
store_struct rule s null = stored s
store_struct rule s (object ms) = store_members rule s ms
store_struct rule s _ = mistyped s

-- A malformed text stores nothing.
unfoldable pub store_document {ℓ} :
    {S : Type ℓ} → (Text → Json → S → Stored S) → S → Option Json → Stored S
store_document rule s none = mistyped s
store_document rule s (some v) = store_struct rule s v

-- Keys are compared without regard to case. Two characters outside ASCII fold into it: the Kelvin
-- sign and the long s.
abbrev lower : ℕ → ℕ
lower c = if leb b'A' c && leb c b'Z' then c + 32 else c

unfoldable pub fold_name : Text → Text
fold_name [] = []
fold_name (a ∷ []) = lower a ∷ []
fold_name (a ∷ b ∷ []) = if a == 0xc5 && b == 0xbf then b's' ∷ [] else lower a ∷ lower b ∷ []
fold_name (a ∷ b ∷ c ∷ s) =
    let behind_kelvin = fold_name s in
    let behind_long_s = fold_name (c ∷ s) in
    let rest = fold_name (b ∷ c ∷ s) in
    if a == 0xe2 && (b == 0x84 && c == 0xaa)
    then b'k' ∷ behind_kelvin
    else if a == 0xc5 && b == 0xbf
    then b's' ∷ behind_long_s
    else lower a ∷ rest
