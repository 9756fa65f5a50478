-- ===== src/Envelope.antt =====
-- model/envelope.go: the wire forms, and how they are read from JSON and written to it.
pub mod Shapes
use spectre_relay.Prelude.{
  ℕ, Bool, true, false, Option, none, some, List, [], ◌∷◌, if◌then◌else◌, Text, Bytes, codes,
  text_eq, is_empty,
}
use spectre_relay.Prelude.Int.{ℤ, pos}
use spectre_relay.Golib.Base64
use spectre_relay.Json.{
  Json, Members, Number, Stored, stored, in_field, store_text, store_int64, store_bytes,
  store_document, fold_name,
}

pub record SealedEnvelope : Type 0 where
  pub recipient_id : Text
  pub ciphertext : Bytes
  pub timestamp_ms : ℤ
  pub id : Text
  pub federation_sender_relay : Text

pub record OpenEnvelope : Type 0 where
  pub sender_id : Text
  pub recipient_id : Text
  pub ciphertext : Bytes
  pub timestamp_ms : ℤ
  pub id : Text

pub record AuthRequest : Type 0 where
  pub user_id : Text
  pub identity_public_key : Text
  pub signature : Text

-- The json tags of the two envelopes; `unknown` is any other key.
pub data Tag : Type 0 where
  sender recipient cipher time ident relay unknown : Tag

unfoldable pub tag_of : Text → Tag
tag_of key =
    let k = fold_name key in
    if text_eq k (codes "recipient_id")
    then recipient
    else if text_eq k (codes "ciphertext")
    then cipher
    else if text_eq k (codes "timestamp_ms")
    then time
    else if text_eq k (codes "id")
    then ident
    else if text_eq k (codes "sender_id")
    then sender
    else if text_eq k (codes "federation_sender_relay")
    then relay
    else unknown

-- The field of a tag takes the value; a struct skips the tags that it does not have.
unfoldable pub store_sealed : Tag → Json → SealedEnvelope → Stored SealedEnvelope
store_sealed recipient v e =
    in_field (λ s. record e { recipient_id = s }) (store_text e.recipient_id v)
store_sealed cipher v e = in_field (λ b. record e { ciphertext = b }) (store_bytes e.ciphertext v)
store_sealed time v e = in_field (λ n. record e { timestamp_ms = n }) (store_int64 e.timestamp_ms v)
store_sealed ident v e = in_field (λ s. record e { id = s }) (store_text e.id v)
store_sealed relay v e =
    in_field (λ s. record e { federation_sender_relay = s })
      (store_text e.federation_sender_relay v)
store_sealed _ v e = stored e

unfoldable pub store_open : Tag → Json → OpenEnvelope → Stored OpenEnvelope
store_open sender v e = in_field (λ s. record e { sender_id = s }) (store_text e.sender_id v)
store_open recipient v e =
    in_field (λ s. record e { recipient_id = s }) (store_text e.recipient_id v)
store_open cipher v e = in_field (λ b. record e { ciphertext = b }) (store_bytes e.ciphertext v)
store_open time v e = in_field (λ n. record e { timestamp_ms = n }) (store_int64 e.timestamp_ms v)
store_open ident v e = in_field (λ s. record e { id = s }) (store_text e.id v)
store_open _ v e = stored e

abbrev pub sealed_rule : Text → Json → SealedEnvelope → Stored SealedEnvelope
sealed_rule key = store_sealed (tag_of key)

abbrev pub open_rule : Text → Json → OpenEnvelope → Stored OpenEnvelope
open_rule key = store_open (tag_of key)

-- The zero values, into which the relay decodes.
abbrev pub no_sealed : SealedEnvelope
no_sealed = record {
  recipient_id = [];
  ciphertext = [];
  timestamp_ms = pos 0;
  id = [];
  federation_sender_relay = [];
}

abbrev pub no_open : OpenEnvelope
no_open = record {
  sender_id = [];
  recipient_id = [];
  ciphertext = [];
  timestamp_ms = pos 0;
  id = [];
}

-- `json.Unmarshal` into a fresh variable.
unfoldable pub decode_sealed : Option Json → Stored SealedEnvelope
decode_sealed = store_document sealed_rule no_sealed

unfoldable pub decode_open : Option Json → Stored OpenEnvelope
decode_open = store_document open_rule no_open

-- The json tags of the answer to a challenge.
pub data AuthTag : Type 0 where
  user public_key sign other : AuthTag

auth_tag_of : Text → AuthTag
auth_tag_of key =
    let k = fold_name key in
    if text_eq k (codes "user_id")
    then user
    else if text_eq k (codes "identity_public_key")
    then public_key
    else if text_eq k (codes "signature")
    then sign
    else other

store_auth : AuthTag → Json → AuthRequest → Stored AuthRequest
store_auth user v r = in_field (λ s. record r { user_id = s }) (store_text r.user_id v)
store_auth public_key v r =
    in_field (λ s. record r { identity_public_key = s }) (store_text r.identity_public_key v)
store_auth sign v r = in_field (λ s. record r { signature = s }) (store_text r.signature v)
store_auth other v r = stored r

unfoldable pub decode_auth_request : Option Json → Stored AuthRequest
unfolding auth_tag_of store_auth
decode_auth_request =
    store_document (λ key. store_auth (auth_tag_of key))
      (record { user_id = []; identity_public_key = []; signature = [] })

-- `omitempty`
abbrev pub unless_empty : Text → Text → Members → Members
unless_empty key s rest = if is_empty s then rest else Members.member key (Json.string s) rest

-- What `json.Marshal` prints: the fields in the order of their declaration, bytes in base64.
unfoldable pub json_of_sealed : SealedEnvelope → Json
json_of_sealed e = Json.object (
    Members.member (codes "recipient_id") (Json.string e.recipient_id) (
      Members.member (codes "ciphertext") (Json.string (Base64.encode e.ciphertext)) (
        Members.member (codes "timestamp_ms") (Json.number (Number.int64 e.timestamp_ms)) (
          Members.member (codes "id") (Json.string e.id) (
            unless_empty (codes "federation_sender_relay") e.federation_sender_relay
              Members.nil)))))

unfoldable pub json_of_open : OpenEnvelope → Json
json_of_open e = Json.object (
    Members.member (codes "sender_id") (Json.string e.sender_id) (
      Members.member (codes "recipient_id") (Json.string e.recipient_id) (
        Members.member (codes "ciphertext") (Json.string (Base64.encode e.ciphertext)) (
          Members.member (codes "timestamp_ms") (Json.number (Number.int64 e.timestamp_ms))
            (Members.member (codes "id") (Json.string e.id) Members.nil)))))

-- Challenge{Nonce} and AuthResponse{Success: true}.
unfoldable pub json_of_challenge : Bytes → Json
json_of_challenge nonce =
    Json.object (Members.member (codes "nonce") (Json.string (Base64.encode nonce)) Members.nil)

unfoldable pub json_of_success : Json
json_of_success = Json.object (
    Members.member (codes "success") (Json.bool true)
      (Members.member (codes "error") (Json.string []) Members.nil))
