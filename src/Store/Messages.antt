-- ===== src/Store/Messages.antt =====
-- `queuedMessage` of server/store.go, its JSON, and `marshalQueued` of server/router.go.
use spectre_relay.Prelude.{
  ◌≡◌, refl, ◌⊎◌, inl, inr, Option, none, some, [], ◌∷◌, if◌then◌else◌, Text, codes, text_eq, arith,
}
use spectre_relay.Prelude.Int.{ℤ, pos}
use spectre_relay.Golib.Base64.Laws.{AreBytes, decode-encode}
use spectre_relay.Json.{
  Json, Members, Number, Stored, stored, in_field, store_text, store_int64, store_bytes,
  store_members, store_struct, store_document, fold_name,
}
use spectre_relay.Envelope.{
  SealedEnvelope, OpenEnvelope, sealed_rule, open_rule, no_sealed, no_open, store_sealed,
  store_open, tag_of, json_of_sealed, json_of_open, unless_empty,
}

-- One of the two envelopes is there.
pub record QueuedMessage : Type 0 where
  pub sealed : Option SealedEnvelope
  pub open_envelope : Option OpenEnvelope
  pub expires_at : ℤ

abbrev pub sealed_message : SealedEnvelope → QueuedMessage
sealed_message e = record { sealed = some e; open_envelope = none; expires_at = pos 0 }

abbrev pub open_message : OpenEnvelope → QueuedMessage
open_message e = record { sealed = none; open_envelope = some e; expires_at = pos 0 }

abbrev no_message : QueuedMessage
no_message = record { sealed = none; open_envelope = none; expires_at = pos 0 }

-- Into a pointer to a struct: null stores nil, and an object goes into the struct that the pointer
-- has, or into a new one.
abbrev or_new {ℓ} : {S : Type ℓ} → S → Option S → S
or_new fresh none = fresh
or_new fresh (some s) = s

abbrev store_pointer {ℓ} :
    {S : Type ℓ} → (Text → Json → S → Stored S) → S → Option S → Json → Stored (Option S)
store_pointer rule fresh old Json.null = stored none
store_pointer rule fresh old v = in_field some (store_struct rule (or_new fresh old) v)

unfoldable pub queued_rule : Text → Json → QueuedMessage → Stored QueuedMessage
queued_rule key v m =
    let k = fold_name key in
    if text_eq k (codes "sealed")
    then in_field (λ e. record m { sealed = e }) (store_pointer sealed_rule no_sealed m.sealed v)
    else if text_eq k (codes "open")
    then in_field (λ e. record m { open_envelope = e })
        (store_pointer open_rule no_open m.open_envelope v)
    else if text_eq k (codes "expires_at")
    then in_field (λ n. record m { expires_at = n }) (store_int64 m.expires_at v)
    else stored m

unfoldable pub decode_queued : Option Json → Stored QueuedMessage
unfolding queued_rule
decode_queued = store_document queued_rule no_message

-- `omitempty` on a pointer.
abbrev unless_nil {ℓ} : {S : Type ℓ} → Text → (S → Json) → Option S → Members → Members
unless_nil key print none rest = rest
unless_nil key print (some e) rest = Members.member key (print e) rest

unfoldable pub json_of_queued : QueuedMessage → Json
json_of_queued m = Json.object (
    unless_nil (codes "sealed") json_of_sealed m.sealed (
      unless_nil (codes "open") json_of_open m.open_envelope (
        Members.member (codes "expires_at") (Json.number (Number.int64 m.expires_at)) Members.nil)))

-- `marshalQueued`: the value that is printed, or no envelope.
unfoldable pub queued_json : QueuedMessage → Option Json
queued_json m = elim m.sealed [
  | some e ↦ some (json_of_sealed e)
  | none ↦ elim m.open_envelope [ some e ↦ some (json_of_open e) | none ↦ none ]
]

-- Exactly one envelope, with a ciphertext of bytes.
abbrev pub IsMessage : QueuedMessage → Type 0
IsMessage m =
    ((e : SealedEnvelope) × (m.sealed ≡ some e) × (m.open_envelope ≡ none) × AreBytes e.ciphertext)
    ⊎ ((e : OpenEnvelope) × (m.sealed ≡ none) × (m.open_envelope ≡ some e) × AreBytes e.ciphertext)

sealed-round :
    (e : SealedEnvelope)
    → AreBytes e.ciphertext
    → store_struct sealed_rule no_sealed (json_of_sealed e) ≡ stored e
unfolding json_of_sealed store_sealed tag_of store_struct store_members fold_name text_eq store_text
    store_int64 store_bytes
sealed-round e h = rw (decode-encode e.ciphertext h) (by_relay e.federation_sender_relay)
  where
    by_relay :
        (r : Text)
        → store_members sealed_rule
            (record e { federation_sender_relay = [] })
            (unless_empty (codes "federation_sender_relay") r Members.nil)
          ≡ stored (record e { federation_sender_relay = r })
    by_relay [] = refl
    by_relay (c ∷ r) = refl

open-round :
    (e : OpenEnvelope)
    → AreBytes e.ciphertext
    → store_struct open_rule no_open (json_of_open e) ≡ stored e
unfolding json_of_open store_open tag_of store_struct store_members fold_name text_eq store_text
    store_int64 store_bytes
open-round e h = rw (decode-encode e.ciphertext h)

round_sealed :
    (e : SealedEnvelope) (n : ℤ)
    → AreBytes e.ciphertext
    → let m = record (sealed_message e) { expires_at = n } in
      decode_queued (some (json_of_queued m)) ≡ stored m
unfolding decode_queued json_of_queued json_of_sealed store_document store_struct store_members
    fold_name text_eq store_int64
round_sealed e n b = ground (arith, sealed-round e b)

round_open :
    (e : OpenEnvelope) (n : ℤ)
    → AreBytes e.ciphertext
    → let m = record (open_message e) { expires_at = n } in
      decode_queued (some (json_of_queued m)) ≡ stored m
unfolding decode_queued json_of_queued json_of_open store_document store_struct store_members
    fold_name text_eq store_int64
round_open e n b = ground (arith, open-round e b)

-- A queued message with exactly one envelope, whose ciphertext is made of bytes, is read back from
-- its JSON as it was.
pub decode_queued-json_of_queued :
    (m : QueuedMessage) → IsMessage m → decode_queued (some (json_of_queued m)) ≡ stored m
decode_queued-json_of_queued m (inl (e, s, o, b)) =
    let q : m ≡ record (sealed_message e) { expires_at = m.expires_at } = ground (arith, s, o) in
    rw q (round_sealed e m.expires_at b)
decode_queued-json_of_queued m (inr (e, s, o, b)) =
    let q : m ≡ record (open_message e) { expires_at = m.expires_at } = ground (arith, s, o) in
    rw q (round_open e m.expires_at b)
