-- ===== src/Envelope/Shapes.antt =====
-- The two envelopes are told apart by their shape alone.
use spectre_relay.Prelude.{◌≡◌, refl, true, &&-eq-true, Option, none, some, Text, arith}
use spectre_relay.Json.{
  Json, object, Members, nil, member, store_text, store_members, store_struct, store_document,
}
use spectre_relay.Envelope.{
  SealedEnvelope, OpenEnvelope, Tag, recipient, cipher, time, ident, relay, tag_of, store_sealed,
  store_open, sealed_rule, open_rule, no_sealed, no_open, decode_sealed, decode_open,
}

-- The fields that the two forms have in common are the same.
pub record Agrees (s : SealedEnvelope) (o : OpenEnvelope) : Type 0 where
  pub recipients : s.recipient_id ≡ o.recipient_id
  pub ciphertexts : s.ciphertext ≡ o.ciphertext
  pub times : s.timestamp_ms ≡ o.timestamp_ms
  pub ids : s.id ≡ o.id

-- No member of the object is read as `federation_sender_relay` without being a text or null.
abbrev pub RelayIsText : Members → Type 0
RelayIsText nil = Unit {0}
RelayIsText (member k v ms) =
    (tag_of k ≡ relay → (old : Text) → (store_text old v).valid ≡ true) × RelayIsText ms

store-Agrees :
    (t : Tag) (v : Json) (s : SealedEnvelope) (o : OpenEnvelope)
    → Agrees s o
    → (t ≡ relay → (old : Text) → (store_text old v).valid ≡ true)
    → (store_open t v o).valid ≡ true
    → Agrees (store_sealed t v s).value (store_open t v o).value
      × ((store_sealed t v s).valid ≡ true)
unfolding store_sealed store_open
store-Agrees recipient v s o a r h = ground arith
store-Agrees cipher v s o a r h = ground arith
store-Agrees time v s o a r h = ground arith
store-Agrees ident v s o a r h = ground arith
store-Agrees relay v s o a r h = ground (arith, r refl s.federation_sender_relay)
store-Agrees _ v s o a r h = ground arith

members_agree :
    (ms : Members) (s : SealedEnvelope) (o : OpenEnvelope)
    → Agrees s o
    → RelayIsText ms
    → (store_members open_rule o ms).valid ≡ true
    → Agrees (store_members sealed_rule s ms).value (store_members open_rule o ms).value
      × ((store_members sealed_rule s ms).valid ≡ true)
unfolding store_members
members_agree nil s o a r h = (a, refl)
members_agree (member k v ms) s o a r h =
    let (first, rest) = &&-eq-true _ _ h in
    let (now, good) = store-Agrees (tag_of k) v s o a r.0 first in
    let (after, fine) = members_agree ms _ _ now r.1 rest in (after, rw (good, fine) refl)

-- The relay field of an object, if any, is a text or null.
abbrev pub RelayField : Option Json → Type 0
RelayField (some (object ms)) = RelayIsText ms
RelayField _ = Unit {0}

-- What decodes as an open envelope decodes as a sealed one with the same fields: the `sender_id`
-- is skipped like any unknown key. The one exception is a relay field of another type.
pub decode_open-decode_sealed :
    (j : Option Json)
    → RelayField j
    → (decode_open j).valid ≡ true
    → Agrees (decode_sealed j).value (decode_open j).value × ((decode_sealed j).valid ≡ true)
unfolding decode_open decode_sealed store_document store_struct
decode_open-decode_sealed none r h = cc
decode_open-decode_sealed (some (object ms)) r h =
    members_agree ms no_sealed no_open
      (record { recipients = refl; ciphertexts = refl; times = refl; ids = refl }) r h
decode_open-decode_sealed (some _) r h = ground arith
