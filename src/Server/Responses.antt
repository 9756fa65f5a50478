-- ===== src/Server/Responses.antt =====
-- What the server answers: the statuses and the JSON of its responses, and `handleSealedCA` of
-- server/server.go.
use spectre_relay.Prelude.{
  ℕ, not, Option, none, some, [], if◌then◌else◌, Text, Bytes, codes, text_eq,
}
use spectre_relay.Prelude.Int.{pos}
use spectre_relay.Golib.Base64
use spectre_relay.Json.{Json, Members, Number}
use spectre_relay.Envelope.{unless_empty}
use spectre_relay.Prekeys.Bundle.{OneTimePrekey}
use spectre_relay.Prekeys.{PrekeyResponse}
use spectre_relay.SealedCa.{SealedCa, public_key_b64, rotation_proof_b64}

abbrev pub json_of_sender_cert : Bytes × Bytes → Json
json_of_sender_cert (cert, sig) = Json.object (
    Members.member (codes "type") (Json.string (codes "sender_cert")) (
      Members.member (codes "cert") (Json.string (Base64.encode cert))
        (Members.member (codes "signature") (Json.string (Base64.encode sig)) Members.nil)))

-- What an HTTP handler answers: the status, the Allow header, the encoded value.
pub record Response : Type 0 where
  pub status : ℕ
  pub allow_header : Text
  pub body : Option Json

abbrev pub status_only : ℕ → Response
status_only n = record { status = n; allow_header = []; body = none }

abbrev pub not_allowed : Text → Response
not_allowed method = record { status = 405; allow_header = method; body = none }

abbrev pub with_json : Json → Response
with_json v = record { status = 200; allow_header = []; body = some v }

abbrev pub json_of_otpk : OneTimePrekey → Json
json_of_otpk p = Json.object (
    Members.member (codes "id") (Json.number (Number.int64 (pos p.id)))
      (Members.member (codes "key") (Json.string p.key) Members.nil))

abbrev pub unless_none : Option OneTimePrekey → Members
unless_none none = Members.nil
unless_none (some p) = Members.member (codes "one_time_prekey") (json_of_otpk p) Members.nil

unfoldable pub json_of_response : PrekeyResponse → Json
json_of_response r = Json.object (
    Members.member (codes "identity_key") (Json.string r.identity_key) (
      Members.member (codes "signed_prekey") (Json.string r.signed_prekey) (
        Members.member (codes "signed_prekey_sig") (Json.string r.signed_prekey_sig) (
          Members.member (codes "signed_prekey_id")
            (Json.number (Number.int64 (pos r.signed_prekey_id)))
            (unless_none r.one_time_prekey)))))

-- The request of another relay; `body` is the first value of the body, as `json.Decoder` finds it.
pub record FederationRequest : Type 0 where
  pub method : Text
  pub relay_header : Text
  pub body : Option Json

unfoldable pub handle_sealed_ca : SealedCa → Text → Response
handle_sealed_ca ca method =
    if not (text_eq method (codes "GET"))
    then not_allowed (codes "GET")
    else let (prev, sig) = rotation_proof_b64 ca in
      with_json (
        Json.object (
          Members.member (codes "public_key") (Json.string (public_key_b64 ca)) (
            unless_empty (codes "prev_public_key") prev
              (unless_empty (codes "rotation_sig") sig Members.nil))))

-- The status and the bytes that `handleHealth` writes.
unfoldable pub handle_health : ℕ × Bytes
handle_health = (200, codes ".")
