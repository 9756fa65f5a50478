-- ===== src/SealedCa.antt =====
-- server/sealed_ca.go: the key that signs the certificates of senders, its rotation, and the
-- certificates. The outcomes of the system calls are arguments; `disk` is the part of the disk that
-- the key files stand on. A time is a number of nanoseconds since 1970.
pub mod Certificates
use spectre_relay.Prelude.{
  ℕ, ◌+◌, ◌/◌, Bool, true, false, not, Option, none, some, List, [], ◌∷◌, ◌++◌, if◌then◌else◌, ◌==◌,
  length, is_empty, Text, Bytes, codes, Result, ok, err, Error, other,
}
use spectre_relay.Prelude.Int.{ℤ, pos}
use spectre_relay.Prelude.Assoc.{Map, lookup, insert}
use spectre_relay.Golib.Base64
use spectre_relay.Crypto.{Ed25519}
use spectre_relay.Json.{Json, Members, Number, Syntax}
use spectre_relay.Files.{Disk}

pub record SealedCa : Type 0 where
  pub priv : Bytes
  pub pub_key : Bytes
  pub prev_pub : Option Bytes
  pub rotation_sig : Bytes

pub record SenderCert : Type 0 where
  pub iss : Text
  pub uid : Text
  pub ik : Text
  pub exp : ℤ

-- 24 hours.
abbrev pub default_cert_ttl : ℕ
default_cert_ttl = 86400000000000

-- What one call of `NewSealedCA` meets: errors of the two reads other than a missing file, the
-- private key that is generated, and the outcomes of the two calls that write it.
pub record CaEnv : Type 0 where
  pub read : Option Error
  pub generated : Result Error Bytes
  pub make_dir : Option Error
  pub write : Option Error
  pub partial : Bytes
  pub read_prev : Option Error

abbrev pub prev_path : Text → Text
prev_path path = path ++ codes ".prev"

abbrev if_full : Bytes → Option Bytes
if_full content = if length content == 64 then some content else none

unfoldable pub read_prev_key : Option Error → Text → Disk → Option Bytes
read_prev_key read path disk = elim read [
  | some _ ↦ none
  | none ↦ elim (lookup (prev_path path) disk) [ none ↦ none | some content ↦ if_full content ]
]

module _ (ed : Ed25519) where
  -- The authority of a key, with the rotation proof if there is a previous one.
  unfoldable pub with_proof : Bytes → Option Bytes → SealedCa
  with_proof priv none = record {
    priv = priv;
    pub_key = ed.public priv;
    prev_pub = none;
    rotation_sig = [];
  }
  with_proof priv (some prev) = record {
    priv = priv;
    pub_key = ed.public priv;
    prev_pub = some (ed.public prev);
    rotation_sig = ed.sign prev (ed.public priv);
  }

  abbrev pub load_ca : CaEnv → Text → Disk → Bytes → Result Error SealedCa
  load_ca env path disk content =
      if not (length content == 64)
      then err other
      else ok (with_proof content (read_prev_key env.read_prev path disk))

  abbrev pub mint_ca : CaEnv → Text → Disk → Disk × Result Error SealedCa
  mint_ca env path disk = elim env.generated [
    | err e ↦ (disk, err e)
    | ok priv ↦ elim env.make_dir [
      | some e ↦ (disk, err e)
      | none ↦ elim env.write [
        | some e ↦ (insert path env.partial disk, err e)
        | none ↦
            let written = insert path priv disk in
            (written, ok (with_proof priv (read_prev_key env.read_prev path written)))
      ]
    ]
  ]

  unfoldable pub new_sealed_ca : CaEnv → Text → Disk → Disk × Result Error SealedCa
  new_sealed_ca env path disk = elim env.read [
    | some e ↦ (disk, err e)
    | none ↦ elim (lookup path disk) [
      | some content ↦ (disk, load_ca env path disk content)
      | none ↦ mint_ca env path disk
    ]
  ]

unfoldable pub public_key_b64 : SealedCa → Text
public_key_b64 ca = Base64.encode ca.pub_key

unfoldable pub rotation_proof_b64 : SealedCa → Text × Text
rotation_proof_b64 ca = elim ca.prev_pub [
  | none ↦ ([], [])
  | some prev ↦
      if length ca.rotation_sig == 0
      then ([], [])
      else (Base64.encode prev, Base64.encode ca.rotation_sig)
]

unfoldable pub json_of_cert : SenderCert → Json
json_of_cert c = Json.object (
    Members.member (codes "iss") (Json.string c.iss) (
      Members.member (codes "uid") (Json.string c.uid) (
        Members.member (codes "ik") (Json.string c.ik)
          (Members.member (codes "exp") (Json.number (Number.int64 c.exp)) Members.nil))))

-- `now.Add(defaultCertTTL).UnixMilli()`
abbrev pub cert_of : Text → Text → Text → ℕ → SenderCert
cert_of uid ik issuer now = record {
  iss = issuer;
  uid = uid;
  ik = ik;
  exp = pos ((now + default_cert_ttl) / 1000000);
}

module _ (ed : Ed25519) (syntax : Syntax) where
  -- The signed bytes and the signature.
  unfoldable pub issue_cert : SealedCa → Text → Text → Text → ℕ → Result Error (Bytes × Bytes)
  issue_cert ca uid ik issuer now =
      elim (syntax.marshal (json_of_cert (cert_of uid ik issuer now))) [
        | err e ↦ err e
        | ok cert ↦ ok (cert, ed.sign ca.priv cert)
      ]
