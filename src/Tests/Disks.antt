-- ===== src/Tests/Disks.antt =====
-- Files, keys, limits, the configuration and the certificates, at concrete inputs.
use spectre_relay.Prelude.{
  ℕ, ◌≡◌, ◌↔◌, refl, true, none, some, List, [], ◌∷◌, ltb, Text, codes, text_eq, ok, arith,
}
use spectre_relay.Prelude.Int.{pos}
use spectre_relay.Prelude.Assoc.{lookup, insert}
use spectre_relay.Config.{duration_of_seconds, load, read_config, Env}
use spectre_relay.Config.Checks.{IsUsable, load-ok_iff, duration_of_seconds_range}
use spectre_relay.RateLimit.{take_slot}
use spectre_relay.RateLimit.Window.{replay, start, granted, take_slot-granted}
use spectre_relay.Files.{Disk, KeyEnv}
use spectre_relay.Files.Atomic.{IsApart}
use spectre_relay.Json.{Json}
use spectre_relay.SealedCa.{
  SealedCa, CaEnv, prev_path, new_sealed_ca, read_prev_key, with_proof, json_of_cert, cert_of,
}
use spectre_relay.SealedCa.Certificates.{new_sealed_ca-rotation}
use spectre_relay.Tests.{toy_ed25519, calm, path, key_32, copies, length-copies}

abbrev requests : List (Text × ℕ)
requests = (codes "a", 1) ∷ (codes "a", 2) ∷ []

take_slot-granted_example :
    (take_slot 1 (replay 1 start requests).attempts (codes "a") 9).1
    ≡ ltb (granted (codes "a") 9 (replay 1 start requests).log) 1
take_slot-granted_example =
    take_slot-granted 1 0 requests (codes "a") 9 (omega arith, (omega arith, (omega arith, tt)))

-- The temporary name is another one.
calm-IsApart : IsApart calm path
calm-IsApart tmp made same = cc

abbrev key_env : KeyEnv
key_env = record { read = none; random = ok key_32; make_dir = none; write = none; partial = [] }

duration_of_seconds_range_example : duration_of_seconds (pos 604800) ≡ pos 604800000000000
duration_of_seconds_range_example = (duration_of_seconds_range 604800).0 (omega arith)

abbrev ca_env : CaEnv
ca_env = record {
  read = none;
  generated = ok (copies 64);
  make_dir = none;
  write = none;
  partial = [];
  read_prev = none;
}

-- Only the previous key is there.
abbrev before : Disk
before = (prev_path path, copies 64) ∷ []

abbrev authority : SealedCa
authority = record {
  priv = copies 64;
  pub_key = copies 32;
  prev_pub = some (copies 32);
  rotation_sig = copies 64;
}

started : (new_sealed_ca toy_ed25519 ca_env path before).1 ≡ ok authority
unfolding new_sealed_ca with_proof read_prev_key lookup insert text_eq
started = refl

new_sealed_ca-rotation_example :
    (authority.prev_pub ≡ some (copies 32))
    × (toy_ed25519.verify (copies 32) authority.pub_key authority.rotation_sig ≡ true)
new_sealed_ca-rotation_example =
    new_sealed_ca-rotation toy_ed25519 ca_env path before authority (copies 64) (λ priv h. cc)
      started refl (unfold lookup text_eq in refl) (length-copies 64)

abbrev cert : Json
cert = json_of_cert (cert_of (codes "bob") (codes "k") (codes "here") 0)

-- Nothing is set.
abbrev unset : Env
unset k = []

load-ok_iff_example :
    (load unset ≡ ok (read_config unset))
    ↔ ((read_config unset ≡ read_config unset) × IsUsable (read_config unset))
load-ok_iff_example = load-ok_iff unset (read_config unset)
