-- ===== src/Tests/Pools.antt =====
-- The prekey store, at concrete inputs.
use spectre_relay.Prelude.{
  ◌≡◌, refl, true, none, some, List, [], ◌∷◌, ◌++◌, Text, codes, text_eq, ok, other, arith,
}
use spectre_relay.Prelude.Assoc.{lookup}
use spectre_relay.Golib.Base64
use spectre_relay.Json.{Json, Syntax}
use spectre_relay.Crypto.{new_gcm}
use spectre_relay.Files.{WriteEnv, encrypt, replace_file, save}
use spectre_relay.Prekeys.Bundle.{OneTimePrekey, PrekeyBundle, json_of_bundles}
use spectre_relay.Prekeys.Validation.{
  validate_prekey_bundle, IsWellFormed, check_base64_len, is_seen, check_one_time_prekeys,
  validate_prekey_bundle-IsWellFormed,
}
use spectre_relay.Prekeys.Invariant.{IsSound}
use spectre_relay.Prekeys.Serving.{Request, fetch, take_one, served, run, with_prekeys, served-run}
use spectre_relay.Prekeys.Restart.{
  restarted, reload, load_from_disk-persist_locked, restart_after_failed_pop,
}
use spectre_relay.Prekeys.{
  PrekeyStore, static_response, persist_locked, get_bundle_with_otpk, load_from_disk,
}
use spectre_relay.Tests.{toy_aead, toy_syntax, calm, path, key_32}

abbrev key_text : Text
key_text = codes "AAAAAAAAAAAAAAAAAAAAAAAAAAAAAAAAAAAAAAAAAAA="

abbrev pub bundle : PrekeyBundle
bundle = record {
  identity_key = key_text;
  signed_prekey = key_text;
  signed_prekey_sig =
      codes
        "AAAAAAAAAAAAAAAAAAAAAAAAAAAAAAAAAAAAAAAAAAAAAAAAAAAAAAAAAAAAAAAAAAAAAAAAAAAAAAAAAAAAAA==";
  signed_prekey_id = 1;
  one_time_prekeys = record { id = 1; key = key_text } ∷ record { id = 2; key = key_text } ∷ [];
}

abbrev pub bob : Text
bob = codes "bob"

abbrev pub store : PrekeyStore
store = record { bundles = (bob, bundle) ∷ []; store_path = path; key = key_32; disk = [] }

abbrev printed : Json
printed = json_of_bundles store.bundles

abbrev pub syntax : Syntax
syntax = toy_syntax printed

abbrev requests : List Request
requests = fetch calm bob true ∷ take_one calm bob ∷ fetch calm bob true ∷ []

bundle-passes : validate_prekey_bundle bundle ≡ none
unfolding validate_prekey_bundle check_base64_len check_one_time_prekeys is_seen Base64.decode
    Base64.decode_quanta
bundle-passes = refl

validate_prekey_bundle-IsWellFormed_example : IsWellFormed bundle
validate_prekey_bundle-IsWellFormed_example =
    (validate_prekey_bundle-IsWellFormed bundle).0 bundle-passes

pub found : lookup bob store.bundles ≡ some bundle
unfolding lookup text_eq
found = refl

pub bundle-IsWellFormed : IsWellFormed bundle
bundle-IsWellFormed = (validate_prekey_bundle-IsWellFormed bundle).0 bundle-passes

served-run_example :
    (rest : List OneTimePrekey) × (lookup bob (run syntax toy_aead store requests).bundles
      ≡ some (with_prekeys syntax toy_aead bundle rest))
    × (bundle.one_time_prekeys ≡ served syntax toy_aead bob store requests ++ rest)
served-run_example = served-run syntax toy_aead bob store bundle requests found tt

abbrev empty_store : PrekeyStore
empty_store = record { bundles = []; store_path = path; key = key_32; disk = [] }

empty_store-IsSound : IsSound empty_store
unfolding lookup
empty_store-IsSound = record { at = λ user b h. cc }

load_from_disk-persist_locked_example :
    load_from_disk syntax toy_aead none (restarted (persist_locked syntax toy_aead calm store).0)
    ≡ ok (persist_locked syntax toy_aead calm store).0
load_from_disk-persist_locked_example =
    load_from_disk-persist_locked syntax toy_aead calm store (λ tmp made same. cc) (λ n h. cc)
      (omega arith)
      (
        unfold lookup in refl,
        record { signed = omega arith; one_time = (omega arith, (omega arith, tt)) },
        tt,
      )
      refl (unfold persist_locked save encrypt new_gcm replace_file in refl)

abbrev no_rename : WriteEnv
no_rename = record calm { rename = some other }

restart_after_failed_pop_example :
    ((get_bundle_with_otpk syntax toy_aead no_rename store bob true).1
      ≡ some (record (static_response bundle) {
        one_time_prekey = some (record { id = 1; key = key_text });
      }))
    × (reload syntax toy_aead (get_bundle_with_otpk syntax toy_aead no_rename store bob true).0
        ≡ reload syntax toy_aead store)
restart_after_failed_pop_example =
    restart_after_failed_pop syntax toy_aead no_rename store bob bundle
      (record { id = 1; key = key_text }) (record { id = 2; key = key_text } ∷ []) other
      (λ tmp made same. cc) found refl
      (unfold persist_locked save encrypt new_gcm replace_file in refl)
