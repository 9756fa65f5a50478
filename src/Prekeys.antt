-- ===== src/Prekeys.antt =====
-- server/prekey_store.go. The mutex makes each method one step, and no pointer to a stored bundle
-- leaves the store, so the map holds bundles by value. `disk` is the part of the disk that the
-- store's file stands on. Log lines are not modelled.
pub mod Bundle
pub mod Validation
pub mod Invariant
pub mod Serving
pub mod Restart
pub mod Survival
pub mod Decoding
use spectre_relay.Prelude.{
  ℕ, ◌^◌, Bool, true, false, ◌&&◌, Option, none, some, List, [], ◌∷◌, ◌++◌, if◌then◌else◌, ◌==◌,
  ltb, length, is_empty, Text, Bytes, codes, text_eq, Result, ok, err, Error, other,
}
use spectre_relay.Prelude.Assoc.{Map, lookup, insert}
use spectre_relay.Crypto.{Aead}
use spectre_relay.Json.{Syntax, Json, Members, Stored}
use spectre_relay.Files.{Disk, WriteEnv, KeyEnv, last_state, save, read_sealed, load_or_create_key}
use Bundle.{OneTimePrekey, PrekeyBundle, json_of_bundles, load_members}
use Validation.{BundleError, validate_prekey_bundle}

pub record PrekeyResponse : Type 0 where
  pub identity_key : Text
  pub signed_prekey : Text
  pub signed_prekey_sig : Text
  pub signed_prekey_id : ℕ
  pub one_time_prekey : Option OneTimePrekey

pub record PrekeyStore : Type 0 where
  pub bundles : Map PrekeyBundle
  pub store_path : Text
  pub key : Bytes
  pub disk : Disk

-- The errors of `registerBundle`.
pub data RegisterError : Type 0 where
  empty_user : RegisterError
  refused : BundleError → RegisterError
  not_saved : Error → RegisterError

-- The served form of a bundle, with no one-time prekey.
unfoldable pub static_response : PrekeyBundle → PrekeyResponse
static_response b = record {
  identity_key = b.identity_key;
  signed_prekey = b.signed_prekey;
  signed_prekey_sig = b.signed_prekey_sig;
  signed_prekey_id = b.signed_prekey_id;
  one_time_prekey = none;
}

module _ (syntax : Syntax) (aead : Aead) where
  abbrev pub save_text : WriteEnv → PrekeyStore → Result Error Bytes → PrekeyStore × Option Error
  save_text env ps (err e) = (ps, some e)
  save_text env ps (ok plain) =
      let w = save aead env ps.key ps.store_path plain ps.disk in
      (record ps { disk = last_state ps.disk w.states }, w.error)

  unfoldable pub persist_locked : WriteEnv → PrekeyStore → PrekeyStore × Option Error
  persist_locked env ps = save_text env ps (syntax.marshal (json_of_bundles ps.bundles))

  abbrev as_register_error : Option Error → Option RegisterError
  as_register_error none = none
  as_register_error (some e) = some (not_saved e)

  -- The stored copy shares nothing with the caller's.
  abbrev pub put_bundle : PrekeyStore → Text → PrekeyBundle → PrekeyStore
  put_bundle ps user bundle = record ps { bundles = insert user bundle ps.bundles }

  -- A failed write is reported, and the bundle stays in the map.
  unfoldable pub register_bundle :
      WriteEnv → PrekeyStore → Text → PrekeyBundle → PrekeyStore × Option RegisterError
  register_bundle env ps user bundle =
      if is_empty user then (ps, some empty_user) else elim (validate_prekey_bundle bundle) [
        | some e ↦ (ps, some (refused e))
        | none ↦
            let (saved, error) = persist_locked env (put_bundle ps user bundle) in
            (saved, as_register_error error)
      ]

  -- Pop the head and persist; a failed write is only logged.
  abbrev pub pop : WriteEnv → PrekeyStore → Text → PrekeyBundle → List OneTimePrekey → PrekeyStore
  pop env ps user b rest =
      (persist_locked env (put_bundle ps user (record b { one_time_prekeys = rest }))).0

  abbrev pub serve :
      WriteEnv
      → PrekeyStore
      → Text
      → PrekeyBundle
      → Bool
      → List OneTimePrekey
      → PrekeyStore × PrekeyResponse
  serve env ps user b consume [] = (ps, static_response b)
  serve env ps user b consume (k ∷ rest) =
      if consume
      then (pop env ps user b rest, record (static_response b) { one_time_prekey = some k })
      else (ps, static_response b)

  -- `none` where the source returns false.
  unfoldable pub get_bundle_with_otpk :
      WriteEnv → PrekeyStore → Text → Bool → PrekeyStore × Option PrekeyResponse
  get_bundle_with_otpk env ps user consume = elim (lookup user ps.bundles) [
    | none ↦ (ps, none)
    | some b ↦
        let (after, response) = serve env ps user b consume b.one_time_prekeys in
        (after, some response)
  ]

  unfoldable pub get_bundle : WriteEnv → PrekeyStore → Text → PrekeyStore × Option PrekeyResponse
  unfolding get_bundle_with_otpk
  get_bundle env ps user = get_bundle_with_otpk env ps user true

  abbrev pub consume_from :
      WriteEnv
      → PrekeyStore
      → Text
      → PrekeyBundle
      → List OneTimePrekey
      → PrekeyStore × Option OneTimePrekey
  consume_from env ps user b [] = (ps, none)
  consume_from env ps user b (k ∷ rest) = (pop env ps user b rest, some k)

  unfoldable pub consume_one_time_prekey :
      WriteEnv → PrekeyStore → Text → PrekeyStore × Option OneTimePrekey
  consume_one_time_prekey env ps user = elim (lookup user ps.bundles) [
    | none ↦ (ps, none)
    | some b ↦ consume_from env ps user b b.one_time_prekeys
  ]

  abbrev pub keep_loaded : PrekeyStore → Stored (Map PrekeyBundle) → Result Error PrekeyStore
  keep_loaded ps loaded =
      if loaded.valid then ok (record ps { bundles = loaded.value }) else err other

  -- What the decrypted text is decoded to: null is the empty map.
  abbrev pub decode_bundles : Option Json → Stored (Map PrekeyBundle)
  decode_bundles none = record { value = []; valid = false }
  decode_bundles (some Json.null) = record { value = []; valid = true }
  decode_bundles (some (Json.object ms)) = load_members [] ms
  decode_bundles (some _) = record { value = []; valid = false }

  -- The store comes with an empty map.
  unfoldable pub load_from_disk : Option Error → PrekeyStore → Result Error PrekeyStore
  load_from_disk read ps = elim (read_sealed aead read ps.key ps.store_path ps.disk) [
    | err e ↦ err e
    | ok none ↦ ok ps
    | ok (some plain) ↦ keep_loaded ps (decode_bundles (syntax.unmarshal plain))
  ]

  abbrev key_path : Text → Text
  key_path path = path ++ codes ".key"

  -- `NewPrekeyStore`: the disk after it, and the store.
  unfoldable pub new_prekey_store :
      Option Error → KeyEnv → Option Error → Text → Disk → Disk × Result Error PrekeyStore
  new_prekey_store make_dir keys read path disk = elim make_dir [
    | some e ↦ (disk, err e)
    | none ↦
        let (disk', key) = load_or_create_key keys (key_path path) disk in
        elim key [
          | err e ↦ (disk', err e)
          | ok k ↦ (
            disk',
            load_from_disk read (record { bundles = []; store_path = path; key = k; disk = disk' }),
          )
        ]
  ]

unfoldable pub identity_key_of : PrekeyStore → Text → Option Text
identity_key_of ps user = elim (lookup user ps.bundles) [
  | none ↦ none
  | some b ↦ some b.identity_key
]
