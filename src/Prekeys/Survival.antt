-- ===== src/Prekeys/Survival.antt =====
-- What a restart finds of the bundles, after any operation and any failure.
use spectre_relay.Prelude.{
  ◌<◌, ◌≡◌, refl, sym, ◌∙◌, ◌⊎◌, inl, inr, Bool, true, Option, none, some, [], ◌∷◌, length, Text,
  Bytes, text_eq, text_eq_iff, Result, ok, err, Error, Result-cases, Option-cases, Bool-cases,
  arith,
}
use spectre_relay.Prelude.Assoc.{Map, lookup, insert, lookup-insert}
use spectre_relay.Crypto.{Aead}
use spectre_relay.Json.{Syntax, stored}
use spectre_relay.Files.{Disk, WriteEnv, KeyEnv, last_state, save, read_sealed, load_or_create_key}
use spectre_relay.Files.Keys.{FillsBuffer, lookup-load_or_create_key}
use spectre_relay.Files.Sealed.{read_sealed-failed_save}
use spectre_relay.Files.Survival.{
  IsSafe, key_file, first_save-Survives, save-key_file, read_sealed-cong,
}
use spectre_relay.Prekeys.Bundle.{PrekeyBundle, json_of_bundles}
use spectre_relay.Prekeys.Validation.{validate_prekey_bundle}
use spectre_relay.Prekeys.Invariant.{bundles-persist, get_cases, consume_cases}
use spectre_relay.Prekeys.Restart.{FitsUint32, IsMap, load_members-entries}
use spectre_relay.Prekeys.{
  PrekeyStore, persist_locked, put_bundle, register_bundle, get_bundle_with_otpk,
  consume_one_time_prekey, decode_bundles, load_from_disk, new_prekey_store,
}

failed_read :
    (aead : Aead) (x : Error) (key : Bytes) (path : Text) (disk : Disk)
    → read_sealed aead (some x) key path disk ≡ err x
unfolding read_sealed
failed_read aead x key path disk = refl

pub lookup-FitsUint32 :
    (user : Text) (b : PrekeyBundle) (m : Map PrekeyBundle)
    → IsMap m
    → lookup user m ≡ some b
    → FitsUint32 b
unfolding lookup
lookup-FitsUint32 user b [] h e = absurd (cc)
lookup-FitsUint32 user b ((u, c) ∷ m) h e = elim (Bool-cases (text_eq u user)) [
  | inl same ↦ let q : c ≡ b = ground (arith, same, e) in rw (← q) h.1
  | inr distinct ↦ lookup-FitsUint32 user b m h.2 (ground (arith, distinct, e))
]

pub insert-IsMap :
    (user : Text) (b : PrekeyBundle) (m : Map PrekeyBundle)
    → IsMap m
    → FitsUint32 b
    → IsMap (insert user b m)
unfolding lookup insert
insert-IsMap user b [] h f = (refl, f, tt)
insert-IsMap user b ((u, c) ∷ m) h f = elim (Bool-cases (text_eq u user)) [
  | inl same ↦ let q : u ≡ user = (text_eq_iff u user).0 same in rw same (rw q at h.0, f, h.2)
  | inr distinct ↦ rw distinct (
    ground (arith, lookup-insert user u b m, text_eq_iff user u, text_eq_iff u user, distinct, h.0),
    h.1,
    insert-IsMap user b m h.2 f,
  )
]

module _ (syntax : Syntax) (aead : Aead) where
  -- What the encrypted file holds: nothing yet, or a text that decodes to the map.
  abbrev pub Holds : Map PrekeyBundle → Result Error (Option Bytes) → Type 0
  Holds m (err e) = ⊥
  Holds m (ok none) = m ≡ []
  Holds m (ok (some plain)) = decode_bundles syntax aead (syntax.unmarshal plain) ≡ stored m

  -- The files load as the map.
  pub record Loads (key : Bytes) (path : Text) (disk : Disk) (m : Map PrekeyBundle) : Type 0 where
    pub stands : lookup (key_file path) disk ≡ some key
    pub size : length key ≡ 32
    pub holds : Holds m (read_sealed aead none key path disk)

  abbrev pub OnDisk : PrekeyStore → Map PrekeyBundle → Type 0
  OnDisk ps m = Loads ps.key ps.store_path ps.disk m

  -- The files load as they did, or as the map that there is now.
  abbrev pub Kept : Map PrekeyBundle → PrekeyStore → PrekeyStore → Type 0
  Kept m ps t = (OnDisk t m ⊎ OnDisk t t.bundles) × (t.store_path ≡ ps.store_path)

  -- The map can be printed.
  abbrev pub Prints : PrekeyStore → Type 0
  Prints ps = IsMap ps.bundles × syntax.IsPrintable (json_of_bundles ps.bundles)

  module _ (positive : 0 < aead.nonce_size) where
    persist-Kept :
        (env : WriteEnv) (ps : PrekeyStore) (m : Map PrekeyBundle)
        → IsSafe aead ps.store_path env
        → Prints ps
        → OnDisk ps m
        → Kept m ps (persist_locked syntax aead env ps).0
    unfolding persist_locked json_of_bundles
    persist-Kept env ps m safe (is_map, printable) h =
        let (plain, printed, parsed) =
          syntax.unmarshal-marshal (json_of_bundles ps.bundles) printable in
        let w = save aead env ps.key ps.store_path plain ps.disk in
        rw (printed, persist_locked)
          (elim (Option-cases w.error) [
            | inl fine ↦
                let s =
                  first_save-Survives aead ps.key ps.store_path plain ps.disk env safe positive
                    h.stands h.size fine in
                (
                  inr (record {
                    stands = s.stands;
                    size = s.size;
                    holds = rw (s.reads, parsed) (load_members-entries ps.bundles is_map);
                  }),
                  refl,
                )
            | inr (e, bad) ↦ (
              inl (record {
                stands = save-key_file aead ps.key ps.store_path plain ps.disk env safe ∙ h.stands;
                size = h.size;
                holds =
                    rw
                      (read_sealed-cong aead ps.key ps.store_path (last_state ps.disk w.states)
                        ps.disk
                        (read_sealed-failed_save aead env ps.key ps.store_path plain ps.disk e
                          safe.apart bad))
                      h.holds;
              }),
              refl,
            )
          ])

    put-Kept :
        (env : WriteEnv) (ps : PrekeyStore) (user : Text) (b : PrekeyBundle) (m : Map PrekeyBundle)
        → IsSafe aead ps.store_path env
        → OnDisk ps m
        → let t = (persist_locked syntax aead env (put_bundle syntax aead ps user b)).0 in
          Prints t → Kept m ps t
    put-Kept env ps user b m safe h p =
        persist-Kept env (put_bundle syntax aead ps user b) m safe
          (rw (bundles-persist syntax aead env (put_bundle syntax aead ps user b)) at p) h

    register-Kept :
        (env : WriteEnv) (ps : PrekeyStore) (user : Text) (b : PrekeyBundle) (m : Map PrekeyBundle)
        → IsSafe aead ps.store_path env
        → OnDisk ps m
        → let t = (register_bundle syntax aead env ps user b).0 in Prints t → Kept m ps t
    unfolding register_bundle
    register-Kept env ps [] b m safe h = λ p. (inl h, refl)
    register-Kept env ps (c ∷ user) b m safe h = elim (Option-cases (validate_prekey_bundle b)) [
      | inr (x, e) ↦ rw (e, register_bundle) (λ p. (inl h, refl))
      | inl e ↦ rw (e, register_bundle) (put-Kept env ps (c ∷ user) b m safe h)
    ]

    -- Where the files load as some bundles, each operation, whatever fails in it, leaves files that
    -- load as the same bundles or as those that the store then has in memory, under the same names,
    -- if the latter can be printed, each under a name of its own, with ids of 32 bits. Nonces have the
    -- size that the cipher wants, which is not 0, and the temporary name of the write is neither that
    -- of the file nor that of its key.
    pub prekeys-Kept :
        (env : WriteEnv) (ps : PrekeyStore) (user : Text) (m : Map PrekeyBundle)
        → IsSafe aead ps.store_path env
        → OnDisk ps m
        → ((b : PrekeyBundle)
            → Prints (register_bundle syntax aead env ps user b).0
            → Kept m ps (register_bundle syntax aead env ps user b).0)
          × ((consume : Bool)
              → Prints (get_bundle_with_otpk syntax aead env ps user consume).0
              → Kept m ps (get_bundle_with_otpk syntax aead env ps user consume).0)
          × (Prints (consume_one_time_prekey syntax aead env ps user).0
              → Kept m ps (consume_one_time_prekey syntax aead env ps user).0)
    prekeys-Kept env ps user m safe h = (
      λ b. register-Kept env ps user b m safe h,
      λ consume.
          get_cases syntax aead (λ r. Prints r.0 → Kept m ps r.0) env ps user consume
            (λ _ p. (inl h, refl)) (λ b _ _ p. (inl h, refl))
            (λ b k rest _ _ _ p.
              put-Kept env ps user (record b { one_time_prekeys = rest }) m safe h p),
      consume_cases syntax aead (λ r. Prints r.0 → Kept m ps r.0) env ps user (λ p. (inl h, refl))
          (λ b k rest _ _ p.
            put-Kept env ps user (record b { one_time_prekeys = rest }) m safe h p),
    )

  -- What `NewPrekeyStore` makes of files that load as a map: the map, the same key, and the disk as
  -- it was.
  pub new_prekey_store-Loads :
      (keys : KeyEnv) (key : Bytes) (path : Text) (disk : Disk) (m : Map PrekeyBundle)
      → Loads key path disk m
      → keys.read ≡ none
      → new_prekey_store syntax aead none keys none path disk
        ≡ (disk, ok (record { bundles = m; store_path = path; key = key; disk = disk }))
  unfolding new_prekey_store load_from_disk load_or_create_key
  new_prekey_store-Loads keys key path disk m h clear =
      elim (Result-cases (read_sealed aead none key path disk)) [
        | inr (_, bad) ↦ absurd (rw bad at h.holds)
        | inl (none, empty) ↦
            ground (arith, clear, h.stands, h.size, empty, sym (rw empty at h.holds))
        | inl (some plain, there) ↦
            ground (arith, clear, h.stands, h.size, there, rw there at h.holds)
      ]

  -- Whatever `NewPrekeyStore` returns without an error, its files load as its bundles.
  pub new_prekey_store-OnDisk :
      (make_dir : Option Error) (keys : KeyEnv) (read : Option Error) (path : Text) (disk : Disk)
      (ps : PrekeyStore)
      → FillsBuffer keys
      → (new_prekey_store syntax aead make_dir keys read path disk).1 ≡ ok ps
      → OnDisk ps ps.bundles × (ps.store_path ≡ path)
  unfolding new_prekey_store load_from_disk
  new_prekey_store-OnDisk (some x) keys read path disk ps sized h = cc
  new_prekey_store-OnDisk none keys read path disk ps sized h =
      let created = load_or_create_key keys (key_file path) disk in
      elim (Result-cases created.1) [
        | inr (_, bad) ↦ absurd (ground (arith, bad, h))
        | inl (k, got) ↦
            let (stands, size) = lookup-load_or_create_key keys (key_file path) disk k sized got in
            elim (Option-cases read) [
              | inr (x, failed) ↦
                  absurd (ground (arith, got, failed, failed_read aead x k path created.0, h))
              | inl clear ↦ elim (Result-cases (read_sealed aead none k path created.0)) [
                | inr (_, bad) ↦ absurd (ground (arith, got, clear, bad, h))
                | inl (none, empty) ↦
                    let e : ps
                        ≡ record { bundles = []; store_path = path; key = k; disk = created.0 } =
                      ground (arith, got, clear, empty, h) in
                    rw e (record { stands = stands; size = size; holds = rw empty refl }, refl)
                | inl (some plain, there) ↦
                    let d = decode_bundles syntax aead (syntax.unmarshal plain) in
                    let valid : d.valid ≡ true = ground (arith, got, clear, there, h) in
                    let e : ps ≡ record {
                      bundles = d.value;
                      store_path = path;
                      key = k;
                      disk = created.0;
                    } =
                      ground (arith, got, clear, there, valid, h) in
                    rw e (
                      record {
                        stands = stands;
                        size = size;
                        holds = rw there (ground (arith, valid));
                      },
                      refl,
                    )
              ]
            ]
      ]
