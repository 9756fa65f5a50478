-- ===== src/Prekeys/Restart.antt =====
-- What a restart finds on the disk.
use spectre_relay.Prelude.{
  ◌^◌, ◌<◌, ◌≡◌, refl, inl, inr, true, none, some, List, [], ◌∷◌, ◌++◌, All, Text, text_eq,
  text_eq_iff, Result, ◌>>=◌, ok, Error, Result-cases, arith, append_assoc, append-nil,
}
use spectre_relay.Prelude.Assoc.{Map, lookup, insert}
use spectre_relay.Crypto.{Aead}
use spectre_relay.Json.{
  Syntax, stored, store_text, store_uint, store_members, store_struct, fold_name,
}
use spectre_relay.Files.{WriteEnv, read_sealed}
use spectre_relay.Files.Atomic.{IsApart}
use spectre_relay.Files.Sealed.{IsNonce, read_sealed-save, read_sealed-failed_save}
use spectre_relay.Prekeys.Bundle.{
  OneTimePrekey, PrekeyBundle, no_bundle, prekey_rule, store_prekey_list, bundle_rule,
  json_of_bundle, json_of_bundles, load_members, store_prekeys, json_of_prekeys, entries,
}
use spectre_relay.Prekeys.Invariant.{get_cases}
use spectre_relay.Prekeys.{
  PrekeyStore, pop, static_response, persist_locked, get_bundle_with_otpk, load_from_disk,
}

-- The ids are what a `uint32` can hold.
pub record FitsUint32 (b : PrekeyBundle) : Type 0 where
  pub signed : b.signed_prekey_id < 2 ^ 32
  pub one_time : All (λ p. p.id < 2 ^ 32) b.one_time_prekeys

prekeys-round :
    (l : List OneTimePrekey)
    → All (λ p. p.id < 2 ^ 32) l
    → store_prekeys [] (json_of_prekeys l) ≡ stored l
unfolding store_prekeys json_of_prekeys store_struct store_members prekey_rule fold_name text_eq
    store_uint store_text
prekeys-round [] h = refl
prekeys-round (p ∷ l) h = ground (arith, prekeys-round l h.1)

-- A bundle is read back as it was printed.
bundle-round :
    (b : PrekeyBundle)
    → FitsUint32 b
    → store_struct bundle_rule no_bundle (json_of_bundle b) ≡ stored b
unfolding json_of_bundle bundle_rule store_prekey_list store_struct store_members fold_name text_eq
    store_uint store_text
bundle-round b h = ground (arith, prekeys-round b.one_time_prekeys h.one_time)

-- Every user has one entry, and the ids fit.
abbrev pub IsMap : Map PrekeyBundle → Type 0
IsMap [] = Unit {0}
IsMap ((user, b) ∷ m) = (lookup user m ≡ none) × FitsUint32 b × IsMap m

lookup-append :
    (user : Text) (l m : Map PrekeyBundle)
    → lookup user l ≡ none
    → lookup user (l ++ m) ≡ lookup user m
unfolding lookup
lookup-append user [] m h = refl
lookup-append user ((u, b) ∷ l) m h = ground (arith, lookup-append user l m)

insert-new :
    (user : Text) (b : PrekeyBundle) (l : Map PrekeyBundle)
    → lookup user l ≡ none
    → insert user b l ≡ l ++ (user, b) ∷ []
unfolding lookup insert
insert-new user b [] h = refl
insert-new user b ((u, c) ∷ l) h = ground (arith, insert-new user b l)

-- No user of `m` has an entry in `l`.
abbrev Apart : Map PrekeyBundle → Map PrekeyBundle → Type 0
Apart l [] = Unit {0}
Apart l ((user, b) ∷ m) = (lookup user l ≡ none) × Apart l m

Apart-snoc :
    (l m : Map PrekeyBundle) (user : Text) (b : PrekeyBundle)
    → lookup user m ≡ none
    → Apart l m
    → Apart (l ++ (user, b) ∷ []) m
unfolding lookup
Apart-snoc l [] user b h a = tt
Apart-snoc l ((u, c) ∷ m) user b h a = ground (
  arith,
  text_eq_iff u user,
  text_eq_iff user u,
  lookup-append u l ((user, b) ∷ []) a.0,
  Apart-snoc l m user b,
)

entries-round :
    (l m : Map PrekeyBundle) → IsMap m → Apart l m → load_members l (entries m) ≡ stored (l ++ m)
unfolding load_members entries
entries-round l [] h a = rw append-nil
entries-round l ((user, b) ∷ m) h a = ground (
  arith,
  bundle-round b h.1,
  insert-new user b l a.0,
  append_assoc l ((user, b) ∷ []) m,
  entries-round (l ++ (user, b) ∷ []) m h.2 (Apart-snoc l m user b h.0 a.1),
)

Apart-nil : (m : Map PrekeyBundle) → Apart [] m
unfolding lookup
Apart-nil [] = tt
Apart-nil ((user, b) ∷ m) = (refl, Apart-nil m)

-- The printed map is decoded as it was.
pub load_members-entries : (m : Map PrekeyBundle) → IsMap m → load_members [] (entries m) ≡ stored m
load_members-entries m h = entries-round [] m h (Apart-nil m)

-- The store that a restart begins with, over the same disk and key.
abbrev pub restarted : PrekeyStore → PrekeyStore
restarted ps = record ps { bundles = [] }

module _ (syntax : Syntax) (aead : Aead) where
  -- After a write without an error, under a temporary name of its own and with a nonce of the
  -- cipher's size, a restart reads back exactly the bundles that the store held. The map has one
  -- entry for each user, its ids fit 32 bits, and it can be printed.
  pub load_from_disk-persist_locked :
      (env : WriteEnv) (ps : PrekeyStore)
      → IsApart env ps.store_path
      → IsNonce aead env.nonce
      → 0 < aead.nonce_size
      → IsMap ps.bundles
      → syntax.IsPrintable (json_of_bundles ps.bundles)
      → (persist_locked syntax aead env ps).1 ≡ none
      → load_from_disk syntax aead none (restarted (persist_locked syntax aead env ps).0)
        ≡ ok (persist_locked syntax aead env ps).0
  unfolding persist_locked load_from_disk json_of_bundles
  load_from_disk-persist_locked env ps apart sized pos m printable h =
      let (plain, printed, parsed) =
        syntax.unmarshal-marshal (json_of_bundles ps.bundles) printable in
      ground (
        arith,
        printed,
        parsed,
        read_sealed-save aead env ps.key ps.store_path plain ps.disk apart sized pos,
        load_members-entries ps.bundles m,
      )

  -- The bundles that a restart loads.
  abbrev pub reload : PrekeyStore → Result Error (Map PrekeyBundle)
  reload ps = load_from_disk syntax aead none (restarted ps) >>= λ p. ok p.bundles

  -- What a failed write leaves: the same map, key and path, and the file as it was.
  abbrev SameFile : PrekeyStore → PrekeyStore → Type 0
  SameFile p q =
      (p.key ≡ q.key)
      × (p.store_path ≡ q.store_path)
      × (lookup p.store_path p.disk ≡ lookup q.store_path q.disk)

  persist-SameFile :
      (env : WriteEnv) (ps : PrekeyStore) (e : Error)
      → IsApart env ps.store_path
      → (persist_locked syntax aead env ps).1 ≡ some e
      → SameFile (persist_locked syntax aead env ps).0 ps
  unfolding persist_locked
  persist-SameFile env ps e apart h =
      elim (Result-cases (syntax.marshal (json_of_bundles ps.bundles))) [
        | inr (x, bad) ↦ rw (bad, persist_locked) (refl, refl, refl)
        | inl (plain, good) ↦ ground (
          arith,
          good,
          h,
          read_sealed-failed_save aead env ps.key ps.store_path plain ps.disk e apart,
        )
      ]

  load-SameFile :
      (p q : PrekeyStore)
      → SameFile p q
      → read_sealed aead none p.key p.store_path p.disk
        ≡ read_sealed aead none q.key q.store_path q.disk
  unfolding read_sealed
  load-SameFile p q (k, path, file) = ground (arith, file, k)

  reload-SameFile : (p q : PrekeyStore) → SameFile p q → reload p ≡ reload q
  unfolding load_from_disk
  reload-SameFile p q same = ground (arith, load-SameFile p q same)

  -- Where the write behind a served one-time prekey fails, under a temporary name of its own, the
  -- prekey is served all the same, and a restart loads what it would have loaded before the
  -- request.
  pub restart_after_failed_pop :
      (env : WriteEnv) (ps : PrekeyStore) (user : Text) (b : PrekeyBundle) (k : OneTimePrekey)
      (rest : List OneTimePrekey) (e : Error)
      → IsApart env ps.store_path
      → lookup user ps.bundles ≡ some b
      → b.one_time_prekeys ≡ k ∷ rest
      → (persist_locked syntax aead env
          (record ps { bundles = insert user (record b { one_time_prekeys = rest }) ps.bundles })).1
        ≡ some e
      → ((get_bundle_with_otpk syntax aead env ps user true).1
          ≡ some (record (static_response b) { one_time_prekey = some k }))
        × (reload (get_bundle_with_otpk syntax aead env ps user true).0 ≡ reload ps)
  restart_after_failed_pop env ps user b k rest e apart found h failed =
      get_cases syntax aead
        (λ r.
          (r.1 ≡ some (record (static_response b) { one_time_prekey = some k }))
          × (reload r.0 ≡ reload ps))
        env ps user true (λ n. cc) (λ c f d. absurd (ground (arith, found, f, d, h)))
        λ c k' rest' f _ h'.
          let q : c ≡ b = cc in
          let hk : k' ≡ k = cc in
          let hr : rest' ≡ rest = cc in
          let put : PrekeyStore = record ps {
            bundles = insert user (record b { one_time_prekeys = rest }) ps.bundles;
          } in
          rw (q, hk, hr)
            (
              refl,
              reload-SameFile (pop syntax aead env ps user b rest) ps
                  (persist-SameFile env put e apart failed),
            )
