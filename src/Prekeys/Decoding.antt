-- ===== src/Prekeys/Decoding.antt =====
-- What is decoded into a bundle has ids that fit their type, whatever the text holds.
use spectre_relay.Prelude.{
  ℕ, ◌^◌, ◌<◌, inl, inr, Bool, Option, none, some, List, [], ◌∷◌, All, Text, Option-cases, arith,
}
use spectre_relay.Prelude.Int.{pos, negsuc}
use spectre_relay.Prelude.Assoc.{Map, insert, remove, lookup-remove}
use spectre_relay.Json.{
  Syntax, Json, null, bool, number, string, array, object, int64, minus_zero, not_int64, Items, end,
  item, Members, nil, member, Stored, store_uint, store_members, store_struct, store_document,
}
use spectre_relay.Prekeys.Bundle.{
  OneTimePrekey, PrekeyBundle, no_bundle, prekey_rule, store_prekeys, store_prekey_list,
  bundle_rule, load_members,
}
use spectre_relay.Prekeys.Restart.{FitsUint32, IsMap}
use spectre_relay.Prekeys.Survival.{insert-IsMap, lookup-FitsUint32}
use spectre_relay.Prekeys.Invariant.{bundles-persist, get_cases}
use spectre_relay.Prekeys.Validation.{validate_prekey_bundle}
use spectre_relay.Prekeys.{
  PrekeyStore, persist_locked, put_bundle, register_bundle, get_bundle_with_otpk,
}
use spectre_relay.Crypto.{Aead}
use spectre_relay.Files.{WriteEnv}

store_uint-lt : (bound old : ℕ) (v : Json) → old < bound → (store_uint bound old v).value < bound
unfolding store_uint
store_uint-lt bound old (number (int64 (pos n))) h = ground arith
store_uint-lt bound old (number (int64 (negsuc n))) h = h
store_uint-lt bound old (number minus_zero) h = h
store_uint-lt bound old (number not_int64) h = h
store_uint-lt bound old null h = h
store_uint-lt bound old (bool b) h = h
store_uint-lt bound old (string s) h = h
store_uint-lt bound old (array vs) h = h
store_uint-lt bound old (object ms) h = h

-- What the rule of a struct keeps for each member, decoding keeps.
pub store_struct_keeps {ℓ κ} :
    {S : Type ℓ} (P : S → Type κ) (rule : Text → Json → S → Stored S)
    → ((k : Text) (v : Json) (s : S) → P s → P (rule k v s).value)
    → (s : S) (v : Json) → P s
    → P (store_struct rule s v).value
unfolding store_struct store_members
store_struct_keeps {S} P rule keeps s v h = by_value v
  where
    members : (ms : Members) (t : S) → P t → P (store_members rule t ms).value
    members nil t p = p
    members (member k v ms) t p = members ms (rule k v t).value (keeps k v t p)

    by_value : (v : Json) → P (store_struct rule s v).value
    by_value (object ms) = members ms s h
    by_value null = h
    by_value (bool b) = h
    by_value (number n) = h
    by_value (string t) = h
    by_value (array vs) = h

pub store_document_keeps {ℓ κ} :
    {S : Type ℓ} (P : S → Type κ) (rule : Text → Json → S → Stored S)
    → ((k : Text) (v : Json) (s : S) → P s → P (rule k v s).value)
    → (s : S) (d : Option Json) → P s
    → P (store_document rule s d).value
unfolding store_document
store_document_keeps P rule keeps s none h = h
store_document_keeps P rule keeps s (some v) h = store_struct_keeps P rule keeps s v h

abbrev Fits : OneTimePrekey → Type 0
Fits p = p.id < 2 ^ 32

prekey_rule-Fits :
    (k : Text) (v : Json) (p : OneTimePrekey) → Fits p → Fits (prekey_rule k v p).value
unfolding prekey_rule
prekey_rule-Fits k v p h = ground (arith, store_uint-lt (2 ^ 32) p.id v h)

store_prekeys-Fits :
    (old : List OneTimePrekey) (vs : Items) → All Fits old → All Fits (store_prekeys old vs).value
unfolding store_prekeys
store_prekeys-Fits old end h = tt
store_prekeys-Fits [] (item v vs) h = (
  store_struct_keeps Fits prekey_rule prekey_rule-Fits _ v (omega arith),
  store_prekeys-Fits [] vs tt,
)
store_prekeys-Fits (p ∷ old) (item v vs) h =
    (store_struct_keeps Fits prekey_rule prekey_rule-Fits p v h.0, store_prekeys-Fits old vs h.1)

store_prekey_list-Fits :
    (old : List OneTimePrekey) (v : Json) → All Fits old → All Fits (store_prekey_list old v).value
unfolding store_prekey_list
store_prekey_list-Fits old null h = tt
store_prekey_list-Fits old (array vs) h = store_prekeys-Fits old vs h
store_prekey_list-Fits old (bool b) h = h
store_prekey_list-Fits old (number n) h = h
store_prekey_list-Fits old (string t) h = h
store_prekey_list-Fits old (object ms) h = h

pub bundle_rule-FitsUint32 :
    (k : Text) (v : Json) (b : PrekeyBundle) → FitsUint32 b → FitsUint32 (bundle_rule k v b).value
unfolding bundle_rule
bundle_rule-FitsUint32 k v b h = ground (
  arith,
  store_uint-lt (2 ^ 32) b.signed_prekey_id v h.signed,
  store_prekey_list-Fits b.one_time_prekeys v h.one_time,
)

pub store_bundle-FitsUint32 :
    (b : PrekeyBundle) (v : Json) → FitsUint32 b → FitsUint32 (store_struct bundle_rule b v).value
store_bundle-FitsUint32 b v h =
    store_struct_keeps FitsUint32 bundle_rule bundle_rule-FitsUint32 b v h

pub no_bundle-FitsUint32 : FitsUint32 no_bundle
no_bundle-FitsUint32 = record { signed = omega arith; one_time = tt }

remove-IsMap : (user : Text) (m : Map PrekeyBundle) → IsMap m → IsMap (remove user m)
unfolding remove
remove-IsMap user [] h = tt
remove-IsMap user ((u, b) ∷ m) h =
    ground (arith, h.0, h.1, remove-IsMap user m h.2, lookup-remove user u m)

-- What is loaded from the disk is a map whose ids fit.
pub load_members-IsMap :
    (m : Map PrekeyBundle) (ms : Members) → IsMap m → IsMap (load_members m ms).value
unfolding load_members
load_members-IsMap m nil h = h
load_members-IsMap m (member user null ms) h =
    load_members-IsMap (remove user m) ms (remove-IsMap user m h)
load_members-IsMap m (member user v ms) h =
    load_members-IsMap (insert user _ m) ms
      (insert-IsMap user _ m h (store_bundle-FitsUint32 no_bundle v no_bundle-FitsUint32))

module _ (syntax : Syntax) (aead : Aead) where
  put-IsMap :
      (env : WriteEnv) (ps : PrekeyStore) (user : Text) (b : PrekeyBundle)
      → IsMap ps.bundles
      → FitsUint32 b
      → IsMap (persist_locked syntax aead env (put_bundle syntax aead ps user b)).0.bundles
  put-IsMap env ps user b h f =
      rw (bundles-persist syntax aead env (put_bundle syntax aead ps user b))
        (insert-IsMap user b ps.bundles h f)

  pub register-IsMap :
      (env : WriteEnv) (ps : PrekeyStore) (user : Text) (b : PrekeyBundle)
      → IsMap ps.bundles
      → FitsUint32 b
      → IsMap (register_bundle syntax aead env ps user b).0.bundles
  unfolding register_bundle
  register-IsMap env ps [] b h f = h
  register-IsMap env ps (c ∷ user) b h f = elim (Option-cases (validate_prekey_bundle b)) [
    | inr (x, e) ↦ rw (e, register_bundle) h
    | inl e ↦ rw (e, register_bundle) (put-IsMap env ps (c ∷ user) b h f)
  ]

  pub get-IsMap :
      (env : WriteEnv) (ps : PrekeyStore) (user : Text) (consume : Bool)
      → IsMap ps.bundles
      → IsMap (get_bundle_with_otpk syntax aead env ps user consume).0.bundles
  get-IsMap env ps user consume h =
      get_cases syntax aead (λ r. IsMap r.0.bundles) env ps user consume (λ _. h) (λ b _ _. h)
        (λ b k rest e _ l.
          let f = lookup-FitsUint32 user b ps.bundles h e in
          put-IsMap env ps user (record b { one_time_prekeys = rest }) h
            (record { signed = f.signed; one_time = (rw l at f.one_time).1 }))
