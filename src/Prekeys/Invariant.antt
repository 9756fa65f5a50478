-- ===== src/Prekeys/Invariant.antt =====
-- Every bundle that the store holds is well formed.
use spectre_relay.Prelude.{
  ◌≡◌, ◌≢◌, refl, ◌⊎◌, inl, inr, Bool, true, false, Option, none, some, List, [], ◌∷◌, length, ap,
  Text, text_eq_iff, Option-cases, Result-cases, arith,
}
use spectre_relay.Prelude.Assoc.{lookup, insert, lookup-insert}
use spectre_relay.Crypto.{Aead}
use spectre_relay.Json.{Syntax}
use spectre_relay.Files.{WriteEnv}
use spectre_relay.Prekeys.Bundle.{OneTimePrekey, PrekeyBundle, json_of_bundles}
use spectre_relay.Prekeys.Validation.{
  validate_prekey_bundle, IsWellFormed, validate_prekey_bundle-IsWellFormed,
}
use spectre_relay.Prekeys.{
  PrekeyStore, PrekeyResponse, persist_locked, register_bundle, get_bundle_with_otpk,
  consume_one_time_prekey, static_response, pop, serve, consume_from,
}

pub record IsSound (ps : PrekeyStore) : Type 0 where
  pub at :
      (user : Text) (b : PrekeyBundle)
      → lookup user ps.bundles ≡ some b
      → IsWellFormed b × (user ≢ [])

IsWellFormed-tail :
    (b : PrekeyBundle) (k : OneTimePrekey) (rest : List OneTimePrekey)
    → b.one_time_prekeys ≡ k ∷ rest
    → IsWellFormed b
    → IsWellFormed (record b { one_time_prekeys = rest })
IsWellFormed-tail b k rest e w = record {
  identity = w.identity;
  signed = w.signed;
  signature = w.signature;
  signed_id = w.signed_id;
  few = omega (arith, ap length e);
  keys = (rw e at w.keys).1;
  distinct = (rw e at w.distinct).1;
}

module _ (syntax : Syntax) (aead : Aead) where
  -- Writing the file does not touch the map.
  pub bundles-persist :
      (env : WriteEnv) (ps : PrekeyStore)
      → (persist_locked syntax aead env ps).0.bundles ≡ ps.bundles
  unfolding persist_locked
  bundles-persist env ps = elim (Result-cases (syntax.marshal (json_of_bundles ps.bundles))) [
    | inl (plain, e) ↦ ground (arith, e)
    | inr (x, e) ↦ ground (arith, e)
  ]

  put-IsSound :
      (env : WriteEnv) (ps : PrekeyStore) (user : Text) (b : PrekeyBundle)
      → IsSound ps
      → IsWellFormed b
      → user ≢ []
      → IsSound
          (persist_locked syntax aead env (record ps { bundles = insert user b ps.bundles })).0
  put-IsSound env ps user b s w named = record {
    at = λ u c h. ground (
      arith,
      s.at u c,
      bundles-persist env (record ps { bundles = insert user b ps.bundles }),
      lookup-insert user u b ps.bundles,
      text_eq_iff user u,
    );
  }

  -- The three ways in which a request for a bundle ends.
  pub get_cases {ℓ} :
      (P : PrekeyStore × Option PrekeyResponse → Type ℓ) (env : WriteEnv) (ps : PrekeyStore)
      (user : Text) (consume : Bool)
      → (lookup user ps.bundles ≡ none → P (ps, none))
      → ((b : PrekeyBundle)
          → lookup user ps.bundles ≡ some b
          → (consume ≡ false) ⊎ (b.one_time_prekeys ≡ [])
          → P (ps, some (static_response b)))
      → ((b : PrekeyBundle) (k : OneTimePrekey) (rest : List OneTimePrekey)
          → lookup user ps.bundles ≡ some b
          → consume ≡ true
          → b.one_time_prekeys ≡ k ∷ rest
          → P (
            pop syntax aead env ps user b rest,
            some (record (static_response b) { one_time_prekey = some k }),
          ))
      → P (get_bundle_with_otpk syntax aead env ps user consume)
  unfolding get_bundle_with_otpk
  get_cases P env ps user consume absent plain popped =
      elim (Option-cases (lookup user ps.bundles)) [
        | inl e ↦ rw (e, get_bundle_with_otpk) (absent e)
        | inr (b, e) ↦
            rw (e, get_bundle_with_otpk) (by_prekeys b e consume b.one_time_prekeys refl refl)
      ]
    where
      by_prekeys :
          (b : PrekeyBundle)
          → lookup user ps.bundles ≡ some b
          → (c : Bool) (l : List OneTimePrekey) → consume ≡ c
          → b.one_time_prekeys ≡ l
          → P (let r = serve syntax aead env ps user b c l in (r.0, some r.1))
      by_prekeys b e c [] hc h = plain b e (inr h)
      by_prekeys b e true (k ∷ rest) hc h = popped b k rest e hc h
      by_prekeys b e false (k ∷ rest) hc h = plain b e (inl hc)

  -- The two ways in which a request for a one-time prekey alone ends.
  pub consume_cases {ℓ} :
      (P : PrekeyStore × Option OneTimePrekey → Type ℓ) (env : WriteEnv) (ps : PrekeyStore)
      (user : Text)
      → P (ps, none)
      → ((b : PrekeyBundle) (k : OneTimePrekey) (rest : List OneTimePrekey)
          → lookup user ps.bundles ≡ some b
          → b.one_time_prekeys ≡ k ∷ rest
          → P (pop syntax aead env ps user b rest, some k))
      → P (consume_one_time_prekey syntax aead env ps user)
  unfolding consume_one_time_prekey
  consume_cases P env ps user absent popped = elim (Option-cases (lookup user ps.bundles)) [
    | inl e ↦ rw (e, consume_one_time_prekey) absent
    | inr (b, e) ↦ rw (e, consume_one_time_prekey) (by_prekeys b e b.one_time_prekeys refl)
  ]
    where
      by_prekeys :
          (b : PrekeyBundle)
          → lookup user ps.bundles ≡ some b
          → (l : List OneTimePrekey) → b.one_time_prekeys ≡ l
          → P (consume_from syntax aead env ps user b l)
      by_prekeys b e [] h = absent
      by_prekeys b e (k ∷ rest) h = popped b k rest e h

  get-IsSound :
      (env : WriteEnv) (ps : PrekeyStore) (user : Text) (consume : Bool)
      → IsSound ps
      → IsSound (get_bundle_with_otpk syntax aead env ps user consume).0
  get-IsSound env ps user consume s =
      get_cases (λ r. IsSound r.0) env ps user consume (λ _. s) (λ b _ _. s)
        (λ b k rest e _ h.
          put-IsSound env ps user (record b { one_time_prekeys = rest }) s
            (IsWellFormed-tail b k rest h (s.at user b e).0) (s.at user b e).1)

  register-IsSound :
      (env : WriteEnv) (ps : PrekeyStore) (user : Text) (b : PrekeyBundle)
      → IsSound ps
      → IsSound (register_bundle syntax aead env ps user b).0
  unfolding register_bundle
  register-IsSound env ps [] b s = s
  register-IsSound env ps (c ∷ user) b s = elim (Option-cases (validate_prekey_bundle b)) [
    | inl e ↦
        rw (e, register_bundle)
          (put-IsSound env ps (c ∷ user) b s ((validate_prekey_bundle-IsWellFormed b).0 e)
            (λ p. cc))
    | inr (x, e) ↦ rw (e, register_bundle) s
  ]

  consume-IsSound :
      (env : WriteEnv) (ps : PrekeyStore) (user : Text)
      → IsSound ps
      → IsSound (consume_one_time_prekey syntax aead env ps user).0
  consume-IsSound env ps user s =
      consume_cases (λ r. IsSound r.0) env ps user s
        (λ b k rest e h.
          put-IsSound env ps user (record b { one_time_prekeys = rest }) s
            (IsWellFormed-tail b k rest h (s.at user b e).0) (s.at user b e).1)

  -- Registering, serving and consuming, also where a check or a write fails, keep every bundle of
  -- the store well formed and under a name that is not empty.
  pub operations-IsSound :
      (env : WriteEnv) (ps : PrekeyStore) (user : Text)
      → IsSound ps
      → ((b : PrekeyBundle) → IsSound (register_bundle syntax aead env ps user b).0)
        × ((consume : Bool) → IsSound (get_bundle_with_otpk syntax aead env ps user consume).0)
        × IsSound (consume_one_time_prekey syntax aead env ps user).0
  operations-IsSound env ps user s = (
    λ b. register-IsSound env ps user b s,
    λ consume. get-IsSound env ps user consume s,
    consume-IsSound env ps user s,
  )
