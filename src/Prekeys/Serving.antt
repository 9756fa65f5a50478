-- ===== src/Prekeys/Serving.antt =====
-- Histories of requests: each one-time prekey is served once.
use spectre_relay.Prelude.{
  ◌≡◌, ◌≢◌, refl, sym, ap, ◌∙◌, inl, inr, Bool, true, false, Option, none, some, List, [], ◌∷◌,
  ◌++◌, append_assoc, if◌then◌else◌, All, ◌↔◌, Text, text_eq, text_eq_iff, Bool-cases, arith,
}
use mathlib.Core.Option
use spectre_relay.Prelude.Assoc.{lookup, insert, lookup-insert}
use spectre_relay.Crypto.{Aead}
use spectre_relay.Json.{Syntax}
use spectre_relay.Files.{WriteEnv}
use spectre_relay.Prekeys.Bundle.{OneTimePrekey, PrekeyBundle}
use spectre_relay.Prekeys.Validation.{AreDistinct, IsWellFormed}
use spectre_relay.Prekeys.Invariant.{bundles-persist, get_cases, consume_cases}
use spectre_relay.Prekeys.{
  PrekeyStore, PrekeyResponse, static_response, pop, register_bundle, get_bundle_with_otpk,
  consume_one_time_prekey,
}

-- The calls that the store may see, each with the outcomes of its write.
pub data Request : Type 0 where
  fetch : WriteEnv → Text → Bool → Request
  take_one : WriteEnv → Text → Request
  publish : WriteEnv → Text → PrekeyBundle → Request

abbrev pub prekey_of : Option PrekeyResponse → Option OneTimePrekey
prekey_of none = none
prekey_of (some r) = r.one_time_prekey

module _ (syntax : Syntax) (aead : Aead) where
  -- The store after a request, and the one-time prekey that it handed out.
  unfoldable pub step : PrekeyStore → Request → PrekeyStore × Option OneTimePrekey
  step ps (fetch env user consume) =
      let (after, response) = get_bundle_with_otpk syntax aead env ps user consume in
      (after, prekey_of response)
  step ps (take_one env user) = consume_one_time_prekey syntax aead env ps user
  step ps (publish env user b) = ((register_bundle syntax aead env ps user b).0, none)

abbrev pub user_of : Request → Text
user_of (fetch env user consume) = user
user_of (take_one env user) = user
user_of (publish env user b) = user

-- No request of the history replaces the user's bundle.
abbrev pub NotPublished : Text → List Request → Type 0
NotPublished user [] = Unit {0}
NotPublished user (publish env u b ∷ rs) = (u ≢ user) × NotPublished user rs
NotPublished user (_ ∷ rs) = NotPublished user rs

-- What a request hands out of the user's pool.
abbrev handed : Text → Request → Option OneTimePrekey → List OneTimePrekey
handed user r none = []
handed user r (some k) = if text_eq (user_of r) user then k ∷ [] else []

module _ (syntax : Syntax) (aead : Aead) where
  -- All that a history hands out of the user's pool, in order.
  unfoldable pub served : Text → PrekeyStore → List Request → List OneTimePrekey
  served user ps [] = []
  served user ps (r ∷ rs) =
      let (after, key) = step syntax aead ps r in handed user r key ++ served user after rs

  unfoldable pub run : PrekeyStore → List Request → PrekeyStore
  run ps [] = ps
  run ps (r ∷ rs) = run (step syntax aead ps r).0 rs

  -- The bundle with other one-time prekeys.
  abbrev pub with_prekeys : PrekeyBundle → List OneTimePrekey → PrekeyBundle
  with_prekeys b l = record b { one_time_prekeys = l }

  -- What a request leaves of the user's bundle.
  abbrev Leaves : Text → PrekeyBundle → PrekeyStore → List OneTimePrekey → Type 0
  Leaves user b after handed_out =
      (rest : List OneTimePrekey) × (lookup user after.bundles ≡ some (with_prekeys b rest))
      × (b.one_time_prekeys ≡ handed_out ++ rest)

  lookup-pop :
      (env : WriteEnv) (ps : PrekeyStore) (user u : Text) (b : PrekeyBundle)
      (rest : List OneTimePrekey)
      → lookup user (pop syntax aead env ps u b rest).bundles
        ≡ (if text_eq u user then some (with_prekeys b rest) else lookup user ps.bundles)
  lookup-pop env ps user u b rest =
      rw
        (bundles-persist syntax aead env
          (record ps { bundles = insert u (with_prekeys b rest) ps.bundles }))
        (lookup-insert u user (with_prekeys b rest) ps.bundles)

  popped-Leaves :
      (env : WriteEnv) (ps : PrekeyStore) (user u : Text) (b c : PrekeyBundle) (k : OneTimePrekey)
      (rest : List OneTimePrekey)
      → lookup user ps.bundles ≡ some b
      → lookup u ps.bundles ≡ some c
      → c.one_time_prekeys ≡ k ∷ rest
      → Leaves user b (pop syntax aead env ps u c rest) (if text_eq u user then k ∷ [] else [])
  popped-Leaves env ps user u b c k rest e found h = elim (Bool-cases (text_eq u user)) [
    | inl same ↦
        let p : u ≡ user = (text_eq_iff u user).0 same in
        let q : c ≡ b = cc (ap (λ (t : Text). lookup t ps.bundles) p) in
        (rest, ground (arith, lookup-pop env ps user u c rest, same, q), ground (arith, same, q, h))
    | inr distinct ↦ (
      b.one_time_prekeys,
      ground (arith, lookup-pop env ps user u c rest, distinct),
      ground (arith, distinct),
    )
  ]

  -- Registering for another user does not touch the bundle.
  pub lookup-register_ne :
      (env : WriteEnv) (ps : PrekeyStore) (user u : Text) (c : PrekeyBundle)
      → u ≢ user
      → lookup user (register_bundle syntax aead env ps u c).0.bundles ≡ lookup user ps.bundles
  unfolding register_bundle
  lookup-register_ne env ps user u c ne = ground (
    arith,
    bundles-persist syntax aead env (record ps { bundles = insert u c ps.bundles }),
    lookup-insert u user c ps.bundles,
    text_eq_iff u user,
  )

  step-Leaves :
      (user : Text) (ps : PrekeyStore) (b : PrekeyBundle) (r : Request)
      → lookup user ps.bundles ≡ some b
      → NotPublished user (r ∷ [])
      → Leaves user b (step syntax aead ps r).0 (handed user r (step syntax aead ps r).1)
  unfolding step
  step-Leaves user ps b (fetch env u consume) e n =
      get_cases syntax aead
        (λ x. Leaves user b x.0 (handed user (fetch env u consume) (prekey_of x.1))) env ps u
        consume (λ _. (b.one_time_prekeys, e, refl))
        (λ c found _. unfold static_response in (b.one_time_prekeys, e, refl))
        (λ c k rest found _ h. popped-Leaves env ps user u b c k rest e found h)
  step-Leaves user ps b (take_one env u) e n =
      consume_cases syntax aead (λ x. Leaves user b x.0 (handed user (take_one env u) x.1)) env ps u
        (b.one_time_prekeys, e, refl)
        (λ c k rest found h. popped-Leaves env ps user u b c k rest e found h)
  step-Leaves user ps b (publish env u c) e n =
      (b.one_time_prekeys, lookup-register_ne env ps user u c n.0 ∙ e, refl)

  NotPublished-split :
      (user : Text) (r : Request) (rs : List Request)
      → NotPublished user (r ∷ rs)
      → NotPublished user (r ∷ []) × NotPublished user rs
  NotPublished-split user (fetch env u c) rs n = (tt, n)
  NotPublished-split user (take_one env u) rs n = (tt, n)
  NotPublished-split user (publish env u c) rs n = ((n.0, tt), n.1)

  -- Over any history of requests in which the user's bundle is not replaced, what is handed out of
  -- it, in order, and what is left of it make up the one-time prekeys that it had; nothing else of
  -- the bundle changes. Requests for other users, and writes that fail, make no difference.
  pub served-run :
      (user : Text) (ps : PrekeyStore) (b : PrekeyBundle) (rs : List Request)
      → lookup user ps.bundles ≡ some b
      → NotPublished user rs
      → (rest : List OneTimePrekey) × (lookup user (run ps rs).bundles ≡ some (with_prekeys b rest))
        × (b.one_time_prekeys ≡ served user ps rs ++ rest)
  unfolding served run
  served-run user ps b [] e n = (b.one_time_prekeys, e, refl)
  served-run user ps b (r ∷ rs) e n =
      let (n₁, n₂) = NotPublished-split user r rs n in
      let (l, found, split) = step-Leaves user ps b r e n₁ in
      let (rest, at_end, split') =
        served-run user (step syntax aead ps r).0 (with_prekeys b l) rs found n₂ in
      (
        rest,
        at_end,
        split
            ∙ ap (◌++◌ (handed user r (step syntax aead ps r).1)) split'
            ∙ sym (
                append_assoc (handed user r (step syntax aead ps r).1)
                  (served user (step syntax aead ps r).0 rs) rest),
      )

All-prefix {κ} :
    (P : OneTimePrekey → Type κ) (xs ys : List OneTimePrekey) → All P (xs ++ ys) → All P xs
All-prefix P [] ys h = tt
All-prefix P (x ∷ xs) ys h = (h.0, All-prefix P xs ys h.1)

AreDistinct-append : (xs ys : List OneTimePrekey) → AreDistinct (xs ++ ys) → AreDistinct xs
AreDistinct-append [] ys d = tt
AreDistinct-append (p ∷ xs) ys d = (All-prefix _ xs ys d.0, AreDistinct-append xs ys d.1)

module _ (syntax : Syntax) (aead : Aead) where
  -- No id is handed out twice from a well-formed bundle until the user replaces it, whoever asks
  -- and whether or not the writes succeed.
  pub served-AreDistinct :
      (user : Text) (ps : PrekeyStore) (b : PrekeyBundle) (rs : List Request)
      → IsWellFormed b
      → lookup user ps.bundles ≡ some b
      → NotPublished user rs
      → AreDistinct (served syntax aead user ps rs)
  served-AreDistinct user ps b rs w e n =
      let (rest, _, split) = served-run syntax aead user ps b rs e n in
      AreDistinct-append (served syntax aead user ps rs) rest (rw split at w.distinct)

  -- A throttled request changes nothing, and its answer is the one that a user without one-time
  -- prekeys gets; only a user with no bundle gets none, throttled or not.
  pub get_bundle_throttled :
      (env : WriteEnv) (ps : PrekeyStore) (user : Text)
      → (get_bundle_with_otpk syntax aead env ps user false
          ≡ (ps, Option.map static_response (lookup user ps.bundles)))
        × ((b : PrekeyBundle)
            → lookup user ps.bundles ≡ some b
            → b.one_time_prekeys ≡ []
            → get_bundle_with_otpk syntax aead env ps user true
              ≡ get_bundle_with_otpk syntax aead env ps user false)
        × ((consume : Bool)
            → ((get_bundle_with_otpk syntax aead env ps user consume).1 ≡ none)
              ↔ (lookup user ps.bundles ≡ none))
  get_bundle_throttled env ps user = (
    get_cases syntax aead (λ r. r ≡ (ps, Option.map static_response (lookup user ps.bundles))) env
        ps user false (λ e. rw e) (λ b e _. rw e) (λ b k rest e c h. cc),
    λ b e h. get_empty b e h true ∙ sym (get_empty b e h false),
    λ consume.
        get_cases syntax aead (λ r. (r.1 ≡ none) ↔ (lookup user ps.bundles ≡ none)) env ps user
          consume (λ e. (λ _. e, λ _. refl)) (λ b e _. (λ h. cc, λ h. cc))
          (λ b k rest e _ _. (λ h. cc, λ h. cc)),
  )
    where
      get_empty :
          (b : PrekeyBundle)
          → lookup user ps.bundles ≡ some b
          → b.one_time_prekeys ≡ []
          → (consume : Bool)
          → get_bundle_with_otpk syntax aead env ps user consume ≡ (ps, some (static_response b))
      get_empty b e h consume =
          get_cases syntax aead (λ r. r ≡ (ps, some (static_response b))) env ps user consume
            (λ n. cc) (λ c f _. cc) (λ c k rest f _ g. cc)
