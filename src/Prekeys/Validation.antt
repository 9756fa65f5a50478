-- ===== src/Prekeys/Validation.antt =====
-- `validatePrekeyBundle` and `checkBase64Len`.
use spectre_relay.Prelude.{
  ℕ, ◌≤◌, ◌≡◌, ◌≢◌, ◌↔◌, refl, Bool, true, false, not, ◌&&◌, ◌||◌, Option, none, some, List, [],
  ◌∷◌, if◌then◌else◌, ◌==◌, ltb, length, All, Text, arith,
}
use spectre_relay.Golib.Base64
use spectre_relay.Prekeys.Bundle.{OneTimePrekey, PrekeyBundle}

pub data BundleError : Type 0 where
  invalid_identity_key invalid_signed_prekey invalid_signed_prekey_sig : BundleError
  invalid_signed_prekey_id too_many_one_time_prekeys : BundleError
  invalid_one_time_prekey_key duplicate_one_time_prekey_id : BundleError

abbrev pub prekey_pub_key_len : ℕ
prekey_pub_key_len = 32

abbrev pub prekey_sig_len : ℕ
prekey_sig_len = 64

abbrev pub max_one_time_prekeys : ℕ
max_one_time_prekeys = 100

-- True where the source returns no error.
unfoldable pub check_base64_len : Text → ℕ → Bool
check_base64_len s want = let d = Base64.decode s in d.valid && (length d.bytes == want)

-- `seen[id]`
unfoldable pub is_seen : ℕ → List ℕ → Bool
is_seen id [] = false
is_seen id (x ∷ seen) = x == id || is_seen id seen

-- The loop over the one-time prekeys.
unfoldable pub check_one_time_prekeys : List ℕ → List OneTimePrekey → Option BundleError
check_one_time_prekeys seen [] = none
check_one_time_prekeys seen (p ∷ ps) =
    let rest = check_one_time_prekeys (p.id ∷ seen) ps in
    if not (check_base64_len p.key prekey_pub_key_len)
    then some invalid_one_time_prekey_key
    else if is_seen p.id seen
    then some duplicate_one_time_prekey_id
    else rest

unfoldable pub validate_prekey_bundle : PrekeyBundle → Option BundleError
validate_prekey_bundle b =
    if not (check_base64_len b.identity_key prekey_pub_key_len)
    then some invalid_identity_key
    else if not (check_base64_len b.signed_prekey prekey_pub_key_len)
    then some invalid_signed_prekey
    else if not (check_base64_len b.signed_prekey_sig prekey_sig_len)
    then some invalid_signed_prekey_sig
    else if b.signed_prekey_id == 0
    then some invalid_signed_prekey_id
    else if ltb max_one_time_prekeys (length b.one_time_prekeys)
    then some too_many_one_time_prekeys
    else check_one_time_prekeys [] b.one_time_prekeys

-- The text is base64 of so many bytes.
abbrev pub Encodes : Text → ℕ → Type 0
Encodes s n = ((Base64.decode s).valid ≡ true) × (length (Base64.decode s).bytes ≡ n)

-- No id of the list occurs among the others.
abbrev pub IsAbsent : ℕ → List OneTimePrekey → Type 0
IsAbsent id = All (λ p. p.id ≢ id)

abbrev pub AreDistinct : List OneTimePrekey → Type 0
AreDistinct [] = Unit {0}
AreDistinct (p ∷ ps) = IsAbsent p.id ps × AreDistinct ps

pub record IsWellFormed (b : PrekeyBundle) : Type 0 where
  pub identity : Encodes b.identity_key 32
  pub signed : Encodes b.signed_prekey 32
  pub signature : Encodes b.signed_prekey_sig 64
  pub signed_id : b.signed_prekey_id ≢ 0
  pub few : length b.one_time_prekeys ≤ 100
  pub keys : All (λ p. Encodes p.key 32) b.one_time_prekeys
  pub distinct : AreDistinct b.one_time_prekeys

check_base64_len-Encodes : (s : Text) (n : ℕ) → check_base64_len s n ≡ true → Encodes s n
unfolding check_base64_len
check_base64_len-Encodes s n h = ground arith

Encodes-check_base64_len : (s : Text) (n : ℕ) → Encodes s n → check_base64_len s n ≡ true
unfolding check_base64_len
Encodes-check_base64_len s n h = ground arith

abbrev AreUnseen : List ℕ → List OneTimePrekey → Type 0
AreUnseen seen = All (λ p. is_seen p.id seen ≡ false)

-- Marking one more id as seen.
AreUnseen-cons :
    (id : ℕ) (seen : List ℕ) (ps : List OneTimePrekey)
    → AreUnseen (id ∷ seen) ps ↔ (IsAbsent id ps × AreUnseen seen ps)
unfolding is_seen
AreUnseen-cons id seen [] = (λ _. (tt, tt), λ _. tt)
AreUnseen-cons id seen (p ∷ ps) =
    let ih = AreUnseen-cons id seen ps in
    (λ h. ground (arith, ih.0 h.1), λ h. ground (arith, ih.1 (h.0.1, h.1.1)))

loop_sound :
    (seen : List ℕ) (ps : List OneTimePrekey)
    → check_one_time_prekeys seen ps ≡ none
    → All (λ p. Encodes p.key 32) ps × AreDistinct ps × AreUnseen seen ps
unfolding check_one_time_prekeys
loop_sound seen [] h = (tt, tt, tt)
loop_sound seen (p ∷ ps) h =
    let good : check_base64_len p.key 32 ≡ true = ground arith in
    let new : is_seen p.id seen ≡ false = ground arith in
    let (keys, distinct, unseen) = loop_sound (p.id ∷ seen) ps (ground arith) in
    let (absent, rest) = (AreUnseen-cons p.id seen ps).0 unseen in
    ((check_base64_len-Encodes p.key 32 good, keys), (absent, distinct), (new, rest))

loop_complete :
    (seen : List ℕ) (ps : List OneTimePrekey)
    → All (λ p. Encodes p.key 32) ps
    → AreDistinct ps
    → AreUnseen seen ps
    → check_one_time_prekeys seen ps ≡ none
unfolding check_one_time_prekeys
loop_complete seen [] k d u = refl
loop_complete seen (p ∷ ps) k d u =
    rw (Encodes-check_base64_len p.key 32 k.0, u.0)
      (loop_complete (p.id ∷ seen) ps k.1 d.1 ((AreUnseen-cons p.id seen ps).1 (d.0, u.1)))

none-seen : (ps : List OneTimePrekey) → AreUnseen [] ps
unfolding is_seen
none-seen [] = tt
none-seen (p ∷ ps) = (refl, none-seen ps)

validate_sound : (b : PrekeyBundle) → validate_prekey_bundle b ≡ none → IsWellFormed b
unfolding validate_prekey_bundle
validate_sound b h =
    let loop : check_one_time_prekeys [] b.one_time_prekeys ≡ none = ground arith in
    let (keys, distinct, _) = loop_sound [] b.one_time_prekeys loop in
    record {
      identity = check_base64_len-Encodes b.identity_key 32 (ground arith);
      signed = check_base64_len-Encodes b.signed_prekey 32 (ground arith);
      signature = check_base64_len-Encodes b.signed_prekey_sig 64 (ground arith);
      signed_id = ground arith;
      few = ground arith;
      keys = keys;
      distinct = distinct;
    }

validate_complete : (b : PrekeyBundle) → IsWellFormed b → validate_prekey_bundle b ≡ none
unfolding validate_prekey_bundle
validate_complete b w = ground (
  arith,
  Encodes-check_base64_len b.identity_key 32 w.identity,
  Encodes-check_base64_len b.signed_prekey 32 w.signed,
  Encodes-check_base64_len b.signed_prekey_sig 64 w.signature,
  w.signed_id,
  loop_complete [] b.one_time_prekeys w.keys w.distinct (none-seen b.one_time_prekeys),
)

-- A bundle passes exactly when its keys and its signature are base64 of 32 and 64 bytes, the id of
-- its signed prekey is not 0, and it has at most 100 one-time prekeys, of 32 bytes and with
-- distinct ids.
pub validate_prekey_bundle-IsWellFormed :
    (b : PrekeyBundle) → (validate_prekey_bundle b ≡ none) ↔ IsWellFormed b
validate_prekey_bundle-IsWellFormed b = (validate_sound b, validate_complete b)
