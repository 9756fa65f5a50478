-- ===== src/Prekeys/Bundle.antt =====
-- The records of server/prekey_store.go, and their JSON.
use spectre_relay.Prelude.{ℕ, ◌^◌, ◌&&◌, List, [], ◌∷◌, if◌then◌else◌, Text, codes, text_eq}
use spectre_relay.Prelude.Int.{pos}
use spectre_relay.Prelude.Assoc.{Map, insert, remove}
use spectre_relay.Json.{
  Json, Items, Members, Number, Stored, stored, mistyped, in_field, store_text, store_uint,
  store_struct, fold_name,
}

pub record OneTimePrekey : Type 0 where
  pub id : ℕ
  pub key : Text

pub record PrekeyBundle : Type 0 where
  pub identity_key : Text
  pub signed_prekey : Text
  pub signed_prekey_sig : Text
  pub signed_prekey_id : ℕ
  pub one_time_prekeys : List OneTimePrekey

abbrev no_prekey : OneTimePrekey
no_prekey = record { id = 0; key = [] }

abbrev pub no_bundle : PrekeyBundle
no_bundle = record {
  identity_key = [];
  signed_prekey = [];
  signed_prekey_sig = [];
  signed_prekey_id = 0;
  one_time_prekeys = [];
}

-- The ids are `uint32`.
abbrev pub store_uint32 : ℕ → Json → Stored ℕ
store_uint32 = store_uint (2 ^ 32)

unfoldable pub prekey_rule : Text → Json → OneTimePrekey → Stored OneTimePrekey
prekey_rule key v p =
    let k = fold_name key in
    if text_eq k (codes "id")
    then in_field (λ n. record p { id = n }) (store_uint32 p.id v)
    else if text_eq k (codes "key")
    then in_field (λ s. record p { key = s }) (store_text p.key v)
    else stored p

-- The old elements of a slice that is decoded into are decoded into again.
abbrev head_of : List OneTimePrekey → OneTimePrekey
head_of [] = no_prekey
head_of (p ∷ ps) = p

abbrev tail_of : List OneTimePrekey → List OneTimePrekey
tail_of [] = []
tail_of (p ∷ ps) = ps

unfoldable pub store_prekeys : List OneTimePrekey → Items → Stored (List OneTimePrekey)
store_prekeys old Items.end = stored []
store_prekeys old (Items.item v vs) =
    let rest = store_prekeys (tail_of old) vs in
    let p = store_struct prekey_rule (head_of old) v in
    record { value = p.value ∷ rest.value; valid = p.valid && rest.valid }

-- A second array for the field goes over the elements of the first. (What lies behind the end of a
-- slice that a third array makes longer again is not kept here.)
unfoldable pub store_prekey_list : List OneTimePrekey → Json → Stored (List OneTimePrekey)
unfolding store_prekeys prekey_rule
store_prekey_list old Json.null = stored []
store_prekey_list old (Json.array vs) = store_prekeys old vs
store_prekey_list old _ = mistyped old

unfoldable pub bundle_rule : Text → Json → PrekeyBundle → Stored PrekeyBundle
bundle_rule key v b =
    let k = fold_name key in
    if text_eq k (codes "identity_key")
    then in_field (λ s. record b { identity_key = s }) (store_text b.identity_key v)
    else if text_eq k (codes "signed_prekey")
    then in_field (λ s. record b { signed_prekey = s }) (store_text b.signed_prekey v)
    else if text_eq k (codes "signed_prekey_sig")
    then in_field (λ s. record b { signed_prekey_sig = s }) (store_text b.signed_prekey_sig v)
    else if text_eq k (codes "signed_prekey_id")
    then in_field (λ n. record b { signed_prekey_id = n }) (store_uint32 b.signed_prekey_id v)
    else if text_eq k (codes "one_time_prekeys")
    then in_field (λ l. record b { one_time_prekeys = l }) (store_prekey_list b.one_time_prekeys v)
    else stored b

-- What `json.Marshal` prints. A nil slice is printed as null and an empty one as `[]`;
-- both read back as no prekeys, and `[]` is taken here.
json_of_prekey : OneTimePrekey → Json
json_of_prekey p = Json.object (
    Members.member (codes "id") (Json.number (Number.int64 (pos p.id)))
      (Members.member (codes "key") (Json.string p.key) Members.nil))

unfoldable pub json_of_prekeys : List OneTimePrekey → Items
unfolding json_of_prekey
json_of_prekeys [] = Items.end
json_of_prekeys (p ∷ ps) = Items.item (json_of_prekey p) (json_of_prekeys ps)

unfoldable pub json_of_bundle : PrekeyBundle → Json
json_of_bundle b = Json.object (
    Members.member (codes "identity_key") (Json.string b.identity_key) (
      Members.member (codes "signed_prekey") (Json.string b.signed_prekey) (
        Members.member (codes "signed_prekey_sig") (Json.string b.signed_prekey_sig) (
          Members.member (codes "signed_prekey_id")
            (Json.number (Number.int64 (pos b.signed_prekey_id)))
            (Members.member (codes "one_time_prekeys")
              (Json.array (json_of_prekeys b.one_time_prekeys)) Members.nil)))))

-- `map[string]*PrekeyBundle`. (Go prints the keys sorted; their order is not read back.)
unfoldable pub entries : Map PrekeyBundle → Members
unfolding json_of_bundle
entries [] = Members.nil
entries ((user, b) ∷ m) = Members.member user (json_of_bundle b) (entries m)

unfoldable pub json_of_bundles : Map PrekeyBundle → Json
unfolding entries
json_of_bundles m = Json.object (entries m)

-- The decoded map, and the loop of `loadFromDisk` over it, which skips nil pointers: null for a user
-- makes the pointer nil, whatever stood there before.
unfoldable pub load_members : Map PrekeyBundle → Members → Stored (Map PrekeyBundle)
unfolding bundle_rule
load_members m Members.nil = stored m
load_members m (Members.member user Json.null ms) = load_members (remove user m) ms
load_members m (Members.member user v ms) =
    let b = store_struct bundle_rule no_bundle v in
    let rest = load_members (insert user b.value m) ms in
    record { value = rest.value; valid = b.valid && rest.valid }
