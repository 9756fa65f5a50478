-- ===== src/Router/Addresses.antt =====
-- `isLocalRelay` of server/router.go.
use spectre_relay.Prelude.{
  ◌≡◌, ◌↔◌, ◌⊎◌, Bool, true, false, not, ◌&&◌, Option, none, some, [], if◌then◌else◌, is_empty,
  Text, text_eq, text_eq_iff, text_eq_refl, arith,
}
use spectre_relay.Golib.Strings.{split_host_port}

-- The host and the port of an address; one that does not split is a host without a port.
abbrev pub host_port : Text → Option (Text × Text) → Text × Text
host_port s none = (s, [])
host_port s (some hp) = hp

abbrev pub address : Text → Text × Text
address s = host_port s (split_host_port s)

unfoldable pub is_local_relay : Text → Text → Bool
is_local_relay domain relay_id =
    let d = address domain in
    let r = address relay_id in
    if not (text_eq d.0 r.0)
    then false
    else if not (is_empty d.1) && not (text_eq d.1 r.1)
    then false
    else true

-- A domain is local exactly when its host is that of the relay and its port, if it names one, is
-- the relay's. So the relay's own id is local to it.
pub is_local_relay_iff :
    (domain relay_id : Text)
    → ((is_local_relay domain relay_id ≡ true) ↔ (
        ((address domain).0 ≡ (address relay_id).0)
        × (((address domain).1 ≡ []) ⊎ ((address domain).1 ≡ (address relay_id).1))))
      × (is_local_relay relay_id relay_id ≡ true)
unfolding is_local_relay
is_local_relay_iff domain relay_id =
    let d = address domain in
    let r = address relay_id in
    (
      (
        λ h. ground (arith, text_eq_iff d.0 r.0, text_eq_iff d.1 r.1),
        λ h. ground (arith, text_eq_iff d.0 r.0, text_eq_iff d.1 r.1),
      ),
      ground (arith, text_eq_refl r.0, text_eq_refl r.1),
    )
