-- ===== src/Store/Stopping.antt =====
-- `Stop` of server/store.go: the channel of the purge loop, and the two handles of the database.
use spectre_relay.Prelude.{
  ◌≡◌, refl, Bool, true, false, Option, none, some, if◌then◌else◌, Bool-cases, inl, inr,
}

-- What is closed.
pub record Handles : Type 0 where
  pub stop_ch : Bool
  pub conn : Bool
  pub db : Bool

-- Go's `close`; `none` is the panic on a channel that is closed.
abbrev close : Bool → Option Bool
close true = none
close false = some true

-- The select, which closes the channel unless it is closed.
abbrev closed_once : Bool → Option Bool
closed_once c = if c then some c else close c

abbrev then_handles : Handles → Option Bool → Option Handles
then_handles h none = none
then_handles h (some c) = some (record { stop_ch = c; conn = true; db = true })

-- Closing a handle again is an error that is dropped.
unfoldable pub stop : Handles → Option Handles
stop h = then_handles h (closed_once h.stop_ch)

-- `Stop` does not panic, whatever is closed already, closes everything, and may be called again
-- after it has returned.
stop_again :
    (h : Handles)
    → (t : Handles) × (stop h ≡ some t)
      × (t.stop_ch ≡ true)
      × (t.conn ≡ true)
      × (t.db ≡ true)
      × (stop t ≡ some t)
unfolding stop
stop_again h =
    let all : Handles = record { stop_ch = true; conn = true; db = true } in
    elim (Bool-cases h.stop_ch) [
      | inl closed ↦ (all, rw closed refl, refl, refl, refl, refl)
      | inr open_ch ↦ (all, rw open_ch refl, refl, refl, refl, refl)
    ]
