-- ===== src/Files.antt =====
-- The encrypted files: how `persistLocked`, `loadFromDisk` and `loadOrCreateKey` of server/store.go
-- and `persistLocked` and `loadFromDisk` of server/prekey_store.go read and write the disk. The
-- outcome of each system call is an argument. A write is the list of the disks that it goes
-- through, newest first, so that a crash may be put between any two steps.
pub mod Atomic
pub mod Sealed
pub mod Keys
pub mod Survival
use spectre_relay.Prelude.{
  ℕ, Bool, true, false, Option, none, some, List, [], ◌∷◌, ◌++◌, if◌then◌else◌, ◌==◌, ltb, length,
  take, drop, is_empty, not, Text, Bytes, Result, ok, err, Error, not_exist, permission, other,
}
use spectre_relay.Prelude.Assoc.{Map, lookup, insert, remove}
use spectre_relay.Crypto.{Aead, new_gcm}

abbrev pub Disk : Type 0
Disk = Map Bytes

-- The outcomes of the calls of one write; `none` is a nil error.
pub record WriteEnv : Type 0 where
  pub nonce : Result Error Bytes
  pub temp : Result Error Text
  pub partial : Bytes
  pub write : Option Error
  pub chmod : Option Error
  pub close : Option Error
  pub rename : Option Error
  pub removed : Bool

-- The disks gone through, newest first, and the error returned.
pub record Written : Type 0 where
  pub states : List Disk
  pub error : Option Error

-- The disk at the end.
abbrev pub last_state : Disk → List Disk → Disk
last_state disk [] = disk
last_state disk (d ∷ ds) = d

-- `os.Remove(tmpName)`, whose own error is ignored.
abbrev clean : WriteEnv → Text → Disk → Disk
clean env tmp disk = if env.removed then remove tmp disk else disk

-- The write failed, or a later call on the temporary file did.
abbrev give_up : WriteEnv → Text → Disk → Error → List Disk → Written
give_up env tmp disk e states = record {
  states = clean env tmp disk ∷ disk ∷ states;
  error = some e;
}

abbrev rename_step : WriteEnv → Text → Text → Bytes → Disk → List Disk → Written
rename_step env path tmp content full states = elim env.rename [
  | none ↦ record { states = insert path content (remove tmp full) ∷ full ∷ states; error = none }
  | some e ↦ record { states = full ∷ states; error = some e }
]

-- From `os.CreateTemp` to `os.Rename`.
unfoldable pub replace_file : WriteEnv → Text → Bytes → Disk → Written
replace_file env path content disk = elim env.temp [
  | err e ↦ record { states = []; error = some e }
  | ok tmp ↦
      let created = insert tmp [] disk in
      let torn = insert tmp env.partial disk in
      let full = insert tmp content disk in
      elim env.write [
        | some e ↦ give_up env tmp torn e (created ∷ [])
        | none ↦ elim env.chmod [
          | some e ↦ give_up env tmp full e (torn ∷ created ∷ [])
          | none ↦ elim env.close [
            | some e ↦ give_up env tmp full e (torn ∷ created ∷ [])
            | none ↦ rename_step env path tmp content full (torn ∷ created ∷ [])
          ]
        ]
      ]
]

module _ (aead : Aead) where
  -- `encrypt` of server/store.go: the nonce, then the sealed text.
  unfoldable pub encrypt : Bytes → Result Error Bytes → Bytes → Result Error Bytes
  encrypt key nonce plain = elim (new_gcm key) [
    | some e ↦ err e
    | none ↦ elim nonce [ err e ↦ err e | ok n ↦ ok (n ++ aead.seal key n plain) ]
  ]

  abbrev opened : Option Bytes → Result Error Bytes
  opened none = err other
  opened (some plain) = ok plain

  unfoldable pub decrypt : Bytes → Bytes → Result Error Bytes
  decrypt key text = elim (new_gcm key) [
    | some e ↦ err e
    | none ↦
        if ltb (length text) aead.nonce_size
        then err other
        else opened (aead.open_sealed key (take aead.nonce_size text) (drop aead.nonce_size text))
  ]

  abbrev write_sealed : WriteEnv → Text → Disk → Result Error Bytes → Written
  write_sealed env path disk (err e) = record { states = []; error = some e }
  write_sealed env path disk (ok sealed) = replace_file env path sealed disk

  -- The common part of the two `persistLocked`: seal, and replace the file.
  unfoldable pub save : WriteEnv → Bytes → Text → Bytes → Disk → Written
  save env key path plain disk = write_sealed env path disk (encrypt key env.nonce plain)

  -- The common part of the two `loadFromDisk`; `none` is a file that is absent or empty. The first
  -- argument is an error of `os.ReadFile` other than that the file does not exist.
  unfoldable pub read_sealed : Option Error → Bytes → Text → Disk → Result Error (Option Bytes)
  read_sealed (some e) key path disk = err e
  read_sealed none key path disk = elim (lookup path disk) [
    | none ↦ ok none
    | some text ↦
        if is_empty text
        then ok none
        else elim (decrypt key text) [ err e ↦ err e | ok plain ↦ ok (some plain) ]
  ]

-- `loadOrCreateKey`: the outcomes of its calls, then the function.
pub record KeyEnv : Type 0 where
  pub read : Option Error
  pub random : Result Error Bytes
  pub make_dir : Option Error
  pub write : Option Error
  pub partial : Bytes

create_key : KeyEnv → Text → Disk → Disk × Result Error Bytes
create_key env path disk = elim env.random [
  | err e ↦ (disk, err e)
  | ok key ↦ elim env.make_dir [
    | some e ↦ (disk, err e)
    | none ↦ elim env.write [
      | some e ↦ (insert path env.partial disk, err e)
      | none ↦ (insert path key disk, ok key)
    ]
  ]
]

unfoldable pub load_or_create_key : KeyEnv → Text → Disk → Disk × Result Error Bytes
unfolding create_key
load_or_create_key env path disk = elim env.read [
  | some e ↦ (disk, err e)
  | none ↦ elim (lookup path disk) [
    | some key ↦ (disk, if length key == 32 then ok key else err other)
    | none ↦ create_key env path disk
  ]
]
