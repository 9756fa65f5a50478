-- ===== src/Files/Keys.antt =====
-- The key files of the two stores.
use spectre_relay.Prelude.{
  ◌≡◌, ◌≢◌, [], none, some, length, Text, Bytes, ok, err, Error, other, arith, inl, inr,
  Option-cases, Result-cases,
}
use spectre_relay.Prelude.Assoc.{lookup}
use spectre_relay.Files.{Disk, KeyEnv, load_or_create_key}
use spectre_relay.Files.Atomic.{insert_same, insert_other}

-- A fresh key has as many bytes as were asked for.
abbrev pub FillsBuffer : KeyEnv → Type 0
FillsBuffer env = (key : Bytes) → env.random ≡ ok key → length key ≡ 32

-- The key that is returned stands in the file.
pub lookup-load_or_create_key :
    (env : KeyEnv) (path : Text) (disk : Disk) (key : Bytes)
    → FillsBuffer env
    → (load_or_create_key env path disk).1 ≡ ok key
    → (lookup path (load_or_create_key env path disk).0 ≡ some key) × (length key ≡ 32)
unfolding load_or_create_key
lookup-load_or_create_key env path disk key sized h = elim (Option-cases (lookup path disk)) [
  | inr (old, there) ↦ (ground (arith, there, h), ground (arith, there, h))
  | inl missing ↦ elim (Result-cases env.random) [
    | inr (e, bad) ↦ ground (arith, missing, bad, h)
    | inl (fresh, drawn) ↦ (
      ground (arith, missing, drawn, h, insert_same path fresh disk),
      ground (arith, missing, drawn, h, sized fresh drawn),
    )
  ]
]

-- If fresh keys have 32 bytes, a key that is returned has 32 bytes and stands in the file, so that
-- every later start that can read the file returns the same key and leaves the disk alone.
pub load_or_create_key_stable :
    (env later : KeyEnv) (path : Text) (disk : Disk) (key : Bytes)
    → FillsBuffer env
    → (load_or_create_key env path disk).1 ≡ ok key
    → later.read ≡ none
    → (length key ≡ 32)
      × (load_or_create_key later path (load_or_create_key env path disk).0
          ≡ ((load_or_create_key env path disk).0, ok key))
unfolding load_or_create_key
load_or_create_key_stable env later path disk key sized h clear =
    elim (Option-cases (lookup path disk)) [
      | inr (old, there) ↦ (ground (arith, there, h), ground (arith, there, h, clear))
      | inl missing ↦ elim (Result-cases env.random) [
        | inr (e, bad) ↦ ground (arith, missing, bad, h)
        | inl (fresh, drawn) ↦ (
          ground (arith, missing, drawn, h, sized fresh drawn),
          ground (arith, missing, drawn, h, clear, sized fresh drawn, insert_same path fresh disk),
        )
      ]
    ]

-- A file of any other length is refused, whatever else happens, and nothing is written over it.
pub load_or_create_key_bad_length :
    (env : KeyEnv) (path : Text) (disk : Disk) (old : Bytes)
    → lookup path disk ≡ some old
    → (length old ≡ 32 → ⊥)
    → (e : Error) × (load_or_create_key env path disk ≡ (disk, err e))
unfolding load_or_create_key
load_or_create_key_bad_length env path disk old there ne = elim (Option-cases env.read) [
  | inr (e, bad) ↦ (e, ground (arith, bad))
  | inl clear ↦ (other, ground (arith, clear, there))
]

-- The key file is the only one that appears.
pub load_or_create_key-other :
    (env : KeyEnv) (path other_path : Text)
    → path ≢ other_path
    → lookup other_path (load_or_create_key env path []).0 ≡ none
unfolding load_or_create_key lookup
load_or_create_key-other env path other_path apart = elim (Result-cases env.random) [
  | inr (_, bad) ↦ ground (arith, bad)
  | inl (key, drawn) ↦ ground (
    arith,
    drawn,
    insert_other path other_path env.partial [] apart,
    insert_other path other_path key [] apart,
  )
]
