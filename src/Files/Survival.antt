-- ===== src/Files/Survival.antt =====
-- What a crash leaves: a key file and an encrypted file that can still be read.
use spectre_relay.Prelude.{
  ◌<◌, ◌≡◌, ◌≢◌, refl, sym, ap, ◌∙◌, ◌⊎◌, inl, inr, none, some, List, [], ◌∷◌, ◌++◌, length,
  length-append, All, Text, Bytes, codes, ok, Error, arith, Result-cases,
}
use spectre_relay.Prelude.Assoc.{lookup, insert, remove}
use spectre_relay.Crypto.{Aead}
use spectre_relay.Files.{
  Disk, WriteEnv, KeyEnv, last_state, replace_file, encrypt, save, read_sealed, load_or_create_key,
}
use spectre_relay.Files.Atomic.{IsApart, IsWhole, insert_other, remove_other, replace_file_atomic}
use spectre_relay.Files.Sealed.{
  IsNonce, read_sealed-sealed, read_sealed-save, read_sealed-failed_save,
}

abbrev pub key_file : Text → Text
key_file path = path ++ codes ".key"

-- A write whose temporary name is neither that of the file nor that of its key.
pub record IsSafe (aead : Aead) (path : Text) (env : WriteEnv) : Type 0 where
  pub apart : IsApart env path
  pub apart_key : IsApart env (key_file path)
  pub sized : IsNonce aead env.nonce

-- The key stands in its file, and the file reads as the text, under that key.
pub record Survives (aead : Aead) (key : Bytes) (path : Text) (plain : Bytes) (disk : Disk)
    : Type 0 where
  pub stands : lookup (key_file path) disk ≡ some key
  pub size : length key ≡ 32
  pub reads : read_sealed aead none key path disk ≡ ok (some plain)

pub key_file-apart : (path : Text) → key_file path ≢ path
key_file-apart path e = omega (arith, ap length e, length-append path (codes ".key"))

-- No step of a write touches a file of another name.
replace_file-others :
    (env : WriteEnv) (path other : Text) (content : Bytes) (disk : Disk)
    → other ≢ path
    → IsApart env other
    → All
        (λ (d : Disk). lookup other d ≡ lookup other disk)
        (replace_file env path content disk).states
unfolding replace_file
replace_file-others env path other content disk ne apart = elim (Result-cases env.temp) [
  | inr (e, failed) ↦ rw (failed, replace_file) tt
  | inl (tmp, made) ↦
      let far : tmp ≢ other = apart tmp made in
      rw (made, replace_file)
        (ground (
          arith,
          insert_other tmp other [] disk far,
          insert_other tmp other env.partial disk far,
          insert_other tmp other content disk far,
          remove_other tmp other (insert tmp env.partial disk) far,
          remove_other tmp other (insert tmp content disk) far,
          insert_other path other content (remove tmp (insert tmp content disk)) (λ p. ne (sym p)),
        ))
]

All-last_state {κ} :
    (P : Disk → Type κ) (disk : Disk) (ds : List Disk) → P disk → All P ds → P (last_state disk ds)
All-last_state P disk [] here h = here
All-last_state P disk (d ∷ ds) here h = h.0

pub read_sealed-cong :
    (aead : Aead) (key : Bytes) (path : Text) (d e : Disk)
    → lookup path d ≡ lookup path e
    → read_sealed aead none key path d ≡ read_sealed aead none key path e
unfolding read_sealed
read_sealed-cong aead key path d e same = ground (arith, same)

module _ (aead : Aead) (key : Bytes) (path : Text) (plain : Bytes) (disk : Disk) where
  pub save-key_file :
      (env : WriteEnv)
      → IsSafe aead path env
      → lookup (key_file path) (last_state disk (save aead env key path plain disk).states)
        ≡ lookup (key_file path) disk
  unfolding save
  save-key_file env safe = elim (Result-cases (encrypt aead key env.nonce plain)) [
    | inr (_, bad) ↦ rw (bad, save) refl
    | inl (sealed, good) ↦
        rw (good, save)
          (All-last_state (λ (d : Disk). lookup (key_file path) d ≡ lookup (key_file path) disk)
            disk (replace_file env path sealed disk).states refl
            (replace_file-others env path (key_file path) sealed disk (key_file-apart path)
              safe.apart_key))
  ]

  -- The first save, where only the key stands in its file.
  pub first_save-Survives :
      (env : WriteEnv)
      → IsSafe aead path env
      → 0 < aead.nonce_size
      → lookup (key_file path) disk ≡ some key
      → length key ≡ 32
      → (save aead env key path plain disk).error ≡ none
      → Survives aead key path plain (last_state disk (save aead env key path plain disk).states)
  first_save-Survives env safe pos stands size h = record {
    stands = save-key_file env safe ∙ stands;
    size = size;
    reads = read_sealed-save aead env key path plain disk safe.apart safe.sized pos h;
  }

module _ (aead : Aead) (key : Bytes) (path : Text) (old plain : Bytes) (disk : Disk) where
  -- The old text or the new one.
  abbrev pub IsEither : Disk → Type 0
  IsEither d = Survives aead key path old d ⊎ Survives aead key path plain d

  whole-IsEither :
      (sealed : Bytes) (d : Disk)
      → Survives aead key path old disk
      → ((d : Disk)
          → lookup path d ≡ some sealed
          → read_sealed aead none key path d ≡ ok (some plain))
      → IsWhole path sealed disk d
      → lookup (key_file path) d ≡ lookup (key_file path) disk
      → IsEither d
  whole-IsEither sealed d s reads (inl kept) key_kept = inl (record {
    stands = key_kept ∙ s.stands;
    size = s.size;
    reads = read_sealed-cong aead key path d disk kept ∙ s.reads;
  })
  whole-IsEither sealed d s reads (inr new) key_kept =
      inr (record { stands = key_kept ∙ s.stands; size = s.size; reads = reads d new })

  all-IsEither :
      (sealed : Bytes) (ds : List Disk)
      → Survives aead key path old disk
      → ((d : Disk)
          → lookup path d ≡ some sealed
          → read_sealed aead none key path d ≡ ok (some plain))
      → All (IsWhole path sealed disk) ds
      → All (λ (d : Disk). lookup (key_file path) d ≡ lookup (key_file path) disk) ds
      → All IsEither ds
  all-IsEither sealed [] s reads w k = tt
  all-IsEither sealed (d ∷ ds) s reads w k =
      (whole-IsEither sealed d s reads w.0 k.0, all-IsEither sealed ds s reads w.1 k.1)

  -- Where the key stands in its file and the encrypted file reads under it as some text, both hold
  -- wherever a save stops, with the text from before or the new one. The nonce has the size that the
  -- cipher wants, which is not 0, and the temporary name is neither that of the file nor that of the
  -- key.
  pub save-Survives :
      (env : WriteEnv)
      → IsSafe aead path env
      → 0 < aead.nonce_size
      → Survives aead key path old disk
      → All IsEither (save aead env key path plain disk).states
  unfolding save
  save-Survives env safe pos s = elim (Result-cases (encrypt aead key env.nonce plain)) [
    | inr (_, bad) ↦ rw (bad, save) tt
    | inl (sealed, good) ↦
        rw (good, save)
          (all-IsEither sealed (replace_file env path sealed disk).states s
            (read_sealed-sealed aead key path plain sealed env.nonce safe.sized pos good)
            (replace_file_atomic env path sealed disk safe.apart)
            (replace_file-others env path (key_file path) sealed disk (key_file-apart path)
              safe.apart_key))
  ]

  -- A save without an error leaves the new text; one with an error, the old one.
  pub last_state-Survives :
      (env : WriteEnv)
      → IsSafe aead path env
      → 0 < aead.nonce_size
      → Survives aead key path old disk
      → let w = save aead env key path plain disk in
        (w.error ≡ none → Survives aead key path plain (last_state disk w.states))
        × ((e : Error) → w.error ≡ some e → Survives aead key path old (last_state disk w.states))
  last_state-Survives env safe pos s = (
    first_save-Survives aead key path plain disk env safe pos s.stands s.size,
    λ e h. record {
      stands = save-key_file aead key path plain disk env safe ∙ s.stands;
      size = s.size;
      reads =
          read_sealed-cong aead key path
            (last_state disk (save aead env key path plain disk).states) disk
            (read_sealed-failed_save aead env key path plain disk e safe.apart h)
          ∙ s.reads;
    },
  )

-- A start that can read the key file gets the key that the encrypted file was written under.
pub load_or_create_key-Survives :
    (aead : Aead) (key : Bytes) (path : Text) (plain : Bytes) (disk : Disk) (env : KeyEnv)
    → Survives aead key path plain disk
    → env.read ≡ none
    → load_or_create_key env (key_file path) disk ≡ (disk, ok key)
unfolding load_or_create_key
load_or_create_key-Survives aead key path plain disk env s clear =
    ground (arith, s.stands, s.size, clear)
