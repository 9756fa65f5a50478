-- ===== src/Files/Atomic.antt =====
-- The file that is replaced is never torn.
use spectre_relay.Prelude.{
  ◌≡◌, ◌≢◌, refl, sym, ◌⊎◌, inl, inr, none, some, [], All, Text, Bytes, text_eq_iff, ok, Error,
  arith, Result-cases,
}
use spectre_relay.Prelude.Assoc.{lookup, insert, remove, lookup-insert, lookup-remove}
use spectre_relay.Files.{Disk, WriteEnv, last_state, replace_file}

-- The name of the temporary file is not that of the file to replace.
abbrev pub IsApart : WriteEnv → Text → Type 0
IsApart env path = (tmp : Text) → env.temp ≡ ok tmp → tmp ≢ path

-- The file holds what it held, or the whole new content.
abbrev pub IsWhole : Text → Bytes → Disk → Disk → Type 0
IsWhole path content before d =
    (lookup path d ≡ lookup path before) ⊎ (lookup path d ≡ some content)

pub insert_other :
    (tmp path : Text) (b : Bytes) (d : Disk)
    → tmp ≢ path
    → lookup path (insert tmp b d) ≡ lookup path d
insert_other tmp path b d ne = ground (arith, lookup-insert tmp path b d, text_eq_iff tmp path)

pub remove_other :
    (tmp path : Text) (d : Disk) → tmp ≢ path → lookup path (remove tmp d) ≡ lookup path d
remove_other tmp path d ne = ground (arith, lookup-remove tmp path d, text_eq_iff tmp path)

pub insert_same : (path : Text) (b : Bytes) (d : Disk) → lookup path (insert path b d) ≡ some b
insert_same path b d = ground (arith, lookup-insert path path b d, text_eq_iff path path)

remove_same : (path : Text) (d : Disk) → lookup path (remove path d) ≡ none
remove_same path d = ground (arith, lookup-remove path path d, text_eq_iff path path)

-- Wherever the process stops, the file holds its old content or the whole new one, if the temporary
-- name is not that of the file.
pub replace_file_atomic :
    (env : WriteEnv) (path : Text) (content : Bytes) (disk : Disk)
    → IsApart env path
    → All (IsWhole path content disk) (replace_file env path content disk).states
unfolding replace_file
replace_file_atomic env path content disk apart = elim (Result-cases env.temp) [
  | inr (e, failed) ↦ rw (failed, replace_file) tt
  | inl (tmp, made) ↦
      let ne : tmp ≢ path = apart tmp made in
      rw (made, replace_file)
        (ground (
          arith,
          insert_other tmp path [] disk ne,
          insert_other tmp path env.partial disk ne,
          insert_other tmp path content disk ne,
          remove_other tmp path (insert tmp env.partial disk) ne,
          remove_other tmp path (insert tmp content disk) ne,
          insert_same path content (remove tmp (insert tmp content disk)),
        ))
]

abbrev pub outcome : WriteEnv → Text → Bytes → Disk → Disk
outcome env path content disk = last_state disk (replace_file env path content disk).states

module _ (env : WriteEnv) (path : Text) (content : Bytes) (disk : Disk) where
  replaced :
      IsApart env path
      → (replace_file env path content disk).error ≡ none
      → (lookup path (outcome env path content disk) ≡ some content)
        × ((tmp : Text) → env.temp ≡ ok tmp → lookup tmp (outcome env path content disk) ≡ none)
  unfolding replace_file
  replaced apart = elim (Result-cases env.temp) [
    | inr (e, failed) ↦ ground (arith, failed)
    | inl (tmp, made) ↦
        let rest = remove tmp (insert tmp content disk) in
        λ h. (
          ground (arith, made, insert_same path content rest),
          λ t et. ground (
            arith,
            made,
            remove_same tmp (insert tmp content disk),
            insert_other path tmp content rest (λ p. apart tmp made (sym p)),
          ),
        )
  ]

  kept :
      IsApart env path
      → (e : Error) → (replace_file env path content disk).error ≡ some e
      → lookup path (outcome env path content disk) ≡ lookup path disk
  unfolding replace_file
  kept apart e h = elim (Result-cases env.temp) [
    | inr (_, failed) ↦ rw (failed, replace_file) refl
    | inl (tmp, made) ↦
        let ne : tmp ≢ path = apart tmp made in
        ground (
          arith,
          made,
          insert_other tmp path env.partial disk ne,
          insert_other tmp path content disk ne,
          remove_other tmp path (insert tmp env.partial disk) ne,
          remove_other tmp path (insert tmp content disk) ne,
        )
  ]

  untouched :
      (other : Text)
      → other ≢ path
      → ((tmp : Text) → env.temp ≡ ok tmp → tmp ≢ other)
      → lookup other (outcome env path content disk) ≡ lookup other disk
  unfolding replace_file
  untouched other ne apart = elim (Result-cases env.temp) [
    | inr (_, failed) ↦ rw (failed, replace_file) refl
    | inl (tmp, made) ↦
        let far : tmp ≢ other = apart tmp made in
        ground (
          arith,
          made,
          insert_other tmp other env.partial disk far,
          insert_other tmp other content disk far,
          remove_other tmp other (insert tmp env.partial disk) far,
          remove_other tmp other (insert tmp content disk) far,
          insert_other path other content (remove tmp (insert tmp content disk)) (λ p. ne (sym p)),
        )
  ]

-- Where the temporary name is not that of the file: without an error the file holds the new content
-- and the temporary file is gone; with one, the file holds what it held. Every other file is as it
-- was.
pub replace_file_lem :
    (env : WriteEnv) (path : Text) (content : Bytes) (disk : Disk)
    → IsApart env path
    → ((replace_file env path content disk).error ≡ none
        → (lookup path (outcome env path content disk) ≡ some content)
          × ((tmp : Text) → env.temp ≡ ok tmp → lookup tmp (outcome env path content disk) ≡ none))
      × ((e : Error)
          → (replace_file env path content disk).error ≡ some e
          → lookup path (outcome env path content disk) ≡ lookup path disk)
      × ((other : Text)
          → other ≢ path
          → ((tmp : Text) → env.temp ≡ ok tmp → tmp ≢ other)
          → lookup other (outcome env path content disk) ≡ lookup other disk)
replace_file_lem env path content disk apart = (
  replaced env path content disk apart,
  kept env path content disk apart,
  untouched env path content disk,
)

-- A failed rename leaves the sealed content behind under the temporary name.
pub rename_failure-leftover :
    (env : WriteEnv) (path tmp : Text) (content : Bytes) (disk : Disk) (e : Error)
    → env.temp ≡ ok tmp
    → env.write ≡ none
    → env.chmod ≡ none
    → env.close ≡ none
    → env.rename ≡ some e
    → (lookup tmp (outcome env path content disk) ≡ some content)
      × ((replace_file env path content disk).error ≡ some e)
unfolding replace_file
rename_failure-leftover env path tmp content disk e t w c l r =
    ground (arith, insert_same tmp content disk)
