-- ===== src/Files/Sealed.antt =====
-- What was saved is read back, under the same key.
use spectre_relay.Prelude.{
  ◌<◌, ◌≡◌, refl, inl, inr, false, none, some, [], ◌∷◌, ◌++◌, is_empty, length, take, drop,
  length-append, take-length-append, drop-length-append, Text, Bytes, Result, ok, Error,
  Result-cases, Option-cases, arith,
}
use spectre_relay.Prelude.Assoc.{lookup}
use spectre_relay.Crypto.{Aead, new_gcm}
use spectre_relay.Files.{
  Disk, WriteEnv, last_state, replace_file, encrypt, decrypt, save, read_sealed,
}
use spectre_relay.Files.Atomic.{IsApart, replace_file_lem}

module _ (aead : Aead) where
  -- The random source delivers nonces of the cipher's size.
  abbrev pub IsNonce : Result Error Bytes → Type 0
  IsNonce r = (n : Bytes) → r ≡ ok n → length n ≡ aead.nonce_size

  pub decrypt-encrypt :
      (key plain text : Bytes) (nonce : Result Error Bytes)
      → IsNonce nonce
      → encrypt aead key nonce plain ≡ ok text
      → decrypt aead key text ≡ ok plain
  unfolding encrypt decrypt
  decrypt-encrypt key plain text nonce sized h = elim (Option-cases (new_gcm key)) [
    | inr (e, bad) ↦ ground (arith, bad, h)
    | inl good ↦ elim (Result-cases nonce) [
      | inr (e, bad) ↦ ground (arith, good, bad, h)
      | inl (n, drawn) ↦
          let size : length n ≡ aead.nonce_size = sized n drawn in
          let sealed = aead.seal key n plain in
          let e : text ≡ n ++ sealed = ground (arith, good, drawn, h) in
          let front : take aead.nonce_size (n ++ sealed) ≡ n =
            rw (← size) (take-length-append n sealed) in
          let back : drop aead.nonce_size (n ++ sealed) ≡ sealed =
            rw (← size) (drop-length-append n sealed) in
          rw e (
            ground
              (arith, good, front, back, length-append n sealed, aead.open-seal key n plain size))
    ]
  ]

  encrypt-not_empty :
      (key plain text : Bytes) (nonce : Result Error Bytes)
      → IsNonce nonce
      → 0 < aead.nonce_size
      → encrypt aead key nonce plain ≡ ok text
      → is_empty text ≡ false
  unfolding encrypt
  encrypt-not_empty key plain [] nonce sized pos h = elim (Option-cases (new_gcm key)) [
    | inr (e, bad) ↦ ground (arith, bad, h)
    | inl good ↦ elim (Result-cases nonce) [
      | inr (e, bad) ↦ ground (arith, good, bad, h)
      | inl ([], drawn) ↦ absurd (omega (arith, sized [] drawn))
      | inl (b ∷ n, drawn) ↦ ground (arith, good, drawn, h)
    ]
  ]
  encrypt-not_empty key plain (b ∷ text) nonce sized pos h = refl

  -- A disk with the sealed text reads as the text that was sealed.
  pub read_sealed-sealed :
      (key : Bytes) (path : Text) (plain sealed : Bytes) (nonce : Result Error Bytes)
      → IsNonce nonce
      → 0 < aead.nonce_size
      → encrypt aead key nonce plain ≡ ok sealed
      → (d : Disk) → lookup path d ≡ some sealed
      → read_sealed aead none key path d ≡ ok (some plain)
  unfolding read_sealed
  read_sealed-sealed key path plain sealed nonce sized pos good d there = ground (
    arith,
    there,
    encrypt-not_empty key plain sealed nonce sized pos good,
    decrypt-encrypt key plain sealed nonce sized good,
  )

  -- After a save without an error, under a temporary name of its own and with a nonce of the
  -- cipher's size, which is not 0, the file reads back as the text that was saved.
  pub read_sealed-save :
      (env : WriteEnv) (key : Bytes) (path : Text) (plain : Bytes) (disk : Disk)
      → IsApart env path
      → IsNonce env.nonce
      → 0 < aead.nonce_size
      → (save aead env key path plain disk).error ≡ none
      → read_sealed aead none key path (last_state disk (save aead env key path plain disk).states)
        ≡ ok (some plain)
  unfolding save
  read_sealed-save env key path plain disk apart sized pos h =
      elim (Result-cases (encrypt aead key env.nonce plain)) [
        | inr (_, bad) ↦ ground (arith, bad, h)
        | inl (sealed, good) ↦
            let w = replace_file env path sealed disk in
            let e : w.error ≡ none = ground (arith, good, h) in
            rw (good, save)
              (read_sealed-sealed key path plain sealed env.nonce sized pos good
                (last_state disk w.states) ((replace_file_lem env path sealed disk apart).0 e).0)
      ]

  -- Whatever error a save returns, the file reads as it did.
  pub read_sealed-failed_save :
      (env : WriteEnv) (key : Bytes) (path : Text) (plain : Bytes) (disk : Disk) (e : Error)
      → IsApart env path
      → (save aead env key path plain disk).error ≡ some e
      → lookup path (last_state disk (save aead env key path plain disk).states) ≡ lookup path disk
  unfolding save
  read_sealed-failed_save env key path plain disk e apart h =
      elim (Result-cases (encrypt aead key env.nonce plain)) [
        | inr (_, bad) ↦ rw (bad, save) refl
        | inl (sealed, good) ↦
            ground (arith, good, h, (replace_file_lem env path sealed disk apart).1 e)
      ]
