-- ===== src/SealedCa/Certificates.antt =====
-- What clients can rely on: the key stays, its rotation is proved, and certificates verify.
use spectre_relay.Prelude.{
  ℕ, ◌≡◌, ◌≢◌, refl, ap, ◌∙◌, inl, inr, true, Option, none, some, length, length-append, Text,
  Bytes, codes, ok, Error, Option-cases, Result-cases, arith,
}
use spectre_relay.Prelude.Assoc.{lookup, insert}
use spectre_relay.Crypto.{Ed25519}
use spectre_relay.Json.{Syntax}
use spectre_relay.Files.{Disk}
use spectre_relay.Files.Atomic.{insert_same, insert_other}
use spectre_relay.SealedCa.{
  SealedCa, CaEnv, prev_path, read_prev_key, with_proof, mint_ca, new_sealed_ca, json_of_cert,
  cert_of, issue_cert,
}

prev_path-apart : (path : Text) → path ≢ prev_path path
prev_path-apart path e = omega (arith, ap length e, length-append path (codes ".prev"))

module _ (ed : Ed25519) where
  -- The key file does not hide the previous one.
  read_prev_key-insert :
      (read : Option Error) (path : Text) (priv : Bytes) (disk : Disk)
      → read_prev_key read path (insert path priv disk) ≡ read_prev_key read path disk
  unfolding read_prev_key
  read_prev_key-insert read path priv disk =
      ground (arith, insert_other path (prev_path path) priv disk (prev_path-apart path))

  -- A start that succeeds: the authority of a key, which the file then holds.
  record Started (env : CaEnv) (path : Text) (disk after : Disk) (ca : SealedCa) : Type 0 where
    key : Bytes
    made : ca ≡ with_proof ed key (read_prev_key env.read_prev path disk)
    stands : lookup path after ≡ some key
    size : length key ≡ 64
    prev_kept : (read : Option Error) → read_prev_key read path after ≡ read_prev_key read path disk

  -- A generated key has 64 bytes.
  abbrev pub IsFull : CaEnv → Type 0
  IsFull env = (priv : Bytes) → env.generated ≡ ok priv → length priv ≡ 64

  start-Started :
      (env : CaEnv) (path : Text) (disk : Disk) (ca : SealedCa)
      → IsFull env
      → (new_sealed_ca ed env path disk).1 ≡ ok ca
      → Started env path disk (new_sealed_ca ed env path disk).0 ca
  unfolding new_sealed_ca
  start-Started env path disk ca full h = elim (Option-cases env.read) [
    | inr (e, bad) ↦ absurd (ground (arith, bad, h))
    | inl clear ↦ elim (Option-cases (lookup path disk)) [
      | inr (content, there) ↦
          rw (clear, new_sealed_ca, there)
            (record {
              key = content;
              made = ground (arith, clear, there, h);
              stands = there;
              size = ground (arith, clear, there, h);
              prev_kept = λ read. refl;
            })
      | inl missing ↦ elim (Result-cases env.generated) [
        | inr (e, bad) ↦ absurd (ground (arith, clear, missing, bad, h))
        | inl (priv, drawn) ↦ elim (Option-cases env.make_dir) [
          | inr (e, bad) ↦ absurd (ground (arith, clear, missing, drawn, bad, h))
          | inl dir ↦ elim (Option-cases env.write) [
            | inr (e, bad) ↦ absurd (ground (arith, clear, missing, drawn, dir, bad, h))
            | inl written ↦
                rw (clear, new_sealed_ca, missing, mint_ca, drawn, dir, written)
                  (record {
                    key = priv;
                    made = ground (
                      arith,
                      clear,
                      missing,
                      drawn,
                      dir,
                      written,
                      h,
                      read_prev_key-insert env.read_prev path priv disk,
                    );
                    stands = insert_same path priv disk;
                    size = full priv drawn;
                    prev_kept = λ read. read_prev_key-insert read path priv disk;
                  })
          ]
        ]
      ]
    ]
  ]

  Started-again :
      (env later : CaEnv) (path : Text) (disk after : Disk) (ca : SealedCa)
      → Started env path disk after ca
      → later.read ≡ none
      → later.read_prev ≡ env.read_prev
      → new_sealed_ca ed later path after ≡ (after, ok ca)
  unfolding new_sealed_ca
  Started-again env later path disk after ca s clear same =
      ground (arith, clear, same, s.made, s.stands, s.size, s.prev_kept later.read_prev)

  -- If generated keys have 64 bytes, then after a start that succeeds every later start that can
  -- read the key file, and reads the previous one with the same outcome, gets the same authority,
  -- rotation proof included, and leaves the disk alone.
  pub new_sealed_ca-restart :
      (env later : CaEnv) (path : Text) (disk : Disk) (ca : SealedCa)
      → IsFull env
      → (new_sealed_ca ed env path disk).1 ≡ ok ca
      → later.read ≡ none
      → later.read_prev ≡ env.read_prev
      → let after = (new_sealed_ca ed env path disk).0 in
        new_sealed_ca ed later path after ≡ (after, ok ca)
  new_sealed_ca-restart env later path disk ca full h =
      Started-again env later path disk (new_sealed_ca ed env path disk).0 ca
        (start-Started env path disk ca full h)

  -- If generated keys have 64 bytes, a start that succeeds and reads a genuine previous key proves
  -- the rotation: it serves the previous public key, and this verifies the signature over the
  -- public key that is now served.
  pub new_sealed_ca-rotation :
      (env : CaEnv) (path : Text) (disk : Disk) (ca : SealedCa) (prev : Bytes)
      → IsFull env
      → (new_sealed_ca ed env path disk).1 ≡ ok ca
      → env.read_prev ≡ none
      → lookup (prev_path path) disk ≡ some prev
      → ed.IsPrivate prev
      → (ca.prev_pub ≡ some (ed.public prev))
        × (ed.verify (ed.public prev) ca.pub_key ca.rotation_sig ≡ true)
  unfolding read_prev_key with_proof
  new_sealed_ca-rotation env path disk ca prev full h clear there own =
      let s = start-Started env path disk ca full h in
      let found : read_prev_key env.read_prev path disk ≡ some prev =
        ground (arith, clear, there, ed.length-private prev own) in
      let e : ca ≡ with_proof ed s.key (some prev) = s.made ∙ ap (with_proof ed s.key) found in
      rw e (refl, ed.verify-sign prev (ed.public s.key) own)

module _ (ed : Ed25519) (syntax : Syntax) where
  -- For an authority whose public key belongs to its genuine private key, a certificate that can be
  -- printed is issued; its text reads as the issuer, the user, the identity key and the time 24
  -- hours later in milliseconds, rounded down; and the public key verifies the signature over
  -- exactly that text.
  pub issue_cert-verifies :
      (ca : SealedCa) (uid ik issuer : Text) (now : ℕ)
      → ed.IsPrivate ca.priv
      → ca.pub_key ≡ ed.public ca.priv
      → syntax.IsPrintable (json_of_cert (cert_of uid ik issuer now))
      → (cert sig : Bytes) × (issue_cert ed syntax ca uid ik issuer now ≡ ok (cert, sig))
        × (syntax.unmarshal cert ≡ some (json_of_cert (cert_of uid ik issuer now)))
        × (ed.verify ca.pub_key cert sig ≡ true)
  unfolding issue_cert
  issue_cert-verifies ca uid ik issuer now own e printable =
      let (cert, printed, parsed) =
        syntax.unmarshal-marshal (json_of_cert (cert_of uid ik issuer now)) printable in
      (
        cert,
        ed.sign ca.priv cert,
        rw (printed, issue_cert) refl,
        parsed,
        rw e (ed.verify-sign ca.priv cert own),
      )
