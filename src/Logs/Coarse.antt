-- ===== src/Logs/Coarse.antt =====
-- What the lines of the sections can tell: the log calls of server/store.go and
-- server/prekey_store.go among interleaved threads.
use spectre_relay.Prelude.{
  ℕ, ◌≡◌, refl, Bool, true, false, ◌||◌, Option, none, some, List, [], ◌∷◌, ◌++◌, All, All-append,
  leb, is_empty, Text, Bytes, codes, text_eq, Result, ok, err, Error, not_exist, permission, other,
  if◌then◌else◌,
}
use spectre_relay.Prelude.Int.{ℤ, pos, ltb_ℤ}
use spectre_relay.Prelude.Assoc.{lookup}
use spectre_relay.Crypto.{Aead, Ed25519}
use spectre_relay.Json.{Syntax}
use spectre_relay.Files.{WriteEnv, encrypt, decrypt}
use spectre_relay.Prekeys.Bundle.{OneTimePrekey, PrekeyBundle}
use spectre_relay.Prekeys.Validation.{BundleError, validate_prekey_bundle}
use spectre_relay.Prekeys.{PrekeyStore, put_bundle}
use spectre_relay.Prekeys
use spectre_relay.Store.Database.{Sqlite}
use spectre_relay.Store.Messages.{QueuedMessage, decode_queued}
use spectre_relay.Store.{Store, EnqueueEnv, persist_locked, max_queue_per_recipient}
use spectre_relay.Server.{Server}
use spectre_relay.Sections.{
  Section, admit, enter, leave, find, put, take, sweep, spend, cert_slot, fetch_slot, replace,
  serve, key_of,
}
use spectre_relay.Sections.System.{System, Turn, turn}
use spectre_relay.Sections.Handouts.{entered}
use spectre_relay.Logs.{
  Line, text, classify_err, failed, failed_if, enqueue_lines, drain_lines, purge_lines,
  register_lines, get_lines, rows_lines, row_lines, insert_lines, seal_lines, count_lines,
  opened_lines, prekeys_saved, pop_lines,
}

-- The messages of these lines, and the classes of their errors.
abbrev pub messages : List Text
messages =
    codes "queue delete expired failed"
    ∷ codes "queue count failed"
    ∷ codes "queue marshal failed"
    ∷ codes "queue encrypt failed"
    ∷ codes "queue insert failed"
    ∷ codes "queue persist failed"
    ∷ codes "queue tx begin failed"
    ∷ codes "queue query failed"
    ∷ codes "queue scan failed"
    ∷ codes "queue decrypt failed"
    ∷ codes "queue unmarshal failed"
    ∷ codes "queue delete failed"
    ∷ codes "queue commit failed"
    ∷ codes "queue purge failed"
    ∷ codes "prekey persist failed"
    ∷ []

abbrev pub classes : List Text
classes = codes "not_exist" ∷ codes "permission" ∷ codes "io" ∷ []

unfoldable pub is_among : List Text → Text → Bool
is_among [] t = false
is_among (u ∷ us) t = text_eq u t || is_among us t

-- One of these messages, with one of these classes and nothing else.
abbrev pub IsCoarse : Line → Type 0
IsCoarse l =
    (is_among messages l.message ≡ true)
    × ((c : Text) × (is_among classes c ≡ true) × (l.attrs ≡ (codes "err_type", text c) ∷ []))

abbrev AreCoarse : List Line → Type 0
AreCoarse = All IsCoarse

classify_err-is_among : (e : Error) → is_among classes (classify_err (some e)) ≡ true
unfolding classify_err is_among text_eq
classify_err-is_among not_exist = refl
classify_err-is_among permission = refl
classify_err-is_among other = refl

failed-AreCoarse : (m : Text) (e : Error) → is_among messages m ≡ true → AreCoarse (failed m e)
failed-AreCoarse m e h = ((h, (classify_err (some e), classify_err-is_among e, refl)), tt)

failed_if-AreCoarse :
    (m : Text) (e : Option Error) → is_among messages m ≡ true → AreCoarse (failed_if m e)
failed_if-AreCoarse m none h = tt
failed_if-AreCoarse m (some e) h = failed-AreCoarse m e h

if-AreCoarse :
    (b : Bool) (l m : List Line) → AreCoarse l → AreCoarse m → AreCoarse (if b then l else m)
if-AreCoarse true l m h g = h
if-AreCoarse false l m h g = g

result-AreCoarse :
    {T : Type 0} (x : Result Error T) (f : Error → List Line) (g : T → List Line)
    → ((e : Error) → AreCoarse (f e))
    → ((t : T) → AreCoarse (g t))
    → AreCoarse (elim x [ err e ↦ f e | ok t ↦ g t ])
result-AreCoarse (err e) f g h i = h e
result-AreCoarse (ok t) f g h i = i t

option-AreCoarse :
    {T : Type 0} (x : Option T) (f : List Line) (g : T → List Line)
    → AreCoarse f
    → ((t : T) → AreCoarse (g t))
    → AreCoarse (elim x [ none ↦ f | some t ↦ g t ])
option-AreCoarse none f g h i = h
option-AreCoarse (some t) f g h i = i t

module _ (sql : Sqlite) (syntax : Syntax) (aead : Aead) where
  enqueue_lines-AreCoarse :
      (env : EnqueueEnv) (s : Store sql) (user : Text) (m : QueuedMessage)
      → AreCoarse (enqueue_lines sql syntax aead env s user m)
  unfolding enqueue_lines is_among text_eq
  enqueue_lines-AreCoarse env s user m =
      result-AreCoarse (sql.delete_expired_for user env.sql_now s.db) _ _
        (λ e. failed-AreCoarse (codes "queue delete expired failed") e refl)
        (λ db. counted (record s { db = db }) (sql.count_for user db))
    where
      inserted :
          (s : Store sql) (expiry : ℤ) (x : Result Error Bytes)
          → AreCoarse (insert_lines sql syntax aead env s user expiry x)
      inserted s expiry (err e) = failed-AreCoarse (codes "queue encrypt failed") e refl
      inserted s expiry (ok sealed) =
          result-AreCoarse
            (sql.insert_row (record { recipient_id = user; payload = sealed; expires_at = expiry })
              s.db)
            _ _ (λ e. failed-AreCoarse (codes "queue insert failed") e refl)
            (λ db.
              failed_if-AreCoarse (codes "queue persist failed")
                (persist_locked sql syntax aead env.save_env (record s { db = db })).1 refl)

      sealed :
          (s : Store sql) (expiry : ℤ) (x : Result Error Bytes)
          → AreCoarse (seal_lines sql syntax aead env s user expiry x)
      sealed s expiry (err e) = failed-AreCoarse (codes "queue marshal failed") e refl
      sealed s expiry (ok plain) = inserted s expiry (encrypt aead s.key env.nonce plain)

      counted :
          (s : Store sql) (x : Result Error ℕ)
          → AreCoarse (count_lines sql syntax aead env s user m x)
      counted s (err e) = failed-AreCoarse (codes "queue count failed") e refl
      counted s (ok n) = if-AreCoarse (leb max_queue_per_recipient n) _ _ tt (sealed s _ _)

  row_lines-AreCoarse :
      (key : Bytes) (now : ℕ) (r : Result Error (Bytes × ℤ))
      → AreCoarse (row_lines sql syntax aead key now r)
  unfolding is_among text_eq
  row_lines-AreCoarse key now (err e) = failed-AreCoarse (codes "queue scan failed") e refl
  row_lines-AreCoarse key now (ok (sealed, expiry)) =
      if-AreCoarse (ltb_ℤ expiry (pos now)) _ _ tt (opened (decrypt aead key sealed))
    where
      opened : (x : Result Error Bytes) → AreCoarse (opened_lines sql syntax aead x)
      opened (err e) = failed-AreCoarse (codes "queue decrypt failed") e refl
      opened (ok plain) =
          if-AreCoarse (decode_queued (syntax.unmarshal plain)).valid _ _ tt
            (failed-AreCoarse (codes "queue unmarshal failed") other refl)

  rows_lines-AreCoarse :
      (key : Bytes) (now : ℕ) (rs : List (Result Error (Bytes × ℤ)))
      → AreCoarse (rows_lines sql syntax aead key now rs)
  rows_lines-AreCoarse key now [] = tt
  rows_lines-AreCoarse key now (r ∷ rs) =
      All-append IsCoarse (row_lines sql syntax aead key now r) _ (row_lines-AreCoarse key now r)
        (rows_lines-AreCoarse key now rs)

  drain_lines-AreCoarse :
      (env : WriteEnv) (now : ℕ) (s : Store sql) (user : Text)
      → AreCoarse (drain_lines sql syntax aead env now s user)
  unfolding drain_lines is_among text_eq
  drain_lines-AreCoarse env now s user =
      result-AreCoarse (sql.begin_tx s.db) _ _
        (λ e. failed-AreCoarse (codes "queue tx begin failed") e refl)
        (λ tx.
          result-AreCoarse (sql.select_for user tx) _ _
            (λ e. failed-AreCoarse (codes "queue query failed") e refl)
            (λ selected.
              All-append IsCoarse (rows_lines sql syntax aead s.key now selected) _
                (rows_lines-AreCoarse s.key now selected)
                (result-AreCoarse (sql.delete_for user tx) _ _
                  (λ e. failed-AreCoarse (codes "queue delete failed") e refl)
                  (λ deleted.
                    result-AreCoarse (sql.commit deleted) _ _
                      (λ e. failed-AreCoarse (codes "queue commit failed") e refl)
                      (λ db.
                        failed_if-AreCoarse (codes "queue persist failed")
                          (persist_locked sql syntax aead env (record s { db = db })).1 refl)))))

  purge_lines-AreCoarse :
      (now : ℕ) (env : WriteEnv) (s : Store sql) → AreCoarse (purge_lines sql syntax aead now env s)
  unfolding purge_lines is_among text_eq
  purge_lines-AreCoarse now env s =
      result-AreCoarse (sql.delete_expired now s.db) _ _
        (λ e. failed-AreCoarse (codes "queue purge failed") e refl)
        (λ db.
          failed_if-AreCoarse (codes "queue persist failed")
            (persist_locked sql syntax aead env (record s { db = db })).1 refl)

module _ (syntax : Syntax) (aead : Aead) where
  register_lines-AreCoarse :
      (env : WriteEnv) (ps : PrekeyStore) (user : Text) (b : PrekeyBundle)
      → AreCoarse (register_lines syntax aead env ps user b)
  unfolding register_lines is_among text_eq
  register_lines-AreCoarse env ps user b =
      if-AreCoarse (is_empty user) _ _ tt (refusable (validate_prekey_bundle b))
    where
      refusable :
          (x : Option BundleError)
          → AreCoarse (elim x [
            | some e ↦ []
            | none ↦ prekeys_saved syntax aead env (put_bundle syntax aead ps user b)
          ])
      refusable x =
          option-AreCoarse x _ _
            (failed_if-AreCoarse (codes "prekey persist failed")
              (Prekeys.persist_locked syntax aead env (put_bundle syntax aead ps user b)).1 refl)
            (λ e. tt)

  get_lines-AreCoarse :
      (env : WriteEnv) (ps : PrekeyStore) (user : Text) (consume : Bool)
      → AreCoarse (get_lines syntax aead env ps user consume)
  unfolding get_lines is_among text_eq
  get_lines-AreCoarse env ps user consume =
      option-AreCoarse (lookup user ps.bundles) _ _ tt
        (λ b. if-AreCoarse consume _ _ (popped b b.one_time_prekeys) tt)
    where
      popped :
          (b : PrekeyBundle) (l : List OneTimePrekey)
          → AreCoarse (pop_lines syntax aead env ps user b l)
      popped b [] = tt
      popped b (k ∷ rest) =
          failed_if-AreCoarse (codes "prekey persist failed")
            (Prekeys.persist_locked syntax aead env
              (put_bundle syntax aead ps user (record b { one_time_prekeys = rest }))).1
            refl

module _ (sql : Sqlite) (syntax : Syntax) (aead : Aead) (ed : Ed25519) where
  -- What is logged in a section.
  abbrev pub section_lines : Server sql → Option Section → List Line
  section_lines s (some (put env user m)) = enqueue_lines sql syntax aead env s.router.store user m
  section_lines s (some (take env now user)) =
      drain_lines sql syntax aead env now s.router.store user
  section_lines s (some (sweep now env)) = purge_lines sql syntax aead now env s.router.store
  section_lines s (some (replace env user b)) = register_lines syntax aead env s.prekeys user b
  section_lines s (some (serve env user consume)) = get_lines syntax aead env s.prekeys user consume
  section_lines s _ = []

  section_lines-AreCoarse : (s : Server sql) (o : Option Section) → AreCoarse (section_lines s o)
  section_lines-AreCoarse s none = tt
  section_lines-AreCoarse s (some (admit ip now)) = tt
  section_lines-AreCoarse s (some (enter user c)) = tt
  section_lines-AreCoarse s (some (leave user c)) = tt
  section_lines-AreCoarse s (some (find user)) = tt
  section_lines-AreCoarse s (some (put env user m)) =
      enqueue_lines-AreCoarse sql syntax aead env s.router.store user m
  section_lines-AreCoarse s (some (take env now user)) =
      drain_lines-AreCoarse sql syntax aead env now s.router.store user
  section_lines-AreCoarse s (some (sweep now env)) =
      purge_lines-AreCoarse sql syntax aead now env s.router.store
  section_lines-AreCoarse s (some (spend user now)) = tt
  section_lines-AreCoarse s (some (cert_slot user now)) = tt
  section_lines-AreCoarse s (some (fetch_slot user now)) = tt
  section_lines-AreCoarse s (some (replace env user b)) =
      register_lines-AreCoarse syntax aead env s.prekeys user b
  section_lines-AreCoarse s (some (serve env user consume)) =
      get_lines-AreCoarse syntax aead env s.prekeys user consume
  section_lines-AreCoarse s (some (key_of user)) = tt

  -- What is logged in the sections of the threads, in their order.
  unfoldable pub turn_lines : System sql → List Turn → List Line
  turn_lines x [] = []
  turn_lines x (t ∷ ts) =
      section_lines x.server (entered sql syntax aead ed x t)
      ++ turn_lines (turn sql syntax aead ed x t) ts

  -- Whatever the threads do and in whatever order, each line that is logged under a mutex has one of
  -- fifteen constant messages, and one attribute, the class of an error, which is one of three: no
  -- name, address or content reaches it.
  pub turn_lines-AreCoarse : (x : System sql) (ts : List Turn) → All IsCoarse (turn_lines x ts)
  unfolding turn_lines
  turn_lines-AreCoarse x [] = tt
  turn_lines-AreCoarse x (t ∷ ts) =
      All-append IsCoarse (section_lines x.server (entered sql syntax aead ed x t)) _
        (section_lines-AreCoarse x.server (entered sql syntax aead ed x t))
        (turn_lines-AreCoarse (turn sql syntax aead ed x t) ts)
