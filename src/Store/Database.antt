-- ===== src/Store/Database.antt =====
-- The table `queue` of the in-memory SQLite database, as a parameter: each statement of
-- server/store.go with what it does to the rows when it succeeds. A statement that fails leaves
-- the database as it was.
use spectre_relay.Prelude.{
  ℕ, ◌≡◌, ◌⊎◌, Bool, not, ◌&&◌, List, [], ◌∷◌, ◌++◌, map, length, keep_if, Text, Bytes, text_eq,
  Result, ok, err, Error,
}
use spectre_relay.Prelude.Int.{ℤ, pos, ltb_ℤ}

-- A row without its id: `rows` below lists the table in the order of the ids, which
-- AUTOINCREMENT makes the order of insertion.
pub record Row : Type 0 where
  pub recipient_id : Text
  pub payload : Bytes
  pub expires_at : ℤ

-- `expires_at < now`, in seconds.
abbrev pub is_expired : ℕ → Row → Bool
is_expired now r = ltb_ℤ r.expires_at (pos now)

abbrev pub is_for : Text → Row → Bool
is_for user r = text_eq r.recipient_id user

-- The rows that `DELETE … WHERE recipient_id = ? AND expires_at < unixepoch()` leaves.
abbrev pub without_expired : Text → ℕ → List Row → List Row
without_expired user now = keep_if (λ r. not (is_for user r && is_expired now r))

-- The rows that `DELETE … WHERE recipient_id = ?` leaves.
abbrev pub without_user : Text → List Row → List Row
without_user user = keep_if (λ r. not (is_for user r))

abbrev pub rows_for : Text → List Row → List Row
rows_for user = keep_if (is_for user)

-- What a row is scanned into.
abbrev pub scanned : Row → Result Error (Bytes × ℤ)
scanned r = ok (r.payload, r.expires_at)

-- What the loop over a query sees: the rows in order, each scanned or with an error of `Scan`. An
-- error of `rows.Next` ends the loop early and shows only in `rows.Err`, which is not asked.
abbrev pub Yields : List (Result Error (Bytes × ℤ)) → List Row → Type 0
Yields [] rs = Unit {0}
Yields (r ∷ l) [] = ⊥
Yields (r ∷ l) (row ∷ rs) = ((r ≡ scanned row) ⊎ ((e : Error) × (r ≡ err e))) × Yields l rs

pub record Sqlite : Type 1 where
  pub Db : Type 0
  pub rows : Db → List Row
  pub fresh : Db
  pub create_schema : Db → Result Error Db
  pub delete_expired_for : Text → ℕ → Db → Result Error Db
  pub count_for : Text → Db → Result Error ℕ
  pub insert_row : Row → Db → Result Error Db
  pub begin_tx : Db → Result Error Db
  pub select_for : Text → Db → Result Error (List (Result Error (Bytes × ℤ)))
  pub delete_for : Text → Db → Result Error Db
  pub commit : Db → Result Error Db
  pub delete_expired : ℕ → Db → Result Error Db
  pub count_live : ℕ → Db → Result Error ℕ
  pub serialize : Db → Result Error Bytes
  pub deserialize : Bytes → Result Error Db
  pub rows-fresh : rows fresh ≡ []
  pub rows-create : (d e : Db) → create_schema d ≡ ok e → rows e ≡ rows d
  pub rows-delete_expired_for :
      (user : Text) (now : ℕ) (d e : Db)
      → delete_expired_for user now d ≡ ok e
      → rows e ≡ without_expired user now (rows d)
  pub count_for_lem :
      (user : Text) (d : Db) (n : ℕ) → count_for user d ≡ ok n → n ≡ length (rows_for user (rows d))
  pub rows-insert : (r : Row) (d e : Db) → insert_row r d ≡ ok e → rows e ≡ rows d ++ r ∷ []
  pub rows-begin : (d e : Db) → begin_tx d ≡ ok e → rows e ≡ rows d
  pub select_for_lem :
      (user : Text) (d : Db) (l : List (Result Error (Bytes × ℤ)))
      → select_for user d ≡ ok l
      → Yields l (rows_for user (rows d))
  pub rows-delete_for :
      (user : Text) (d e : Db) → delete_for user d ≡ ok e → rows e ≡ without_user user (rows d)
  pub rows-commit : (d e : Db) → commit d ≡ ok e → rows e ≡ rows d
  pub rows-delete_expired :
      (now : ℕ) (d e : Db)
      → delete_expired now d ≡ ok e
      → rows e ≡ keep_if (λ r. not (is_expired now r)) (rows d)
  pub count_live_lem :
      (now n : ℕ) (d : Db)
      → count_live now d ≡ ok n
      → n ≡ length (keep_if (λ r. not (is_expired now r)) (rows d))
  pub deserialize-serialize :
      (d : Db) (b : Bytes)
      → serialize d ≡ ok b
      → (e : Db) × (deserialize b ≡ ok e) × (rows e ≡ rows d)

-- No statement fails, and every row is read.
pub record IsReliable (sql : Sqlite) : Type 0 where
  pub deletes_expired :
      (user : Text) (now : ℕ) (d : sql.Db)
      → (e : sql.Db) × (sql.delete_expired_for user now d ≡ ok e)
  pub counts : (user : Text) (d : sql.Db) → (n : ℕ) × (sql.count_for user d ≡ ok n)
  pub inserts : (r : Row) (d : sql.Db) → (e : sql.Db) × (sql.insert_row r d ≡ ok e)
  pub begins : (d : sql.Db) → (e : sql.Db) × (sql.begin_tx d ≡ ok e)
  pub selects :
      (user : Text) (d : sql.Db)
      → sql.select_for user d ≡ ok (map scanned (rows_for user (sql.rows d)))
  pub deletes : (user : Text) (d : sql.Db) → (e : sql.Db) × (sql.delete_for user d ≡ ok e)
  pub commits : (d : sql.Db) → (e : sql.Db) × (sql.commit d ≡ ok e)
