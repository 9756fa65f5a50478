-- ===== src/Tests/Saving.antt =====
-- The database of the examples with a serialization: each row behind the lengths of its parts.
use spectre_relay.Prelude.{
  ℕ, ◌≡◌, refl, ap, ◌∙◌, zero, suc, List, [], ◌∷◌, ◌++◌, length, Bytes, Result, ok, err, Error,
  other, arith,
}
use spectre_relay.Prelude.Int.{ℤ, pos, negsuc}
use spectre_relay.Store.Database.{Sqlite, Row}
use spectre_relay.Tests.{toy_sql, ok-inj}

-- The front of a list, and what is behind it.
abbrev cut : ℕ → Bytes → Bytes × Bytes
cut zero b = ([], b)
cut (suc n) [] = ([], [])
cut (suc n) (x ∷ b) = let (front, back) = cut n b in (x ∷ front, back)

cut_append : (a b : Bytes) → cut (length a) (a ++ b) ≡ (a, b)
cut_append [] b = refl
cut_append (x ∷ a) b = ap (λ (p : Bytes × Bytes). (x ∷ p.0, p.1)) (cut_append a b)

abbrev sign_of : ℤ → ℕ
sign_of (pos n) = 0
sign_of (negsuc n) = 1

abbrev size_of : ℤ → ℕ
size_of (pos n) = n
size_of (negsuc n) = n

abbrev bytes_of_rows : List Row → Bytes
bytes_of_rows [] = []
bytes_of_rows (r ∷ rs) =
    length r.recipient_id
      ∷ length r.payload
      ∷ sign_of r.expires_at
      ∷ size_of r.expires_at
      ∷ r.recipient_id
    ++ (r.payload ++ bytes_of_rows rs)

abbrev int_of : ℕ → ℕ → ℤ
int_of zero n = pos n
int_of (suc k) n = negsuc n

abbrev pack : ℤ → Bytes → Bytes × Bytes → Row × Bytes
pack at user behind =
    (record { recipient_id = user; payload = behind.0; expires_at = at }, behind.1)

abbrev row_of : ℕ → ℕ → ℤ → Bytes → Row × Bytes
row_of n m at b = pack at (cut n b).0 (cut m (cut n b).1)

-- As many rows as there are.
abbrev rows_of : ℕ → Bytes → List Row
rows_of zero b = []
rows_of (suc k) (n ∷ m ∷ sign ∷ size ∷ b) =
    let p = row_of n m (int_of sign size) b in p.0 ∷ rows_of k p.1
rows_of (suc k) _ = []

int_of_parts : (z : ℤ) → int_of (sign_of z) (size_of z) ≡ z
int_of_parts (pos n) = refl
int_of_parts (negsuc n) = refl

row_of_row :
    (r : Row) (rest : Bytes)
    → row_of
        (length r.recipient_id)
        (length r.payload)
        (int_of (sign_of r.expires_at) (size_of r.expires_at))
        (r.recipient_id ++ (r.payload ++ rest))
      ≡ (r, rest)
row_of_row r rest =
    ap
      (λ (z : ℤ).
        row_of (length r.recipient_id) (length r.payload) z (r.recipient_id ++ (r.payload ++ rest)))
      (int_of_parts r.expires_at)
    ∙ ap (λ (p : Bytes × Bytes). pack r.expires_at p.0 (cut (length r.payload) p.1))
        (cut_append r.recipient_id (r.payload ++ rest))
    ∙ ap (pack r.expires_at r.recipient_id) (cut_append r.payload rest)

rows_of_bytes : (rs : List Row) → rows_of (length rs) (bytes_of_rows rs) ≡ rs
rows_of_bytes [] = refl
rows_of_bytes (r ∷ rs) = ground (arith, row_of_row r (bytes_of_rows rs), rows_of_bytes rs)

abbrev pub database_of : Bytes → Result Error (List Row)
database_of [] = err other
database_of (n ∷ b) = ok (rows_of n b)

pub deserialized :
    (d : List Row) (b : Bytes)
    → ◌≡◌ {A = Result Error Bytes} (ok (length d ∷ bytes_of_rows d)) (ok b)
    → (e : List Row) × (database_of b ≡ ok e) × (e ≡ d)
deserialized d b h = rw (ok-inj h) (rows_of (length d) (bytes_of_rows d), refl, rows_of_bytes d)

abbrev pub saving_sql : Sqlite
saving_sql = record toy_sql {
  serialize = λ (d : List Row). ok (length d ∷ bytes_of_rows d);
  deserialize = database_of;
  deserialize-serialize = deserialized;
}
