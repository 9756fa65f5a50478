-- ===== src/RateLimit/Window.antt =====
-- The limiter against its specification: the log of the requests that it has allowed.
use spectre_relay.Prelude.{
  ℕ, ◌+◌, ◌≤◌, ◌≡◌, refl, Bool, ◌&&◌, List, [], ◌∷◌, ◌++◌, ltb, leb, length, keep_if,
  keep_if-append, length-keep_if-le, ◌≢◌, length-append, if◌then◌else◌, Text, text_eq, text_eq_iff,
  arith,
}
use spectre_relay.Prelude.Assoc.{Map, lookup, insert, lookup-insert}
use spectre_relay.RateLimit.{is_fresh, prune, attempts_of, take_slot}

-- What has been allowed so far, newest first.
abbrev pub Log : Type 0
Log = List (Text × ℕ)

-- An allowed request of the key in the minute that ends at `t`.
abbrev pub in_window : Text → ℕ → Text × ℕ → Bool
in_window key t r = text_eq r.0 key && (leb r.1 t && is_fresh t r.1)

-- How many requests of the key were allowed in the minute that ends at `t`.
abbrev pub granted : Text → ℕ → Log → ℕ
granted key t log = length (keep_if (in_window key t) log)

pub record Trace : Type 0 where
  pub attempts : Map (List ℕ)
  pub log : Log

-- One call of `allow`, with its answer noted in the log.
unfoldable pub note : ℕ → Trace → Text × ℕ → Trace
note per_min s (key, now) =
    let (attempts, allowed) = take_slot per_min s.attempts key now in
    record { attempts = attempts; log = if allowed then (key, now) ∷ s.log else s.log }

unfoldable pub replay : ℕ → Trace → List (Text × ℕ) → Trace
replay per_min s [] = s
replay per_min s (r ∷ rs) = replay per_min (note per_min s r) rs

abbrev pub start : Trace
start = record { attempts = []; log = [] }

-- The calls come in the order of their times.
abbrev pub IsOrdered : ℕ → List (Text × ℕ) → Type 0
IsOrdered last [] = Unit {0}
IsOrdered last (r ∷ rs) = (last ≤ r.1) × IsOrdered r.1 rs

-- The requests of a key that are still fresh at `t`, by the log.
abbrev pub fresh_of : Text → ℕ → Log → ℕ
fresh_of key t log = length (keep_if (λ r. text_eq r.0 key && is_fresh t r.1) log)

abbrev pub stored : ℕ → Trace → Text → ℕ
stored t s key = length (prune t (attempts_of s.attempts key))

pub record Inv (per_min last : ℕ) (s : Trace) : Type 0 where
  pub matches : (key : Text) (t : ℕ) → last ≤ t → stored t s key ≡ fresh_of key t s.log
  pub within : (key : Text) (t : ℕ) → granted key t s.log ≤ per_min
  pub past : (key : Text) (t : ℕ) → last ≤ t → granted key t s.log ≡ fresh_of key t s.log

prune-prune : (a b : ℕ) (xs : List ℕ) → a ≤ b → prune b (prune a xs) ≡ prune b xs
unfolding prune
prune-prune a b [] h = refl
prune-prune a b (x ∷ xs) h = ground (arith, prune-prune a b xs)

prune-append : (t : ℕ) (xs ys : List ℕ) → prune t (xs ++ ys) ≡ prune t xs ++ prune t ys
unfolding prune
prune-append t xs ys = keep_if-append (is_fresh t) xs ys

length-prune_mono : (a b : ℕ) (xs : List ℕ) → a ≤ b → length (prune b xs) ≤ length (prune a xs)
unfolding prune
length-prune_mono a b [] h = omega arith
length-prune_mono a b (x ∷ xs) h = ground (arith, length-prune_mono a b xs)

attempts_of-insert :
    (k j : Text) (xs : List ℕ) (m : Map (List ℕ))
    → attempts_of (insert k xs m) j ≡ (if text_eq k j then xs else attempts_of m j)
attempts_of-insert k j xs m = ground (arith, lookup-insert k j xs m)

abbrev one_if : Bool → ℕ
one_if b = if b then 1 else 0

abbrev allowed : ℕ → Map (List ℕ) → Text → ℕ → Bool
allowed per_min m key now = (take_slot per_min m key now).1

length-prune-snoc :
    (t : ℕ) (xs : List ℕ) (now : ℕ)
    → length (prune t (xs ++ now ∷ [])) ≡ length (prune t xs) + one_if (is_fresh t now)
length-prune-snoc t xs now =
    rw (prune-append t xs (now ∷ []), length-append (prune t xs) (prune t (now ∷ [])))
      (unfold prune in ground arith)

-- A call stores its own time when it is allowed, and loses only times that are no longer fresh.
take_slot-stored :
    (per_min : ℕ) (m : Map (List ℕ)) (key k : Text) (now t : ℕ)
    → now ≤ t
    → length (prune t (attempts_of (take_slot per_min m key now).0 k))
      ≡ length (prune t (attempts_of m k))
        + one_if (text_eq key k && (allowed per_min m key now && is_fresh t now))
unfolding take_slot
take_slot-stored per_min m key k now t h = ground (
  arith,
  text_eq_iff key k,
  attempts_of-insert key k (prune now (attempts_of m key)) m,
  attempts_of-insert key k (prune now (attempts_of m key) ++ now ∷ []) m,
  prune-prune now t (attempts_of m key) h,
  length-prune-snoc t (prune now (attempts_of m key)) now,
)

allowed-ltb :
    (per_min : ℕ) (m : Map (List ℕ)) (key : Text) (now : ℕ)
    → allowed per_min m key now ≡ ltb (length (prune now (attempts_of m key))) per_min
unfolding take_slot
allowed-ltb per_min m key now = ground arith

pub note-Inv :
    (per_min last : ℕ) (s : Trace) (key : Text) (now : ℕ)
    → Inv per_min last s
    → last ≤ now
    → Inv per_min now (note per_min s (key, now))
unfolding note
note-Inv per_min last s key now v h = record {
  matches =
      λ k t le. ground (arith, take_slot-stored per_min s.attempts key k now t le, v.matches k t);
  within = λ k t. ground (
    arith,
    text_eq_iff key k,
    allowed-ltb per_min s.attempts key now,
    v.within k t,
    v.matches k now,
    v.past k t,
    length-prune_mono now t (attempts_of s.attempts k),
    v.matches k t,
  );
  past = λ k t le. ground (arith, v.past k t);
}

abbrev end_of : ℕ → List (Text × ℕ) → ℕ
end_of last [] = last
end_of last (r ∷ rs) = end_of r.1 rs

replay-Inv :
    (per_min last : ℕ) (s : Trace) (rs : List (Text × ℕ))
    → Inv per_min last s
    → IsOrdered last rs
    → Inv per_min (end_of last rs) (replay per_min s rs)
unfolding replay
replay-Inv per_min last s [] v h = v
replay-Inv per_min last s ((key, now) ∷ rs) v h =
    replay-Inv per_min now (note per_min s (key, now)) rs (note-Inv per_min last s key now v h.0)
      h.1

IsOrdered-snoc :
    (last : ℕ) (rs : List (Text × ℕ)) (r : Text × ℕ)
    → IsOrdered last (rs ++ r ∷ [])
    → IsOrdered last rs × (end_of last rs ≤ r.1)
IsOrdered-snoc last [] r h = (tt, h.0)
IsOrdered-snoc last (x ∷ rs) r h = let (o, le) = IsOrdered-snoc x.1 rs r h.1 in ((h.0, o), le)

pub start-Inv : (per_min last : ℕ) → Inv per_min last start
unfolding prune
start-Inv per_min last = record {
  matches = λ key t h. unfold lookup in refl;
  within = λ key t. omega arith;
  past = λ key t h. refl;
}

-- Over any history of calls in the order of their times, no minute holds more allowed requests of
-- one key than the budget.
pub replay_within_budget :
    (per_min last : ℕ) (rs : List (Text × ℕ)) (key : Text) (t : ℕ)
    → IsOrdered last rs
    → granted key t (replay per_min start rs).log ≤ per_min
replay_within_budget per_min last rs key t h =
    (replay-Inv per_min last start rs (start-Inv per_min last) h).within key t

-- After any history of calls in the order of their times, a later request is allowed exactly when
-- fewer requests of its key than the budget were allowed in the minute that ends with it.
pub take_slot-granted :
    (per_min last : ℕ) (rs : List (Text × ℕ)) (key : Text) (now : ℕ)
    → IsOrdered last (rs ++ (key, now) ∷ [])
    → (take_slot per_min (replay per_min start rs).attempts key now).1
      ≡ ltb (granted key now (replay per_min start rs).log) per_min
take_slot-granted per_min last rs key now h =
    let (o, le) = IsOrdered-snoc last rs (key, now) h in
    let v = replay-Inv per_min last start rs (start-Inv per_min last) o in
    rw
      (
        allowed-ltb per_min (replay per_min start rs).attempts key now,
        v.matches key now le,
        v.past key now le,
      )
      refl

abbrev pub IsBounded : ℕ → Map (List ℕ) → Type 0
IsBounded per_min m = (key : Text) → length (attempts_of m key) ≤ per_min

length-prune-le : (now : ℕ) (xs : List ℕ) → length (prune now xs) ≤ length xs
unfolding prune
length-prune-le now xs = length-keep_if-le (is_fresh now) xs

-- No key ever holds more timestamps than the budget, and a call leaves the other keys alone.
pub take_slot-IsBounded :
    (per_min : ℕ) (m : Map (List ℕ)) (key : Text) (now : ℕ)
    → IsBounded per_min m
    → IsBounded per_min (take_slot per_min m key now).0
      × ((j : Text) → key ≢ j → attempts_of (take_slot per_min m key now).0 j ≡ attempts_of m j)
unfolding take_slot
take_slot-IsBounded per_min m key now h = (
  λ j. ground (
    arith,
    h j,
    h key,
    text_eq_iff key j,
    attempts_of-insert key j (prune now (attempts_of m key)) m,
    attempts_of-insert key j (prune now (attempts_of m key) ++ now ∷ []) m,
    length-prune-le now (attempts_of m key),
    length-append (prune now (attempts_of m key)) (now ∷ []),
  ),
  λ j ne. ground (
    arith,
    text_eq_iff key j,
    attempts_of-insert key j (prune now (attempts_of m key)) m,
    attempts_of-insert key j (prune now (attempts_of m key) ++ now ∷ []) m,
  ),
)
