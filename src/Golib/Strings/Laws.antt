-- ===== src/Golib/Strings/Laws.antt =====
-- What a split says of its parts.
use spectre_relay.Prelude.{
  ℕ, ◌≡◌, refl, inl, inr, false, none, some, [], ◌∷◌, ◌++◌, Text, contains, arith, Option-cases,
}
use spectre_relay.Golib.Strings.{cut, one, two, split_n, first}

pub cut-eq-none : (c : ℕ) (s : Text) → contains c s ≡ false → cut c s ≡ none
unfolding cut contains
cut-eq-none c [] h = refl
cut-eq-none c (a ∷ s) h = ground (arith, cut-eq-none c s)

pub cut-contains : (c : ℕ) (s a b : Text) → cut c s ≡ some (a, b) → contains c a ≡ false
unfolding cut contains
cut-contains c [] a b h = cc
cut-contains c (x ∷ s) a b h = elim (Option-cases (cut c s)) [
  | inl e ↦ ground (arith, h, e)
  | inr ((a', b'), e) ↦ ground (arith, h, e, cut-contains c s a' b' e)
]

pub none-contains : (c : ℕ) (s : Text) → cut c s ≡ none → contains c s ≡ false
unfolding cut contains
none-contains c [] h = refl
none-contains c (a ∷ s) h = elim (Option-cases (cut c s)) [
  | inl e ↦ ground (arith, none-contains c s e)
  | inr ((a', b'), e) ↦ ground (arith, h, e)
]

-- Joined at the first separator, the parts come back.
pub cut-join : (c : ℕ) (a b : Text) → contains c a ≡ false → cut c (a ++ c ∷ b) ≡ some (a, b)
unfolding cut contains
cut-join c [] b h = ground arith
cut-join c (x ∷ a) b h = ground (arith, cut-join c a b)

pub split_n-join : (c : ℕ) (a b : Text) → contains c a ≡ false → split_n c (a ++ c ∷ b) ≡ two a b
unfolding split_n
split_n-join c a b h = rw (cut-join c a b h, split_n)

pub split_n-plain : (c : ℕ) (a : Text) → contains c a ≡ false → split_n c a ≡ one a
unfolding split_n
split_n-plain c a h = rw (cut-eq-none c a h, split_n)

-- The first part holds no separator.
pub first-contains : (c : ℕ) (s : Text) → contains c (first (split_n c s)) ≡ false
unfolding split_n
first-contains c s = elim (Option-cases (cut c s)) [
  | inl e ↦ ground (arith, e, none-contains c s e)
  | inr ((a, b), e) ↦ ground (arith, e, cut-contains c s a b e)
]
