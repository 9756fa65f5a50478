-- ===== src/Prelude/Texts.antt =====
-- Go strings and byte slices, as lists of bytes.
use Prim.Native.Nat.{ℕ}
use Prim.Native.Char.{code}
use Prim.Native.String.{String}
use mathlib.Core.Path.{◌≡◌, refl}
use mathlib.Core.Logic.{◌↔◌}
use mathlib.Core.Bool.{Bool, true, false, ◌&&◌, ◌||◌}
use mathlib.Core.List.{List, [], ◌∷◌}
use native.Mathlib.Omega.{arith}
use spectre_relay.Prelude.Tests.{◌==◌}

abbrev pub Bytes : Type 0
Bytes = List ℕ

abbrev pub Text : Type 0
Text = List ℕ

-- The bytes of an ASCII literal.
abbrev pub codes : String → Text
codes String.[] = []
codes (String.◌∷◌ c s) = code c ∷ codes s

unfoldable pub text_eq : Text → Text → Bool
text_eq [] [] = true
text_eq (a ∷ s) (b ∷ t) = a == b && text_eq s t
text_eq _ _ = false

sound : (s t : Text) → text_eq s t ≡ true → s ≡ t
unfolding text_eq
sound [] [] h = refl
sound [] (b ∷ t) h = ground arith
sound (a ∷ s) [] h = ground arith
sound (a ∷ s) (b ∷ t) h = ground (arith, sound s t)

pub text_eq_refl : (s : Text) → text_eq s s ≡ true
unfolding text_eq
text_eq_refl [] = refl
text_eq_refl (a ∷ s) = ground (arith, text_eq_refl s)

complete : (s t : Text) → s ≡ t → text_eq s t ≡ true
complete s t h = rw h (text_eq_refl t)

pub text_eq_iff : (s t : Text) → (text_eq s t ≡ true) ↔ (s ≡ t)
text_eq_iff s t = (sound s t, complete s t)

-- strings.Contains for a single byte.
unfoldable pub contains : ℕ → Text → Bool
contains c [] = false
contains c (a ∷ s) = a == c || contains c s
