-- ===== src/Golib/Strings.antt =====
-- strings.SplitN(s, c, 2), strings.TrimPrefix, strings.ContainsAny and net.SplitHostPort.
pub mod Laws
use spectre_relay.Prelude.{
  ℕ, ◌+◌, Bool, true, false, ◌||◌, Option, none, some, List, [], ◌∷◌, if◌then◌else◌, ◌==◌, Text,
  contains, length, take, drop, text_eq,
}

abbrev put_front : ℕ → Option (Text × Text) → Option (Text × Text)
put_front a none = none
put_front a (some (s, t)) = some (a ∷ s, t)

-- The text before and after the first `c`.
unfoldable pub cut : ℕ → Text → Option (Text × Text)
cut c [] = none
cut c (a ∷ s) = if a == c then some ([], s) else put_front a (cut c s)

-- The slice that `strings.SplitN(s, c, 2)` returns has one element or two.
pub data Parts : Type 0 where
  one : Text → Parts
  two : Text → Text → Parts

unfoldable pub split_n : ℕ → Text → Parts
split_n c s = elim (cut c s) [ none ↦ one s | some (a, b) ↦ two a b ]

-- `parts[0]`
abbrev pub first : Parts → Text
first (one s) = s
first (two s t) = s

unfoldable pub trim_prefix : Text → Text → Text
trim_prefix s prefix = if text_eq (take (length prefix) s) prefix then drop (length prefix) s else s

unfoldable pub contains_any : Text → Text → Bool
contains_any s [] = false
contains_any s (c ∷ chars) = contains c s || contains_any s chars

-- The port after a closing bracket: a colon, and no colon behind it.
abbrev after_bracket : Text → Text → Text → Option (Text × Text)
after_bracket s host [] = none
after_bracket s host (c ∷ port) =
    if c == b':'
    then if contains b':' port || contains b'[' s || contains b']' port
      then none
      else some (host, port)
    else none

-- `none` is an error.
unfoldable pub split_host_port : Text → Option (Text × Text)
split_host_port [] = none
split_host_port (a ∷ s) =
    if a == b'['
    then elim (cut b']' s) [ none ↦ none | some (host, rest) ↦ after_bracket s host rest ]
    else elim (cut b':' (a ∷ s)) [
      | none ↦ none
      | some (host, port) ↦
          if contains b':' port || contains b'[' (a ∷ s) || contains b']' (a ∷ s)
          then none
          else some (host, port)
    ]
