-- ===== src/Golib/Base64/Laws.antt =====
-- Decoding what was encoded, also with something malformed behind it.
use spectre_relay.Prelude.{
  ℕ, ◌∙◌, keep_if-append, ◌+◌, ◌*◌, ◌/◌, ◌%◌, ◌<◌, ◌≡◌, refl, ap, true, false, [], ◌∷◌, ◌++◌,
  length, All, Text, Bytes, arith, keep_if, ◌==◌, some,
}
use mathlib.Core.Path.{ap₂}
use spectre_relay.Golib.Base64.{
  char_of, value_of, encode, decode_quanta, decode, put_front, ends, is_text,
}

abbrev pub AreBytes : Bytes → Type 0
AreBytes = All (λ b. b < 256)

value_of-char_of : (n : ℕ) → n < 64 → value_of (char_of n) ≡ some n
unfolding value_of char_of
value_of-char_of n h = ground arith

char_of-ne_pad : (n : ℕ) → n < 64 → (char_of n == b'=') ≡ false
unfolding char_of
char_of-ne_pad n h = ground arith

quantum :
    (x y z w : ℕ) (s : Text)
    → x < 64
    → y < 64
    → z < 64
    → w < 64
    → decode_quanta (char_of x ∷ char_of y ∷ char_of z ∷ char_of w ∷ s)
      ≡ put_front
          ((x * 4 + y / 16) ∷ (y % 16 * 16 + z / 4) ∷ (z % 4 * 64 + w) ∷ [])
          (decode_quanta s)
unfolding decode_quanta
quantum x y z w s hx hy hz hw =
    rw
      (
        value_of-char_of x hx,
        value_of-char_of y hy,
        char_of-ne_pad z hz,
        value_of-char_of z hz,
        char_of-ne_pad w hw,
        value_of-char_of w hw,
        decode_quanta,
      )
      refl

-- One byte and two of padding; `s` is what stands behind them.
last_one :
    (x y : ℕ) (s : Text)
    → x < 64
    → y < 64
    → decode_quanta (char_of x ∷ char_of y ∷ b'=' ∷ b'=' ∷ s) ≡ ends s ((x * 4 + y / 16) ∷ [])
unfolding decode_quanta
last_one x y s hx hy = rw (value_of-char_of x hx, value_of-char_of y hy, decode_quanta) refl

last_two :
    (x y z : ℕ) (s : Text)
    → x < 64
    → y < 64
    → z < 64
    → decode_quanta (char_of x ∷ char_of y ∷ char_of z ∷ b'=' ∷ s)
      ≡ ends s ((x * 4 + y / 16) ∷ (y % 16 * 16 + z / 4) ∷ [])
unfolding decode_quanta
last_two x y z s hx hy hz =
    rw
      (
        value_of-char_of x hx,
        value_of-char_of y hy,
        char_of-ne_pad z hz,
        value_of-char_of z hz,
        decode_quanta,
      )
      refl

first_byte : (a b : ℕ) → b < 256 → a / 4 * 4 + (a % 4 * 16 + b / 16) / 16 ≡ a
first_byte a b h = omega arith

second_byte :
    (a b c : ℕ)
    → b < 256
    → c < 256
    → (a % 4 * 16 + b / 16) % 16 * 16 + (b % 16 * 4 + c / 64) / 4 ≡ b
second_byte a b c h k = omega arith

third_byte : (b c : ℕ) → c < 256 → (b % 16 * 4 + c / 64) % 4 * 64 + c % 64 ≡ c
third_byte b c h = omega arith

-- A padded text decodes to its bytes whatever stands behind the padding; only the error tells.
encode-append-ends :
    (bs : Bytes) (s : Text)
    → AreBytes bs
    → 0 < length bs % 3
    → decode_quanta (encode bs ++ s) ≡ ends s bs
unfolding encode
encode-append-ends [] s h pad = absurd (omega arith)
encode-append-ends (a ∷ []) s h pad =
    last_one (a / 4) (a % 4 * 16) s (omega arith) (omega arith)
    ∙ ap (λ (x : ℕ). ends s (x ∷ [])) (omega arith)
encode-append-ends (a ∷ b ∷ []) s h pad =
    last_two (a / 4) (a % 4 * 16 + b / 16) (b % 16 * 4) s (omega arith) (omega arith) (omega arith)
    ∙ ap₂ (λ (x y : ℕ). ends s (x ∷ y ∷ [])) (omega arith) (omega arith)
encode-append-ends (a ∷ b ∷ c ∷ bs) s h pad =
    quantum (a / 4) (a % 4 * 16 + b / 16) (b % 16 * 4 + c / 64) (c % 64) (encode bs ++ s)
      (omega arith) (omega arith) (omega arith) (omega arith)
    ∙ rw
        (
          encode-append-ends bs s h.1.1.1 (omega arith),
          first_byte a b h.1.0,
          second_byte a b c h.1.0 h.1.1.0,
          third_byte b c h.1.1.0,
        )
        (front s)
  where
    front : (s : Text) → put_front (a ∷ b ∷ c ∷ []) (ends s bs) ≡ ends s (a ∷ b ∷ c ∷ bs)
    front [] = refl
    front (_ ∷ _) = refl

decode_quanta-encode : (bs : Bytes) → AreBytes bs → decode_quanta (encode bs) ≡ ends [] bs
unfolding encode decode_quanta
decode_quanta-encode [] h = refl
decode_quanta-encode (a ∷ []) h = encode-append-ends (a ∷ []) [] h (omega arith)
decode_quanta-encode (a ∷ b ∷ []) h = encode-append-ends (a ∷ b ∷ []) [] h (omega arith)
decode_quanta-encode (a ∷ b ∷ c ∷ bs) h =
    quantum (a / 4) (a % 4 * 16 + b / 16) (b % 16 * 4 + c / 64) (c % 64) (encode bs) (omega arith)
      (omega arith) (omega arith) (omega arith)
    ∙ rw
        (
          decode_quanta-encode bs h.1.1.1,
          first_byte a b h.1.0,
          second_byte a b c h.1.0 h.1.1.0,
          third_byte b c h.1.1.0,
        )
        refl

char_of-is_text : (n : ℕ) → is_text (char_of n) ≡ true
unfolding char_of
char_of-is_text n = ground arith

keep_if-encode : (bs : Bytes) → keep_if is_text (encode bs) ≡ encode bs
unfolding encode
keep_if-encode [] = refl
keep_if-encode (a ∷ []) = simp char_of-is_text
keep_if-encode (a ∷ b ∷ []) = simp char_of-is_text
keep_if-encode (a ∷ b ∷ c ∷ bs) = simp (char_of-is_text, keep_if-encode bs)

-- What `EncodeToString` writes, `DecodeString` reads back without an error.
pub decode-encode :
    (bs : Bytes) → AreBytes bs → decode (encode bs) ≡ record { bytes = bs; valid = true }
unfolding decode
decode-encode bs h = rw keep_if-encode (decode_quanta-encode bs h)

-- Behind a padded text anything may stand: the bytes come back, beside an error.
pub decode-encode_junk :
    (bs : Bytes) (c : ℕ) (junk : Text)
    → AreBytes bs
    → 0 < length bs % 3
    → is_text c ≡ true
    → decode (encode bs ++ c ∷ junk) ≡ record { bytes = bs; valid = false }
unfolding decode
decode-encode_junk bs c junk h pad text =
    rw (keep_if-append is_text (encode bs) (c ∷ junk), keep_if-encode bs, text)
      (encode-append-ends bs (c ∷ keep_if is_text junk) h pad)
