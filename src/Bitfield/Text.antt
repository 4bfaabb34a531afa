-- ===== src/Bitfield/Text.antt =====
-- Text fields: six bits a character, padded with '@' and cut at the field's end. What `read_text` gives
-- back for a text that `write_text` wrote.
use native.Mathlib.Numerals.{add-one}
use pgais.Base.{
  ℕ, zero, suc, ◌+◌, ◌*◌, ◌%◌, ◌^◌, ◌≤◌, ◌<◌, ◌≡◌, refl, ap, ap₂, ◌∙◌, arith, List, [], ◌∷◌, ◌++◌,
  append-nil, length, get_or, drop, length-append, Bool, false, ◌&&◌, if◌then◌else◌, ltb, leb, ◌==◌,
  ==→eq, all_below, all_below-lt, All,
}
use pgais.Error.{ok}
use pgais.Bitfield.SixBit.{ais6bit_to_ascii, ascii_to_ais6bit, IsPrintable}
use pgais.Bitfield.Reader.{
  read_loop, read_chars, read_text, strip, keep_before, is_padding, bit_length,
}
use pgais.Bitfield.Writer.{write_chars, write_text, write_uint}
use pgais.Bitfield.Digits.{to_bits, length-to_bits}
use pgais.Bitfield.Numbers.{
  Appends, HasAt, write_uint-Appends, >>-Appends, read_loop-HasAt, HasAt-next, HasAt-first,
}

-- The character that a text field shows for `c`: itself, or '?' where it has no 6-bit value.
abbrev pub shown_char : ℕ → ℕ
shown_char c = if leb 32 c && leb c 95 then c else b'?'

-- The characters of a field of `n` places.
abbrev pub shown : ℕ → List ℕ → List ℕ
shown zero text = []
shown (suc n) [] = b'@' ∷ shown n []
shown (suc n) (c ∷ text) = shown_char c ∷ shown n text

unfoldable pub text_bits : ℕ → List ℕ → List ℕ
text_bits zero text = []
text_bits (suc n) [] = to_bits 6 0 ++ text_bits n []
text_bits (suc n) (c ∷ text) = to_bits 6 (ascii_to_ais6bit c) ++ text_bits n text

pub length-text_bits : (n : ℕ) (text : List ℕ) → length (text_bits n text) ≡ n * 6
unfolding text_bits
length-text_bits zero text = omega arith
length-text_bits (suc n) [] =
    omega (
      arith,
      length-append (to_bits 6 0) (text_bits n []),
      length-to_bits 6 0,
      length-text_bits n [],
    )
length-text_bits (suc n) (c ∷ text) =
    let six = to_bits 6 (ascii_to_ais6bit c) in
    omega (
      arith,
      length-append six (text_bits n text),
      length-to_bits 6 (ascii_to_ais6bit c),
      length-text_bits n text,
    )

-- The code is checked by evaluation on its 64 values.
decodes : ℕ → Bool
unfolding ais6bit_to_ascii
decodes v = ais6bit_to_ascii v == (if ltb v 32 then v + 64 else v)

pub decode_six : (v : ℕ) → v < 64 → ais6bit_to_ascii v ≡ (if ltb v 32 then v + 64 else v)
unfolding decodes all_below
decode_six v h =
    ==→eq (ais6bit_to_ascii v) (if ltb v 32 then v + 64 else v) (all_below-lt decodes 64 v refl h)

ascii_to_ais6bit-lt : (c : ℕ) → ascii_to_ais6bit c < 64
unfolding ascii_to_ais6bit
ascii_to_ais6bit-lt c = ground arith

-- A printable character survives the code, and every other comes back as '?'.
pub ais6bit_to_ascii-ascii_to_ais6bit :
    (c : ℕ) → ais6bit_to_ascii (ascii_to_ais6bit c) ≡ shown_char c
unfolding ascii_to_ais6bit
ais6bit_to_ascii-ascii_to_ais6bit c =
    decode_six (ascii_to_ais6bit c) (ascii_to_ais6bit-lt c) ∙ ground arith

-- Every 6-bit value survives the way through its character.
pub ascii_to_ais6bit-ais6bit_to_ascii : (v : ℕ) → v < 64 → ascii_to_ais6bit (ais6bit_to_ascii v) ≡ v
unfolding ascii_to_ais6bit
ascii_to_ais6bit-ais6bit_to_ascii v h = rw (decode_six v h) (ground arith)

-- The character that `write_text` takes for place `i`.
char_at : List ℕ → ℕ → ℕ
char_at text i = if ltb i (length text) then get_or text i 0 else b'@'

char_at_past : (i : ℕ) → char_at [] i ≡ b'@'
unfolding char_at
char_at_past i = ground arith

char_at_first : (c : ℕ) (text : List ℕ) → char_at (c ∷ text) 0 ≡ c
unfolding char_at
char_at_first c text = ground arith

char_at_next : (c : ℕ) (text : List ℕ) (i : ℕ) → char_at (c ∷ text) (suc i) ≡ char_at text i
unfolding char_at
char_at_next c text i = ground arith

text_bits-drop :
    (n : ℕ) (text : List ℕ) (i : ℕ)
    → text_bits (suc n) (drop i text)
      ≡ to_bits 6 (ascii_to_ais6bit (char_at text i)) ++ text_bits n (drop (suc i) text)
unfolding ascii_to_ais6bit text_bits
text_bits-drop n [] zero = rw (char_at_past zero)
text_bits-drop n [] (suc i) = rw (char_at_past (suc i))
text_bits-drop n (c ∷ text) zero = rw (char_at_first c text)
text_bits-drop n (c ∷ text) (suc i) = rw (char_at_next c text i) (text_bits-drop n text i)

write_chars-Appends :
    (n : ℕ) (text : List ℕ) (i : ℕ) → Appends (write_chars text i n) (text_bits n (drop i text))
unfolding write_chars char_at text_bits
write_chars-Appends zero text i = λ w bits r. (w, refl, rw (append-nil bits) r)
write_chars-Appends (suc n) text i =
    let six = ascii_to_ais6bit (char_at text i) in
    rw (text_bits-drop n text i) (
      >>-Appends (write_uint six 6) (write_chars text (i + 1) n) (to_bits 6 six)
        (text_bits n (drop (suc i) text)) (write_uint-Appends six 6 (omega arith))
        (rw (add-one i) (write_chars-Appends n text (suc i))))

pub write_text-Appends : (n : ℕ) (text : List ℕ) → Appends (write_text text n) (text_bits n text)
unfolding write_text
write_text-Appends n text = write_chars-Appends n text 0

module _ {buf : List ℕ} where
  char-HasAt :
      (offset six : ℕ) (more : List ℕ)
      → six < 64
      → HasAt buf offset (to_bits 6 six ++ more)
      → ais6bit_to_ascii (read_loop buf offset 6 0 % 2 ^ 8) ≡ ais6bit_to_ascii six
  char-HasAt offset six more k h =
      let first = HasAt-first offset (to_bits 6 six) more h in
      let value : read_loop buf offset 6 0 % 2 ^ 8 ≡ six =
        omega (arith, read_loop-HasAt offset 6 six first (omega arith)) in
      ap ais6bit_to_ascii value

  read_chars-HasAt :
      (n offset : ℕ) (text : List ℕ)
      → HasAt buf offset (text_bits n text)
      → read_chars buf offset n ≡ shown n text
  unfolding read_chars text_bits
  read_chars-HasAt zero offset text h = refl
  read_chars-HasAt (suc n) offset [] h =
      ap₂ ◌∷◌ (char-HasAt offset 0 (text_bits n []) (omega arith) h ∙ decode_six 0 (omega arith)) (
        read_chars-HasAt n (offset + 6) []
          (HasAt-next offset 6 (to_bits 6 0) (text_bits n []) h (length-to_bits 6 0)))
  read_chars-HasAt (suc n) offset (c ∷ text) h =
      let six = ascii_to_ais6bit c in
      ap₂ ◌∷◌
        (char-HasAt offset six (text_bits n text) (ascii_to_ais6bit-lt c) h
          ∙ ais6bit_to_ascii-ascii_to_ais6bit c)
        (read_chars-HasAt n (offset + 6) text
          (HasAt-next offset 6 (to_bits 6 six) (text_bits n text) h (length-to_bits 6 six)))

  -- `read_text` gives back what the field shows, less the padding at its end.
  pub read_text-HasAt :
      (n offset : ℕ) (text : List ℕ)
      → HasAt buf offset (text_bits n text)
      → 1 ≤ n
      → read_text buf offset n ≡ ok (strip (shown n text))
  unfolding read_text bit_length
  read_text-HasAt n offset text h k = ground (
    arith,
    read_chars-HasAt n offset text h,
    h.stored.size,
    h.starts,
    h.small,
    length-append h.before (text_bits n text ++ h.after),
    length-append (text_bits n text) h.after,
    length-text_bits n text,
  )

-- A text that fits its field: printable, and not ending in padding.
abbrev pub EndsWell : List ℕ → Type 0
EndsWell [] = Unit {0}
EndsWell (c ∷ []) = is_padding c ≡ false
EndsWell (c ∷ d ∷ ds) = EndsWell (d ∷ ds)

shown_char_self : (c : ℕ) → IsPrintable c → shown_char c ≡ c
shown_char_self c h = ground arith

pub strip-shown :
    (n : ℕ) (text : List ℕ)
    → All IsPrintable text
    → EndsWell text
    → length text ≤ n
    → strip (shown n text) ≡ text
unfolding strip keep_before
strip-shown zero [] h e k = refl
strip-shown zero (c ∷ text) h e k = absurd (omega arith)
strip-shown (suc n) [] h e k = rw (strip-shown n [] h e (omega arith))
strip-shown (suc n) (c ∷ []) h e k =
    rw (strip-shown n [] tt tt (omega arith), shown_char_self c h.0, keep_before, e)
strip-shown (suc n) (c ∷ d ∷ text) h e k =
    rw (strip-shown n (d ∷ text) h.1 e (omega arith), shown_char_self c h.0)
