-- ===== src/Sentence/Checksum.antt =====
-- The checksum of a sentence: its two digits and what `parse_hex8` reads in them.
use pgais.Base.{
  ℕ, ◌^◌, ◌<◌, ◌≡◌, refl, arith, List, [], ◌∷◌, Bool, true, false, not, ◌&&◌, ◌||◌, ◌==◌, Option,
  none, some, All, bit_xor, all_below, all_below-lt,
}
use pgais.Bits.{xor-lt}
use pgais.Bitfield.Storage.{IsByte}
use pgais.Sentence.{parse_hex8, hex8, xor_from, compute_checksum, parse_hex_digits, hex_value}

is_value : ℕ → Option ℕ → Bool
is_value n none = false
is_value n (some v) = v == n

-- Neither the checksum's delimiter nor a line end.
abbrev pub is_inner : ℕ → Bool
is_inner c = not (c == b'*') && not (c == b'\r' || c == b'\n')

is_pair : List ℕ → Bool
is_pair (c ∷ d ∷ []) = is_inner c && is_inner d
is_pair _ = false

reads_back : ℕ → Bool
unfolding is_value is_pair parse_hex8 hex8 parse_hex_digits hex_value
reads_back n = is_value n (parse_hex8 (hex8 n)) && is_pair (hex8 n)

all_bytes : all_below reads_back 256 ≡ true
unfolding all_below reads_back is_value is_pair
all_bytes = refl

and_true : (a b : Bool) → (a && b) ≡ true → (a ≡ true) × (b ≡ true)
and_true true b h = (refl, h)
and_true false b h = cc

pub record IsHex (n : ℕ) (text : List ℕ) : Type 0 where
  pub first : ℕ
  pub second : ℕ
  pub digits : text ≡ first ∷ second ∷ []
  pub first_inner : is_inner first ≡ true
  pub second_inner : is_inner second ≡ true
  pub value : parse_hex8 text ≡ some n

is_value→eq : (n : ℕ) (o : Option ℕ) → is_value n o ≡ true → o ≡ some n
unfolding is_value
is_value→eq n none h = cc
is_value→eq n (some v) h = ground arith

is_pair→digits :
    (text : List ℕ)
    → is_pair text ≡ true
    → (c d : ℕ) × (text ≡ c ∷ d ∷ []) × (is_inner c ≡ true) × (is_inner d ≡ true)
unfolding is_pair
is_pair→digits [] h = cc
is_pair→digits (c ∷ []) h = cc
is_pair→digits (c ∷ d ∷ []) h =
    let both : (is_inner c ≡ true) × (is_inner d ≡ true) = and_true (is_inner c) (is_inner d) h in
    (c, d, refl, both.0, both.1)
is_pair→digits (c ∷ d ∷ e ∷ text) h = cc

IsHex-reads_back :
    (n : ℕ) (text : List ℕ) → (is_value n (parse_hex8 text) && is_pair text) ≡ true → IsHex n text
IsHex-reads_back n text h =
    let (v, p) = and_true (is_value n (parse_hex8 text)) (is_pair text) h in
    let (c, d, e, inner_c, inner_d) = is_pair→digits text p in
    record {
      first = c;
      second = d;
      digits = e;
      first_inner = inner_c;
      second_inner = inner_d;
      value = is_value→eq n (parse_hex8 text) v;
    }

-- The two digits of a byte, which are neither a delimiter nor a line end, are read as the byte.
pub parse_hex8-hex8 : (n : ℕ) → n < 2 ^ 8 → IsHex n (hex8 n)
unfolding reads_back
parse_hex8-hex8 n h = IsHex-reads_back n (hex8 n) (all_below-lt reads_back 256 n all_bytes h)

-- The checksum of a text of bytes is a byte.
pub xor_from-lt : (x : ℕ) (text : List ℕ) → x < 2 ^ 8 → All IsByte text → xor_from x text < 2 ^ 8
unfolding xor_from
xor_from-lt x [] h k = h
xor_from-lt x (c ∷ text) h k = xor_from-lt (bit_xor x c) text (xor-lt 8 x c h k.0) k.1

pub compute_checksum-IsHex :
    (text : List ℕ) → All IsByte text → IsHex (xor_from 0 text) (compute_checksum text)
unfolding compute_checksum
compute_checksum-IsHex text h =
    parse_hex8-hex8 (xor_from 0 text) (xor_from-lt 0 text (omega arith) h)
