-- ===== src/Bitfield/Writer.antt =====
-- `BitWriter` of src/core/bitfield.cpp: the buffer and the number of bits written. An operation is a
-- function from the writer to the changed writer or an error; each error is returned before the
-- first bit is pushed, so no error leaves a changed writer behind. `>>` is
-- `r = w.f(...); if (!r) return Error{ r.error() };`.
use pgais.Base.{
  ℕ, zero, suc, ◌+◌, ◌-◌, ◌*◌, ◌/◌, ◌%◌, ◌^◌, List, [], ◌∷◌, ◌++◌, Bool, ◌||◌, ltb, leb, ◌==◌,
  if◌then◌else◌, bit_and, bit_or, length, get_or, set,
}
use pgais.Base.Int.{ℤ, to_unsigned}
use pgais.Error.{Result, ok, ◌>>=◌, fail, bitfield_width_invalid, bitfield_out_of_range}
use pgais.Bitfield.SixBit.{ascii_to_ais6bit}

pub record BitWriter : Type 0 where
  pub buf : List ℕ
  pub bit_length : ℕ

infixl 5 ◌>>◌
abbrev pub ◌>>◌ {ℓ} :
    {A : Type ℓ} → (BitWriter → Result BitWriter) → (BitWriter → Result A) → BitWriter → Result A
◌>>◌ f g w = f w >>= g

-- The constructor; the capacity that it reserves is not part of the state.
abbrev pub new_writer : BitWriter
new_writer = record { buf = []; bit_length = 0 }

-- `if (byte_idx >= buf_.size()) buf_.push_back(0);`
abbrev pub grown : List ℕ → ℕ → List ℕ
grown buf byte_idx = if leb (length buf) byte_idx then buf ++ 0 ∷ [] else buf

unfoldable pub push_bit : ℕ → BitWriter → BitWriter
push_bit bit w =
    let byte_idx = w.bit_length / 8 in
    let bit_pos = 7 - w.bit_length % 8 in
    let buf = grown w.buf byte_idx in
    record {
      buf = set buf byte_idx (bit_or (get_or buf byte_idx 0) (bit_and bit 1 * 2 ^ bit_pos % 2 ^ 8));
      bit_length = w.bit_length + 1;
    }

-- `for (i = width; i > 0; --i) push_bit((value >> (i - 1)) & 1);`
unfoldable pub push_value : ℕ → ℕ → BitWriter → BitWriter
unfolding push_bit
push_value value zero w = w
push_value value (suc i) w = push_value value i (push_bit (bit_and (value / 2 ^ i) 1) w)

unfoldable pub write_uint : ℕ → ℕ → BitWriter → Result BitWriter
write_uint value width w =
    if width == 0 || ltb 64 width
    then fail bitfield_width_invalid
    else ok (push_value value width w)

unfoldable pub write_int : ℤ → ℕ → BitWriter → Result BitWriter
write_int value width w =
    if width == 0 || ltb 64 width
    then fail bitfield_width_invalid
    else write_uint (to_unsigned 64 value) width w

unfoldable pub write_bool : Bool → BitWriter → Result BitWriter
write_bool value w = ok (push_bit (if value then 1 else 0) w)

-- The loop of `write_text` from character `i` of `text` on, with `n` characters to go.
unfoldable pub write_chars : List ℕ → ℕ → ℕ → BitWriter → Result BitWriter
write_chars text i zero w = ok w
write_chars text i (suc n) w =
    let ch = if ltb i (length text) then get_or text i 0 else b'@' in
    write_uint (ascii_to_ais6bit ch) 6 w >>= write_chars text (i + 1) n

unfoldable pub write_text : List ℕ → ℕ → BitWriter → Result BitWriter
write_text text char_count = write_chars text 0 char_count

-- The loop of `write_bits` from bit `i` of `src` on, with `n` bits to go.
unfoldable pub push_bits : List ℕ → ℕ → ℕ → BitWriter → BitWriter
unfolding push_bit
push_bits src i zero w = w
push_bits src i (suc n) w =
    push_bits src (i + 1) n (push_bit (bit_and (get_or src (i / 8) 0 / 2 ^ (7 - i % 8)) 1) w)

-- `(width + 7u) / 8u` is in size_t, so its sum wraps.
unfoldable pub write_bits : List ℕ → ℕ → BitWriter → Result BitWriter
write_bits src width w =
    if width == 0
    then ok w
    else if ltb (length src) ((width + 7) % 2 ^ 64 / 8)
    then fail bitfield_out_of_range
    else ok (push_bits src 0 width w)
