-- ===== src/Bitfield/Reader.antt =====
-- `BitReader` of src/core/bitfield.cpp. A reader is its buffer. The type `size_t` has 64 bits, and its
-- sums and products wrap. A read past the buffer is undefined in the source; here it gives a zero
-- byte.
use pgais.Base.{
  ℕ, zero, suc, ◌+◌, ◌-◌, ◌*◌, ◌/◌, ◌%◌, ◌^◌, List, [], ◌∷◌, Bool, ◌&&◌, ◌||◌, ltb, ◌==◌,
  if◌then◌else◌, bit_and, bit_or, length, get_or, set, replicate, not,
}
use pgais.Base.Int.{ℤ, to_signed}
use pgais.Error.{
  ErrorCode, success, bitfield_width_invalid, bitfield_out_of_range, Result, ok, fail,
}
use pgais.Bitfield.SixBit.{ais6bit_to_ascii}

-- `read_bit`.
unfoldable pub read_bit : List ℕ → ℕ → ℕ
read_bit buf idx = bit_and (get_or buf (idx / 8) 0 / 2 ^ (7 - idx % 8)) 1

unfoldable pub bit_length : List ℕ → ℕ
bit_length buf = length buf * 8 % 2 ^ 64

unfoldable pub check_bounds : List ℕ → ℕ → ℕ → ErrorCode
unfolding bit_length
check_bounds buf offset width =
    if width == 0 || ltb 64 width
    then bitfield_width_invalid
    else if ltb (bit_length buf) ((offset + width) % 2 ^ 64)
    then bitfield_out_of_range
    else success

-- `if (ec != ErrorCode::Ok) return Error{ ec };`, then the value.
abbrev unless_failed {ℓ} : {A : Type ℓ} → ErrorCode → A → Result A
unless_failed success a = ok a
unless_failed e a = fail e

-- `value = (value << 1) | read_bit(buf_, idx)` for `width` bits from `idx` on, in a uint64_t.
unfoldable pub read_loop : List ℕ → ℕ → ℕ → ℕ → ℕ
unfolding read_bit
read_loop buf idx zero value = value
read_loop buf idx (suc width) value =
    read_loop buf (idx + 1) width (bit_or (value * 2 % 2 ^ 64) (read_bit buf idx))

unfoldable pub read_uint : List ℕ → ℕ → ℕ → Result ℕ
read_uint buf offset width =
    unless_failed (check_bounds buf offset width) (read_loop buf offset width 0)

-- `raw |= (~0) << width` when the field's top bit is set and the field is narrower than the word.
unfoldable pub sign_extend : ℕ → ℕ → ℕ
sign_extend width raw =
    if ltb width 64 && not (bit_and (raw / 2 ^ (width - 1)) 1 == 0)
    then bit_or raw ((2 ^ 64 - 1) * 2 ^ width % 2 ^ 64)
    else raw

unfoldable pub read_int : List ℕ → ℕ → ℕ → Result ℤ
read_int buf offset width =
    unless_failed (check_bounds buf offset width)
      (to_signed 64 (sign_extend width (read_loop buf offset width 0)))

unfoldable pub read_bool : List ℕ → ℕ → Result Bool
read_bool buf offset = unless_failed (check_bounds buf offset 1) (not (read_bit buf offset == 0))

-- The characters of a text field, `n` of them from `idx` on.
unfoldable pub read_chars : List ℕ → ℕ → ℕ → List ℕ
read_chars buf idx zero = []
read_chars buf idx (suc n) =
    ais6bit_to_ascii (read_loop buf idx 6 0 % 2 ^ 8) ∷ read_chars buf (idx + 6) n

-- Padding: '@' and ' '.
abbrev pub is_padding : ℕ → Bool
is_padding c = c == b'@' || c == b' '

-- `while (!result.empty() && padding(result.back())) result.pop_back();`: a character goes when it is
-- padding and all behind it went.
unfoldable pub keep_before : ℕ → List ℕ → List ℕ
keep_before c [] = if is_padding c then [] else c ∷ []
keep_before c (d ∷ ds) = c ∷ d ∷ ds

unfoldable pub strip : List ℕ → List ℕ
unfolding keep_before
strip [] = []
strip (c ∷ cs) = keep_before c (strip cs)

unfoldable pub read_text : List ℕ → ℕ → ℕ → Result (List ℕ)
read_text buf offset char_count =
    if char_count == 0
    then ok []
    else if ltb (bit_length buf) ((offset + char_count * 6 % 2 ^ 64) % 2 ^ 64)
    then fail bitfield_out_of_range
    else ok (strip (read_chars buf offset char_count))

-- `result[i / 8] |= bit << (7 - i % 8)` for the `n` bits from number `i` on.
unfoldable pub copy_bits : List ℕ → ℕ → ℕ → ℕ → List ℕ → List ℕ
unfolding read_bit
copy_bits buf offset i zero out = out
copy_bits buf offset i (suc n) out = copy_bits buf offset (i + 1) n (
    set out (i / 8)
      (bit_or (get_or out (i / 8) 0) (read_bit buf (offset + i) * 2 ^ (7 - i % 8) % 2 ^ 8)))

unfoldable pub read_bits : List ℕ → ℕ → ℕ → Result (List ℕ)
read_bits buf offset width =
    if width == 0
    then ok []
    else unless_failed (check_bounds buf offset width)
        (copy_bits buf offset 0 width (replicate ((width + 7) / 8) 0))
