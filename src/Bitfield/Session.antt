-- ===== src/Bitfield/Session.antt =====
-- A writer in use: writes, and reads of its buffer, in any order. What the calls of `BitWriter` and
-- `BitReader` answer, and what they answer by an abstract state that is just the bits written.
use pgais.Base.{
  ℕ, zero, suc, ◌+◌, ◌*◌, ◌/◌, List, [], ◌∷◌, ◌++◌, Bool, ◌||◌, not, ltb, ◌==◌, if◌then◌else◌,
  length, get_or,
}
use pgais.Base.Int.{ℤ, to_unsigned, to_signed}
use pgais.Error.{ErrorCode, Result, ok, err, fail, bitfield_width_invalid, bitfield_out_of_range}
use pgais.Bitfield.SixBit.{ais6bit_to_ascii}
use pgais.Bitfield.Reader.{read_uint, read_int, read_bool, read_text, read_bits, strip}
use pgais.Bitfield.Writer.{BitWriter, write_uint, write_int, write_bool, write_text, write_bits}
use pgais.Bitfield.Digits.{to_bits, of_bits, bits_at}
use pgais.Bitfield.Numbers.{flag_bit}
use pgais.Bitfield.Packed.{slice, packed}
use pgais.Bitfield.Text.{text_bits}

pub data Operation : Type 0 where
  put_uint : ℕ → ℕ → Operation
  put_int : ℤ → ℕ → Operation
  put_bool : Bool → Operation
  put_text : List ℕ → ℕ → Operation
  put_bits : List ℕ → ℕ → Operation
  get_uint : ℕ → ℕ → Operation
  get_int : ℕ → ℕ → Operation
  get_bool : ℕ → Operation
  get_text : ℕ → ℕ → Operation
  get_bits : ℕ → ℕ → Operation

pub data Answer : Type 0 where
  done : Answer
  failed : ErrorCode → Answer
  number : ℕ → Answer
  integer : ℤ → Answer
  boolean : Bool → Answer
  characters : List ℕ → Answer
  bytes : List ℕ → Answer

-- What a caller learns of a result.
unfoldable pub told : {A : Type 0} → (A → Answer) → Result A → Answer
told f (ok a) = f a
told f (err e) = failed e.code

-- A write: a failed one leaves the writer as it was.
unfoldable pub written : {A : Type 0} → A → Result A → A × Answer
written w (ok w') = (w', done)
written w (err e) = (w, failed e.code)

-- The calls of the source.
unfoldable pub perform : Operation → BitWriter → BitWriter × Answer
perform (put_uint value width) w = written w (write_uint value width w)
perform (put_int value width) w = written w (write_int value width w)
perform (put_bool value) w = written w (write_bool value w)
perform (put_text text char_count) w = written w (write_text text char_count w)
perform (put_bits src width) w = written w (write_bits src width w)
perform (get_uint offset width) w = (w, told number (read_uint w.buf offset width))
perform (get_int offset width) w = (w, told integer (read_int w.buf offset width))
perform (get_bool offset) w = (w, told boolean (read_bool w.buf offset))
perform (get_text offset char_count) w = (w, told characters (read_text w.buf offset char_count))
perform (get_bits offset width) w = (w, told bytes (read_bits w.buf offset width))

unfoldable pub perform_all : List Operation → BitWriter → List Answer
perform_all [] w = []
perform_all (op ∷ ops) w = let (w', answer) = perform op w in answer ∷ perform_all ops w'

-- The characters of text fields.
abbrev pub letters : List ℕ → ℕ → ℕ → List ℕ
letters bits i zero = []
letters bits i (suc n) = ais6bit_to_ascii (of_bits 0 (slice bits i 6)) ∷ letters bits (i + 6) n

-- The bits of the bytes that hold these bits.
abbrev pub room : List ℕ → ℕ
room bits = (length bits + 7) / 8 * 8

-- A read of `width` bits from `offset` on.
abbrev pub read_if : {A : Type 0} → List ℕ → ℕ → ℕ → A → Result A
read_if bits offset width a =
    if width == 0 || ltb 64 width
    then fail bitfield_width_invalid
    else if ltb (room bits) (offset + width)
    then fail bitfield_out_of_range
    else ok a

-- A write of a number's last `width` bits.
abbrev pub append_if : List ℕ → ℕ → ℕ → Result (List ℕ)
append_if bits width v =
    if width == 0 || ltb 64 width then fail bitfield_width_invalid else ok (bits ++ to_bits width v)

abbrev pub promise : Operation → List ℕ → List ℕ × Answer
promise (put_uint value width) bits = written bits (append_if bits width value)
promise (put_int value width) bits = written bits (append_if bits width (to_unsigned 64 value))
promise (put_bool value) bits = (bits ++ flag_bit value ∷ [], done)
promise (put_text text char_count) bits = (bits ++ text_bits char_count text, done)
promise (put_bits src width) bits =
    if ltb (length src) ((width + 7) / 8)
    then (bits, failed bitfield_out_of_range)
    else (bits ++ bits_at src 0 width, done)
promise (get_uint offset width) bits =
    (bits, told number (read_if bits offset width (of_bits 0 (slice bits offset width))))
promise (get_int offset width) bits = (
  bits,
  told integer (read_if bits offset width (to_signed width (of_bits 0 (slice bits offset width)))),
)
promise (get_bool offset) bits =
    (bits, told boolean (read_if bits offset 1 (not (get_or bits offset 0 == 0))))
promise (get_text offset char_count) bits = (
  bits,
  told characters (
      if char_count == 0
      then ok []
      else if ltb (room bits) (offset + char_count * 6)
      then fail bitfield_out_of_range
      else ok (strip (letters bits offset char_count))),
)
promise (get_bits offset width) bits = (
  bits,
  told bytes
      (if width == 0 then ok [] else read_if bits offset width (packed (slice bits offset width))),
)

unfoldable pub promise_all : List Operation → List ℕ → List Answer
promise_all [] bits = []
promise_all (op ∷ ops) bits =
    let (bits', answer) = promise op bits in answer ∷ promise_all ops bits'
