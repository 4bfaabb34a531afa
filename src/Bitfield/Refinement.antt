-- ===== src/Bitfield/Refinement.antt =====
-- `BitWriter` and `BitReader` in use keep what a plain sequence of bits promises.
use pgais.Base.{
  ℕ, zero, suc, ◌+◌, ◌*◌, ◌/◌, ◌^◌, ◌%◌, ◌≤◌, ◌<◌, ◌≡◌, refl, ap, ap₂, arith, List, [], ◌∷◌, ◌++◌,
  append-nil, true, false, ◌||◌, ltb, ◌==◌, length, length-append, All, Bool-cases, inl, inr,
}
use pgais.Base.Int.{to_unsigned}
use pgais.Error.{ErrorCode, Result, fail, bitfield_width_invalid}
use pgais.Bitfield.Writer.{
  BitWriter, new_writer, write_uint, write_int, write_bool, write_text, write_bits,
}
use pgais.Bitfield.Digits.{to_bits, bits_at, length-to_bits}
use pgais.Bitfield.Storage.{Written, new_writer-Written}
use pgais.Bitfield.Numbers.{
  Appends, flag_bit, write_uint-Appends, write_int-Appends, write_bool-Appends,
}
use pgais.Bitfield.Text.{text_bits, length-text_bits, write_text-Appends}
use pgais.Bitfield.Total.{length-bits_at}
use pgais.Bitfield.RawBits.{push_bits-Written}
use pgais.Bitfield.Session.{
  Operation, put_uint, put_int, put_bool, put_text, put_bits, get_uint, get_int, get_bool, get_text,
  get_bits, Answer, done, failed, number, integer, boolean, characters, bytes, told, written,
  perform, perform_all, append_if, promise, promise_all,
}
use pgais.Bitfield.Reads.{
  read_uint-slice, read_int-slice, read_bool-slice, read_text-slice, read_bits-slice,
}

-- How many bits an operation writes at most.
abbrev pub weight : Operation → ℕ
weight (put_uint value width) = width
weight (put_int value width) = width
weight (put_bool value) = 1
weight (put_text text char_count) = char_count * 6
weight (put_bits src width) = width
weight (get_uint offset width) = 0
weight (get_int offset width) = 0
weight (get_bool offset) = 0
weight (get_text offset char_count) = 0
weight (get_bits offset width) = 0

abbrev pub total_weight : List Operation → ℕ
total_weight [] = 0
total_weight (op ∷ ops) = weight op + total_weight ops

-- The end of a read does not wrap.
abbrev pub IsInReach : Operation → Type 0
IsInReach (get_uint offset width) = offset + width < 2 ^ 64
IsInReach (get_int offset width) = offset + width < 2 ^ 64
IsInReach (get_bool offset) = offset + 1 < 2 ^ 64
IsInReach (get_text offset char_count) = offset + char_count * 6 < 2 ^ 64
IsInReach (get_bits offset width) = offset + width < 2 ^ 64
IsInReach _ = Unit {0}

-- The writer holds the bits of the abstract state, which grew by at most `n`, and the answers agree.
record Agrees (n : ℕ) (bits : List ℕ) (r : BitWriter × Answer) (q : List ℕ × Answer) : Type 0 where
  pub held : Written r.0 q.0
  pub answer : r.1 ≡ q.1
  pub grown : length q.0 ≤ length bits + n

module _ (w : BitWriter) (bits : List ℕ) (h : Written w bits) where
  appended :
      (f : BitWriter → Result BitWriter) (more : List ℕ)
      → Appends f more
      → Agrees (length more) bits (written w (f w)) (bits ++ more, done)
  unfolding written
  appended f more a =
      let (w', e, held) = a w bits h in
      rw e (record { held = held; answer = refl; grown = omega (arith, length-append bits more) })

  unchanged : (n : ℕ) (a b : Answer) → a ≡ b → Agrees n bits (w, a) (bits, b)
  unchanged n a b e = record { held = h; answer = e; grown = omega arith }

  refused :
      (n : ℕ) (r : Result BitWriter) (c : ErrorCode)
      → r ≡ fail c
      → Agrees n bits (written w r) (bits, failed c)
  unfolding written
  refused n r c e = rw e (unchanged n (failed c) (failed c) refl)

  -- A write of a number.
  numbered :
      (f : BitWriter → Result BitWriter) (v width : ℕ)
      → (((width == 0) || ltb 64 width) ≡ true → f w ≡ fail bitfield_width_invalid)
      → (1 ≤ width → width ≤ 64 → Appends f (to_bits width v))
      → Agrees width bits (written w (f w)) (written bits (append_if bits width v))
  unfolding written
  numbered f v width bad good = elim (Bool-cases (width == 0 || ltb 64 width)) [
    | inl e ↦ rw (bad e, e) (unchanged width _ _ refl)
    | inr e ↦ rw e (
        rw (length-to_bits width v) at
          (appended f (to_bits width v) (good (ground arith) (ground arith))))
  ]

  raw :
      (src : List ℕ) (width : ℕ)
      → width < 2 ^ 60
      → Agrees width bits (written w (write_bits src width w)) (promise (put_bits src width) bits)
  unfolding write_bits written bits_at
  raw src zero small =
      let never : ltb (length src) ((0 + 7) / 8) ≡ false = ground arith in
      rw (never, append-nil bits) (unchanged 0 done done refl)
  raw src (suc n) small =
      let width = suc n in
      let whole : (width + 7) % 2 ^ 64 ≡ width + 7 = omega arith in
      let some_bits : (width == 0) ≡ false = ground arith in
      let size = length-bits_at src 0 width in
      elim (Bool-cases (ltb (length src) ((width + 7) / 8))) [
        | inl few ↦ rw (some_bits, whole, few) (unchanged width _ _ refl)
        | inr enough ↦
            rw (some_bits, whole, enough)
              (record {
                held = push_bits-Written src 0 width w bits h;
                answer = refl;
                grown = omega (arith, length-append bits (bits_at src 0 width));
              })
      ]

  perform-Agrees :
      (op : Operation)
      → IsInReach op
      → length bits < 2 ^ 60
      → weight op < 2 ^ 60
      → Agrees (weight op) bits (perform op w) (promise op bits)
  unfolding perform write_uint write_int
  perform-Agrees (put_uint value width) k small light =
      numbered (write_uint value width) value width (λ e. rw e refl)
        (λ one narrow. write_uint-Appends value width (one, narrow))
  perform-Agrees (put_int value width) k small light =
      numbered (write_int value width) (to_unsigned 64 value) width (λ e. rw e refl)
        (λ one narrow. write_int-Appends value width (one, narrow))
  perform-Agrees (put_bool value) k small light =
      appended (write_bool value) (flag_bit value ∷ []) (write_bool-Appends value)
  perform-Agrees (put_text text char_count) k small light =
      rw (length-text_bits char_count text) at (
        appended (write_text text char_count) (text_bits char_count text)
          (write_text-Appends char_count text))
  perform-Agrees (put_bits src width) k small light = raw src width light
  perform-Agrees (get_uint offset width) k small light =
      unchanged 0 _ _ (ap (told number) (read_uint-slice h.stored small offset width k))
  perform-Agrees (get_int offset width) k small light =
      unchanged 0 _ _ (ap (told integer) (read_int-slice h.stored small offset width k))
  perform-Agrees (get_bool offset) k small light =
      unchanged 0 _ _ (ap (told boolean) (read_bool-slice h.stored small offset k))
  perform-Agrees (get_text offset char_count) k small light =
      unchanged 0 _ _ (ap (told characters) (read_text-slice h.stored small offset char_count k))
  perform-Agrees (get_bits offset width) k small light =
      unchanged 0 _ _ (ap (told bytes) (read_bits-slice h.stored small offset width k))

perform_all-agrees :
    (ops : List Operation) (w : BitWriter) (bits : List ℕ)
    → Written w bits
    → All IsInReach ops
    → length bits + total_weight ops < 2 ^ 60
    → perform_all ops w ≡ promise_all ops bits
unfolding perform_all promise_all
perform_all-agrees [] w bits h k small = refl
perform_all-agrees (op ∷ ops) w bits h k small =
    let step = perform-Agrees w bits h op k.0 (omega arith) (omega arith) in
    ap₂ ◌∷◌ step.answer (
      perform_all-agrees ops (perform op w).0 (promise op bits).0 step.held k.1
        (omega (arith, step.grown)))

-- A new writer, on which numbers, flags, texts and runs of bits are written, and from whose buffer they
-- are read, in any order, answers every call as a plain sequence of bits promises: a write appends the
-- bits of its value or is refused and changes nothing, and a read gives the value of the bits at its
-- offset, with zeros up to the end of the last byte, or is refused for its width or its end. The writes
-- are of fewer than 2^60 bits, and no read's end reaches 2^64.
pub perform_all-refines :
    (ops : List Operation)
    → All IsInReach ops
    → total_weight ops < 2 ^ 60
    → perform_all ops new_writer ≡ promise_all ops []
perform_all-refines ops k small =
    perform_all-agrees ops new_writer [] new_writer-Written k (omega arith)
