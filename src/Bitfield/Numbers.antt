-- ===== src/Bitfield/Numbers.antt =====
-- What `write_uint`, `write_int` and `write_bool` append to a buffer, and what the reads of `BitReader`
-- find in a buffer that stores such a field.
use native.Mathlib.Nat.{pow-le-pow_right}
use pgais.Base.{
  ℕ, zero, suc, ◌+◌, ◌/◌, ◌%◌, ◌^◌, ◌≤◌, ◌<◌, ◌≡◌, refl, ap, ap₂, ◌∙◌, arith, List, [], ◌∷◌, ◌++◌,
  append-nil, append_assoc, length, length-append, get_or_at, Bool, true, false, if◌then◌else◌,
}
use pgais.Base.Int.{ℤ, to_unsigned, Fits}
use pgais.Error.{Result, ok, ◌>>=◌, success}
use pgais.Bits.{and-one}
use pgais.Bitfield.Reader.{read_bit, read_loop, read_uint, read_int, read_bool, check_bounds}
use pgais.Bitfield.Writer.{BitWriter, ◌>>◌, push_bit, push_value, write_uint, write_int, write_bool}
use pgais.Bitfield.Digits.{
  to_bits, of_bits, bits_at, length-to_bits, of_bits-to_bits, read_loop-of_bits,
}
use pgais.Bitfield.Sign.{sign_extend_lem}
use pgais.Bitfield.Storage.{Stores, Written, push_bit-Written}

push_value-Written :
    (v i : ℕ) (w : BitWriter) (bits : List ℕ)
    → Written w bits
    → Written (push_value v i w) (bits ++ to_bits i v)
unfolding push_value to_bits
push_value-Written v zero w bits r = rw (append-nil bits) r
push_value-Written v (suc i) w bits r =
    rw (← append_assoc bits (v / 2 ^ i % 2 ∷ []) (to_bits i v), and-one (v / 2 ^ i))
      (push_value-Written v i (push_bit (v / 2 ^ i % 2) w) (bits ++ (v / 2 ^ i % 2) ∷ [])
        (push_bit-Written (v / 2 ^ i % 2) w bits (omega arith) r))

-- A width that a field may have.
abbrev pub IsWidth : ℕ → Type 0
IsWidth w = (1 ≤ w) × (w ≤ 64)

-- The outcome of a write that appends `more`.
abbrev pub Appends : (BitWriter → Result BitWriter) → List ℕ → Type 0
Appends f more =
    (w : BitWriter) (bits : List ℕ)
    → Written w bits
    → (w' : BitWriter) × (f w ≡ ok w') × Written w' (bits ++ more)

-- One write after another.
pub >>-Appends :
    (f g : BitWriter → Result BitWriter) (a b : List ℕ)
    → Appends f a
    → Appends g b
    → Appends (f >> g) (a ++ b)
>>-Appends f g a b hf hg w bits r =
    let (w₁, e₁, r₁) = hf w bits r in
    let (w₂, e₂, r₂) = hg w₁ (bits ++ a) r₁ in (w₂, rw (e₁, ◌>>=◌) e₂, rw (append_assoc bits) at r₂)

pub write_uint-Appends :
    (v width : ℕ) → IsWidth width → Appends (write_uint v width) (to_bits width v)
unfolding write_uint
write_uint-Appends v width h w bits r =
    (push_value v width w, ground arith, push_value-Written v width w bits r)

pub write_int-Appends :
    (z : ℤ) (width : ℕ)
    → IsWidth width
    → Appends (write_int z width) (to_bits width (to_unsigned 64 z))
unfolding write_int write_uint
write_int-Appends z width h w bits r = (
  push_value (to_unsigned 64 z) width w,
  ground arith,
  push_value-Written (to_unsigned 64 z) width w bits r,
)

abbrev pub flag_bit : Bool → ℕ
flag_bit b = if b then 1 else 0

pub write_bool-Appends : (b : Bool) → Appends (write_bool b) (flag_bit b ∷ [])
unfolding write_bool
write_bool-Appends true w bits r = (push_bit 1 w, refl, push_bit-Written 1 w bits (omega arith) r)
write_bool-Appends false w bits r = (push_bit 0 w, refl, push_bit-Written 0 w bits (omega arith) r)

-- A buffer that holds `field` from bit `offset` on.
pub record HasAt (buf : List ℕ) (offset : ℕ) (field : List ℕ) : Type 0 where
  pub before : List ℕ
  pub after : List ℕ
  pub stored : Stores buf (before ++ (field ++ after))
  pub starts : offset ≡ length before
  pub small : length (before ++ (field ++ after)) < 2 ^ 60

word_width : (w : ℕ) → w ≤ 64 → 2 ^ w ≤ 2 ^ 64
word_width w h = pow-le-pow_right (omega arith) h

pub HasAt-next :
    {buf : List ℕ} (offset k : ℕ) (a b : List ℕ)
    → HasAt buf offset (a ++ b)
    → length a ≡ k
    → HasAt buf (offset + k) b
HasAt-next offset k a b h e = record {
  before = h.before ++ a;
  after = h.after;
  stored = rw (append_assoc h.before, ← append_assoc a b) h.stored;
  starts = omega (arith, h.starts, e, length-append h.before a);
  small = rw (append_assoc h.before, ← append_assoc a b) h.small;
}

pub HasAt-first :
    {buf : List ℕ} (offset : ℕ) (a b : List ℕ) → HasAt buf offset (a ++ b) → HasAt buf offset a
HasAt-first offset a b h = record {
  before = h.before;
  after = b ++ h.after;
  stored = rw (← append_assoc a b) h.stored;
  starts = h.starts;
  small = rw (← append_assoc a b) h.small;
}

module _ {buf : List ℕ} where
  pub bits_at_front :
      (before field after : List ℕ)
      → Stores buf (before ++ (field ++ after))
      → bits_at buf (length before) (length field) ≡ field
  unfolding bits_at
  bits_at_front before [] after s = refl
  bits_at_front before (b ∷ field) after s =
      ap₂ ◌∷◌ (s.reads (length before) ∙ get_or_at before (field ++ after) b 0) (
        rw (length-append before (b ∷ [])) at
          (bits_at_front (before ++ b ∷ []) field after (rw (append_assoc before) s)))

  pub bits_at-HasAt :
      (offset : ℕ) (field : List ℕ)
      → HasAt buf offset field
      → bits_at buf offset (length field) ≡ field
  bits_at-HasAt offset field h = rw (h.starts) (bits_at_front h.before field h.after h.stored)

  pub check_bounds-HasAt :
      (offset : ℕ) (field : List ℕ)
      → HasAt buf offset field
      → IsWidth (length field)
      → check_bounds buf offset (length field) ≡ success
  unfolding check_bounds
  check_bounds-HasAt offset field h k = ground (
    arith,
    h.stored.size,
    h.starts,
    h.small,
    length-append h.before (field ++ h.after),
    length-append field h.after,
  )

  pub read_loop-HasAt :
      (offset width v : ℕ)
      → HasAt buf offset (to_bits width v)
      → width ≤ 64
      → read_loop buf offset width 0 ≡ v % 2 ^ width
  read_loop-HasAt offset width v h k =
      read_loop-of_bits buf offset width 0 (omega (arith, word_width width k))
      ∙ ap (of_bits 0) (rw (length-to_bits width v) at (bits_at-HasAt offset (to_bits width v) h))
      ∙ of_bits-to_bits width 0 v
      ∙ omega arith

  check_width :
      (offset width v : ℕ)
      → HasAt buf offset (to_bits width v)
      → IsWidth width
      → check_bounds buf offset width ≡ success
  check_width offset width v h k =
      rw (length-to_bits width v) at
        (check_bounds-HasAt offset (to_bits width v) h (rw (length-to_bits width v) k))

  -- A stored field reads back as its value, cut to the width.
  pub read_uint-HasAt :
      (offset width v : ℕ)
      → HasAt buf offset (to_bits width v)
      → IsWidth width
      → read_uint buf offset width ≡ ok (v % 2 ^ width)
  unfolding read_uint
  read_uint-HasAt offset width v h k =
      rw (check_width offset width v h k, read_loop-HasAt offset width v h k.1)

  pub read_int-HasAt :
      (offset width : ℕ) (z : ℤ)
      → HasAt buf offset (to_bits width (to_unsigned 64 z))
      → IsWidth width
      → Fits width z
      → read_int buf offset width ≡ ok z
  unfolding read_int
  read_int-HasAt offset width z h k f = rw (
    check_width offset width (to_unsigned 64 z) h k,
    read_loop-HasAt offset width (to_unsigned 64 z) h k.1,
    sign_extend_lem width z k.0 k.1 f,
  )

  first_bit : (offset b : ℕ) → HasAt buf offset (b ∷ []) → read_bit buf offset ≡ b
  first_bit offset b h = rw h.starts (h.stored.reads _ ∙ get_or_at h.before h.after b 0)

  pub read_bool-HasAt :
      (offset : ℕ) (b : Bool) → HasAt buf offset (flag_bit b ∷ []) → read_bool buf offset ≡ ok b
  unfolding read_bool
  read_bool-HasAt offset true h =
      rw (check_bounds-HasAt offset (1 ∷ []) h (omega arith), first_bit offset 1 h)
  read_bool-HasAt offset false h =
      rw (check_bounds-HasAt offset (0 ∷ []) h (omega arith), first_bit offset 0 h)
