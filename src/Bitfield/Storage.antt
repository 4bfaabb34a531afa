-- ===== src/Bitfield/Storage.antt =====
-- A buffer as the sequence of bits that it holds: the abstract state of `BitWriter`. `push_bit`
-- appends one bit to that sequence.
use native.Mathlib.Nat.{pow-le-pow_right}
use pgais.Base.{
  ℕ, zero, suc, ◌+◌, ◌-◌, ◌*◌, ◌/◌, ◌%◌, ◌^◌, ◌≤◌, ◌<◌, ◌≡◌, ◌≢◌, refl, sym, ◌∙◌, arith, List, [],
  ◌∷◌, ◌++◌, length, get_or, set, length-append, length-set, get_or-set_self, get_or-set_ne,
  get_or_past, All, All-append, All-set, All-get_or, leb, replicate, ◌==◌, if◌then◌else◌,
  Bool-cases, inl, inr, bit_or, bit_and,
}
use native.Mathlib.Decide.{ℕ_discrete}
use pgais.Bits.{digit-or, digit-shift, digit-zero, and-one, or-lt}
use pgais.Bitfield.Reader.{read_bit}
use pgais.Bitfield.Digits.{read_bit-digit}
use pgais.Bitfield.Writer.{BitWriter, new_writer, grown, push_bit}

abbrev pub IsByte : ℕ → Type 0
IsByte b = b < 256

-- The bits of the buffer, with zeros behind the last.
pub record Holds (buf bits : List ℕ) : Type 0 where
  pub bytes : All IsByte buf
  pub reads : (i : ℕ) → read_bit buf i ≡ get_or bits i 0

-- The buffer holds these bits, and has no byte too many.
pub record Stores (buf bits : List ℕ) : Type 0 where
  pub size : length buf ≡ (length bits + 7) / 8
  pub held : Holds buf bits
  pub open held use *

-- The invariant of `BitWriter`.
pub record Written (w : BitWriter) (bits : List ℕ) : Type 0 where
  pub stored : Stores w.buf bits
  pub counted : w.bit_length ≡ length bits

-- `buf[idx / 8] |= x << (7 - idx % 8)`.
abbrev pub or_at : List ℕ → ℕ → ℕ → List ℕ
or_at buf idx x =
    set buf (idx / 8) (bit_or (get_or buf (idx / 8) 0) (x * 2 ^ (7 - idx % 8) % 2 ^ 8))

pub get_or-replicate : (n i : ℕ) → ◌≡◌ {A = ℕ} (get_or (replicate n 0) i 0) 0
get_or-replicate zero i = refl
get_or-replicate (suc n) zero = refl
get_or-replicate (suc n) (suc i) = get_or-replicate n i

All-replicate : (n : ℕ) → All IsByte (replicate n 0)
All-replicate zero = tt
All-replicate (suc n) = (omega arith, All-replicate n)

-- A buffer of zero bytes.
pub replicate-Holds : (n : ℕ) → Holds (replicate n 0) []
replicate-Holds n = record {
  bytes = All-replicate n;
  reads = λ i.
      read_bit-digit (replicate n 0) i ∙ rw (get_or-replicate n (i / 8)) (digit-zero (7 - i % 8));
}

pub new_writer-Written : Written new_writer []
new_writer-Written = record {
  stored = record { size = omega arith; held = replicate-Holds 0 };
  counted = refl;
}

get_or_zeros : (buf : List ℕ) (i : ℕ) → get_or (buf ++ 0 ∷ []) i 0 ≡ get_or buf i 0
get_or_zeros [] zero = refl
get_or_zeros [] (suc i) = refl
get_or_zeros (b ∷ buf) zero = refl
get_or_zeros (b ∷ buf) (suc i) = get_or_zeros buf i

-- Appending zero bytes changes no bit.
get_or-grown : (buf : List ℕ) (k i : ℕ) → get_or (grown buf k) i 0 ≡ get_or buf i 0
get_or-grown buf k i = elim (Bool-cases (leb (length buf) k)) [
  | inl e ↦ rw e (get_or_zeros buf i)
  | inr e ↦ rw e
]

length-grown :
    (buf : List ℕ) (n : ℕ) → length buf ≡ (n + 7) / 8 → length (grown buf (n / 8)) ≡ (n + 8) / 8
length-grown buf n h = ground (arith, length-append buf (0 ∷ []))

get_or_snoc :
    (bits : List ℕ) (x i : ℕ)
    → get_or (bits ++ x ∷ []) i 0 ≡ (if i == length bits then x else get_or bits i 0)
get_or_snoc [] x zero = refl
get_or_snoc [] x (suc i) = ground arith
get_or_snoc (b ∷ bits) x zero = ground arith
get_or_snoc (b ∷ bits) x (suc i) = ground (arith, get_or_snoc bits x i)

two_pow_place : (p : ℕ) → p ≤ 7 → 2 ^ p ≤ 128
two_pow_place p h = pow-le-pow_right (omega arith) h

-- What is ored into a byte: one bit at its place.
placed : (x p : ℕ) → x < 2 → p ≤ 7 → x * 2 ^ p % 2 ^ 8 ≡ x * 2 ^ p
placed zero p h k = omega arith
placed (suc zero) p h k = omega (arith, two_pow_place p k)
placed (suc (suc x)) p h k = absurd (omega arith)

module _ {buf bits : List ℕ} (x : ℕ) (h : x < 2) (s : Holds buf bits)
    (room : length bits / 8 < length buf) where
  abbrev at : ℕ
  at = length bits / 8

  abbrev place : ℕ
  place = 7 - length bits % 8

  abbrev after : List ℕ
  after = or_at buf (length bits) x

  abbrev ored : ℕ
  ored = bit_or (get_or buf at 0) (x * 2 ^ place % 2 ^ 8)

  byte_now : get_or after at 0 ≡ bit_or (get_or buf at 0) (x * 2 ^ place)
  byte_now = get_or-set_self buf at ored 0 room ∙ rw (placed x place h (omega arith))

  same_byte :
      (i : ℕ) → i / 8 ≡ at → read_bit after i ≡ (if i == length bits then x else get_or bits i 0)
  same_byte i e = ground (
    arith,
    read_bit-digit after i,
    read_bit-digit buf i,
    s.reads i,
    byte_now,
    digit-or (get_or buf at 0) (x * 2 ^ place) (7 - i % 8),
    digit-shift x place (7 - i % 8) h,
    get_or_past bits i 0,
  )

  other_byte : (i : ℕ) → i / 8 ≢ at → read_bit after i ≡ get_or bits i 0
  other_byte i e =
      read_bit-digit after i
      ∙ rw (get_or-set_ne buf at (i / 8) ored 0 (λ p. e (sym p)))
          (sym (read_bit-digit buf i) ∙ s.reads i)

  after_reads : (i : ℕ) → read_bit after i ≡ get_or (bits ++ x ∷ []) i 0
  after_reads i = elim (ℕ_discrete (i / 8) at) [
    | yes e ↦ same_byte i e ∙ sym (get_or_snoc bits x i)
    | no e ↦ ground (arith, other_byte i e, get_or_snoc bits x i)
  ]

  -- Oring a bit in behind the bits held appends it.
  pub or_at-Holds : Holds after (bits ++ x ∷ [])
  or_at-Holds = record {
    bytes =
        All-set IsByte buf at ored s.bytes
          (or-lt 8 _ _ (All-get_or IsByte buf at 0 s.bytes (omega arith)) (omega arith));
    reads = after_reads;
  }

grown-Holds : (buf bits : List ℕ) (k : ℕ) → Holds buf bits → Holds (grown buf k) bits
grown-Holds buf bits k h = record {
  bytes = ground (arith, All-append IsByte buf (0 ∷ []) h.bytes);
  reads = λ i.
      read_bit-digit (grown buf k) i
      ∙ rw (get_or-grown buf k (i / 8)) (sym (read_bit-digit buf i) ∙ h.reads i);
}

push_bit-Stores :
    (x : ℕ) (buf bits : List ℕ)
    → x < 2
    → Stores buf bits
    → Stores (or_at (grown buf (length bits / 8)) (length bits) x) (bits ++ x ∷ [])
push_bit-Stores x buf bits h s = record {
  size = omega (
    arith,
    length-set (grown buf (length bits / 8)) (length bits / 8)
        (ored x h (grown-Holds buf bits (length bits / 8) s.held) room),
    length-grown buf (length bits) s.size,
    length-append bits (x ∷ []),
  );
  held = or_at-Holds x h (grown-Holds buf bits (length bits / 8) s.held) room;
}
  where
    room : length bits / 8 < length (grown buf (length bits / 8))
    room = omega (arith, length-grown buf (length bits) s.size)

one_bit : (x : ℕ) → x < 2 → bit_and x 1 ≡ x
one_bit x h = omega (arith, and-one x)

-- `push_bit` appends its bit.
pub push_bit-Written :
    (x : ℕ) (w : BitWriter) (bits : List ℕ)
    → x < 2
    → Written w bits
    → Written (push_bit x w) (bits ++ x ∷ [])
unfolding push_bit
push_bit-Written x w bits h r = record {
  stored = rw (r.counted, one_bit x h) (push_bit-Stores x w.buf bits h r.stored);
  counted = omega (arith, r.counted, length-append bits (x ∷ []));
}
