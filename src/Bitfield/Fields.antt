-- ===== src/Bitfield/Fields.antt =====
-- A message layout: a list of fields. One lemma says what a row of writes appends, and one what the
-- reads find, field by field, at the offsets that the widths add up to.
use pgais.Base.{
  ℕ, ◌+◌, ◌*◌, ◌%◌, ◌^◌, ◌≤◌, ◌<◌, ◌≡◌, refl, ap, ◌∙◌, arith, List, [], ◌∷◌, ◌++◌, append-nil,
  append_assoc, length, length-append, Bool, true, false, All,
}
use pgais.Base.Int.{ℤ, to_unsigned, Fits}
use pgais.Error.{Result, ok, ◌>>=◌}
use pgais.Bitfield.SixBit.{IsPrintable}
use pgais.Bitfield.Reader.{read_uint, read_int, read_bool, read_text}
use pgais.Bitfield.Writer.{
  BitWriter, new_writer, ◌>>◌, write_uint, write_int, write_bool, write_text,
}
use pgais.Bitfield.Digits.{to_bits, length-to_bits}
use pgais.Bitfield.Storage.{Stores, Written, new_writer-Written}
use pgais.Bitfield.Numbers.{
  Appends, HasAt, HasAt-first, HasAt-next, IsWidth, flag_bit, write_uint-Appends, write_int-Appends,
  write_bool-Appends, read_uint-HasAt, read_int-HasAt, read_bool-HasAt,
}
use pgais.Bitfield.Text.{
  text_bits, length-text_bits, EndsWell, write_text-Appends, read_text-HasAt, strip-shown,
}
use native.Mathlib.Nat.{mod-eq_of_lt}

pub data Field : Type 0 where
  uint : ℕ → ℕ → Field
  sint : ℕ → ℤ → Field
  flag : Bool → Field
  text : ℕ → List ℕ → Field

-- The texts that a field of `n` characters holds without loss.
abbrev pub FitsText : ℕ → List ℕ → Type 0
FitsText n s = All IsPrintable s × EndsWell s × (length s ≤ n)

-- The values that a field holds without loss.
abbrev pub IsField : Field → Type 0
IsField (uint w v) = IsWidth w × (v < 2 ^ w)
IsField (sint w z) = IsWidth w × Fits w z
IsField (flag b) = Unit {0}
IsField (text n s) = (1 ≤ n) × FitsText n s

abbrev pub width : Field → ℕ
width (uint w v) = w
width (sint w z) = w
width (flag b) = 1
width (text n s) = n * 6

unfoldable pub field_bits : Field → List ℕ
field_bits (uint w v) = to_bits w v
field_bits (sint w z) = to_bits w (to_unsigned 64 z)
field_bits (flag b) = flag_bit b ∷ []
field_bits (text n s) = text_bits n s

unfoldable pub layout_bits : List Field → List ℕ
layout_bits [] = []
layout_bits (f ∷ fs) = field_bits f ++ layout_bits fs

abbrev pub layout_width : List Field → ℕ
layout_width [] = 0
layout_width (f ∷ fs) = width f + layout_width fs

abbrev pub write_field : Field → BitWriter → Result BitWriter
write_field (uint w v) = write_uint v w
write_field (sint w z) = write_int z w
write_field (flag b) = write_bool b
write_field (text n s) = write_text s n

-- The writes of a layout, and then `finish`.
abbrev pub write_fields {ℓ} :
    {A : Type ℓ} → List Field → (BitWriter → Result A) → BitWriter → Result A
write_fields [] finish = finish
write_fields (f ∷ fs) finish = write_field f >> write_fields fs finish

-- What the reader finds at a field's offset.
abbrev pub ReadsField : List ℕ → ℕ → Field → Type 0
ReadsField buf offset (uint w v) = read_uint buf offset w ≡ ok v
ReadsField buf offset (sint w z) = read_int buf offset w ≡ ok z
ReadsField buf offset (flag b) =
    (read_uint buf offset 1 ≡ ok (flag_bit b)) × (read_bool buf offset ≡ ok b)
ReadsField buf offset (text n s) = read_text buf offset n ≡ ok s

abbrev pub Reads : List ℕ → ℕ → List Field → Type 0
Reads buf offset [] = Unit {0}
Reads buf offset (f ∷ fs) = ReadsField buf offset f × Reads buf (offset + width f) fs

length-field_bits : (f : Field) → length (field_bits f) ≡ width f
unfolding field_bits
length-field_bits (uint w v) = length-to_bits w v
length-field_bits (sint w z) = length-to_bits w (to_unsigned 64 z)
length-field_bits (flag b) = refl
length-field_bits (text n s) = length-text_bits n s

pub length-layout_bits : (fs : List Field) → length (layout_bits fs) ≡ layout_width fs
unfolding layout_bits
length-layout_bits [] = refl
length-layout_bits (f ∷ fs) = omega (
  arith,
  length-append (field_bits f) (layout_bits fs),
  length-field_bits f,
  length-layout_bits fs,
)

write_field-Appends : (f : Field) → IsField f → Appends (write_field f) (field_bits f)
unfolding field_bits
write_field-Appends (uint w v) h = write_uint-Appends v w h.0
write_field-Appends (sint w z) h = write_int-Appends z w h.0
write_field-Appends (flag b) h = write_bool-Appends b
write_field-Appends (text n s) h = write_text-Appends n s

-- A row of writes ends with the call of `finish` on a writer that holds the layout's bits.
write_fields_from {ℓ} :
    {A : Type ℓ} (fs : List Field) (finish : BitWriter → Result A) (w : BitWriter) (bits : List ℕ)
    → All IsField fs
    → Written w bits
    → (w' : BitWriter) × (write_fields fs finish w ≡ finish w')
      × Written w' (bits ++ layout_bits fs)
unfolding layout_bits
write_fields_from [] finish w bits h r = (w, refl, rw (append-nil bits) r)
write_fields_from (f ∷ fs) finish w bits h r =
    let (w₁, e₁, r₁) = write_field-Appends f h.0 w bits r in
    let (w₂, e₂, r₂) = write_fields_from fs finish w₁ (bits ++ field_bits f) h.1 r₁ in
    (w₂, rw (e₁, ◌>>=◌) e₂, rw (append_assoc bits) at r₂)

pub write_fields_lem {ℓ} :
    {A : Type ℓ} (fs : List Field) (finish : BitWriter → Result A)
    → All IsField fs
    → (w : BitWriter) × (write_fields fs finish new_writer ≡ finish w) × Written w (layout_bits fs)
write_fields_lem fs finish h = write_fields_from fs finish new_writer [] h new_writer-Written

flag_value : (b : Bool) → flag_bit b % 2 ^ 1 ≡ flag_bit b
flag_value true = refl
flag_value false = refl

flag_to_bits : (b : Bool) → flag_bit b ∷ [] ≡ to_bits 1 (flag_bit b)
unfolding to_bits
flag_to_bits true = refl
flag_to_bits false = refl

module _ {buf : List ℕ} where
  read_field :
      (offset : ℕ) (f : Field)
      → IsField f
      → HasAt buf offset (field_bits f)
      → ReadsField buf offset f
  unfolding field_bits
  read_field offset (uint w v) h s = read_uint-HasAt offset w v s h.0 ∙ ap ok (mod-eq_of_lt h.1)
  read_field offset (sint w z) h s = read_int-HasAt offset w z s h.0 h.1
  read_field offset (flag b) h s = (
    read_uint-HasAt offset 1 (flag_bit b) (rw (flag_to_bits b) at s) (omega arith)
        ∙ ap ok (flag_value b),
    read_bool-HasAt offset b s,
  )
  read_field offset (text n s) h t =
      read_text-HasAt n offset s t h.0 ∙ ap ok (strip-shown n s h.1.0 h.1.1 h.1.2)

  read_fields :
      (fs : List Field) (offset : ℕ)
      → All IsField fs
      → HasAt buf offset (layout_bits fs)
      → Reads buf offset fs
  unfolding layout_bits
  read_fields [] offset h s = tt
  read_fields (f ∷ fs) offset h s = (
    read_field offset f h.0 (HasAt-first offset (field_bits f) (layout_bits fs) s),
    read_fields fs (offset + width f) h.1
        (HasAt-next offset (width f) (field_bits f) (layout_bits fs) s (length-field_bits f)),
  )

  -- A buffer that stores a layout, and perhaps more behind it, reads back field by field.
  pub read_fields_lem :
      (fs : List Field) (more : List ℕ)
      → All IsField fs
      → Stores buf (layout_bits fs ++ more)
      → length (layout_bits fs ++ more) < 2 ^ 60
      → Reads buf 0 fs
  read_fields_lem fs more h s small =
      read_fields fs 0 h
        (record { before = []; after = more; stored = s; starts = refl; small = small })
