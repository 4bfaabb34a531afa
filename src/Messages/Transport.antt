-- ===== src/Messages/Transport.antt =====
-- The way of a layout through the writer, the armour and back to the reader, once for all messages.
use native.Mathlib.Nat.{pow-le-pow_right, pow-suc, mod-eq_of_lt}
use pgais.Base.{
  ℕ, zero, suc, ◌+◌, ◌-◌, ◌*◌, ◌/◌, ◌^◌, ◌≤◌, ◌<◌, ◌≡◌, ◌∙◌, refl, sym, ap, arith, List, [], ◌∷◌,
  ◌++◌, Bool, true, false, not, ◌==◌, length, All, get_or, replicate, length-append,
  length-replicate,
}
use pgais.Base.Int.{ℤ, pos, negsuc, cast_int, Fits}
use pgais.Error.{Result, ok}
use pgais.Bitfield.Reader.{bit_length, read_uint}
use pgais.Bitfield.Writer.{new_writer}
use pgais.Bitfield.Numbers.{flag_bit}
use pgais.Bitfield.Storage.{Stores, get_or-replicate}
use pgais.Bitfield.Fields.{
  Field, IsField, layout_bits, layout_width, length-layout_bits, write_fields, write_fields_lem,
  Reads, read_fields_lem,
}
use pgais.Payload.{encode_payload, decode_payload}
use pgais.Payload.RoundTrip.{decode_payload-encode_payload}
use pgais.Message.{MessageType, type_value, finish}

-- What the other end of the line gets of a layout: a buffer of at least the layout's bits, in which the
-- reader finds every field.
pub record Arrives (fs : List Field) (size : ℕ) (sent : Result (List ℕ × ℕ)) : Type 0 where
  pub payload : List ℕ
  pub fill_bits : ℕ
  pub buf : List ℕ
  pub encoded : sent ≡ ok (payload, fill_bits)
  pub decoded : decode_payload payload fill_bits ≡ ok buf
  pub found : Reads buf 0 fs
  pub long_enough : size ≤ bit_length buf

-- Zero bits that the last byte has room for are stored as well.
Stores-zeros :
    (buf bits : List ℕ) (pad : ℕ)
    → Stores buf bits
    → (length bits + 7) / 8 ≡ (length bits + pad + 7) / 8
    → Stores buf (bits ++ replicate pad 0)
Stores-zeros buf bits pad s e = record {
  size =
      omega (arith, s.size, length-append bits (replicate pad 0), length-replicate {A = ℕ} pad 0);
  held = record { bytes = s.bytes; reads = λ i. s.reads i ∙ sym (get_or_zeros bits pad i) };
}
  where
    get_or_zeros : (xs : List ℕ) (k i : ℕ) → get_or (xs ++ replicate k 0) i 0 ≡ get_or xs i 0
    get_or_zeros [] k i = get_or-replicate k i
    get_or_zeros (x ∷ xs) k zero = refl
    get_or_zeros (x ∷ xs) k (suc i) = get_or_zeros xs k i

-- A layout that is sent as a payload of `size` bits, the last `pad` of which no write covered.
pub write_fields-Arrives :
    (fs : List Field) (size pad : ℕ)
    → All IsField fs
    → size ≡ layout_width fs + pad
    → 1 ≤ layout_width fs
    → size < 2 ^ 60
    → (layout_width fs + 7) / 8 ≡ (layout_width fs + pad + 7) / 8
    → Arrives fs size (write_fields fs (finish size) new_writer)
unfolding bit_length
write_fields-Arrives fs size pad h total some small room =
    let (w, e, r) = write_fields_lem fs (finish size) h in
    let count = length-layout_bits fs in
    let padded = layout_bits fs ++ replicate pad 0 in
    let count' : length padded ≡ size = omega (
      arith,
      count,
      length-append (layout_bits fs) (replicate pad 0),
      length-replicate {A = ℕ} pad 0,
    ) in
    let stored = Stores-zeros w.buf (layout_bits fs) pad r.stored (omega (arith, count, room)) in
    let (payload, fill, buf, p, q, s) =
      decode_payload-encode_payload w.buf padded stored (omega (arith, count'))
        (omega (arith, count')) in
    record {
      payload = payload;
      fill_bits = fill;
      buf = buf;
      encoded = e ∙ ap (encode_payload w.buf) (sym count') ∙ p;
      decoded = q;
      found = read_fields_lem fs (replicate pad 0) h s (omega (arith, count'));
      long_enough = omega (arith, s.size, count');
    }

-- What it means that a message comes back: `encode` gives a payload, `decode_payload` unpacks it, the
-- type is read from the first six bits of the buffer, and `decode` reads the message from it.
pub record ComesBack {ℓ} {A : Type ℓ} (encode : A → Result (List ℕ × ℕ))
    (decode : List ℕ → Result A) (m : A) (type : MessageType) : Type ℓ where
  pub payload : List ℕ
  pub fill_bits : ℕ
  pub buf : List ℕ
  pub encoded : encode m ≡ ok (payload, fill_bits)
  pub unpacked : decode_payload payload fill_bits ≡ ok buf
  pub starts : 6 ≤ bit_length buf
  pub type_read : read_uint buf 0 6 ≡ ok (type_value type)
  pub read : decode buf ≡ ok m

-- A flag by its bit.
pub flag_read : (b : Bool) → not (flag_bit b == 0) ≡ b
flag_read true = refl
flag_read false = refl

-- A conversion to a wider signed type keeps the integer.
pub cast_int-Fits : (w v : ℕ) (z : ℤ) → 1 ≤ w → w ≤ v → Fits w z → cast_int v z ≡ z
unfolding cast_int
cast_int-Fits w v (pos n) one wide fits =
    let half = pow-le-pow_right {n = 2} (omega arith) {i = w - 1} {j = v - 1} (omega arith) in
    let whole = pow-suc 2 (v - 1) in
    let width : suc (v - 1) ≡ v = omega arith in
    let twice : 2 ^ v ≡ 2 ^ (v - 1) * 2 = rw width at whole in
    ground (arith, mod-eq_of_lt {n = n} {m = 2 ^ v} (omega arith))
cast_int-Fits w v (negsuc n) one wide fits =
    let half = pow-le-pow_right {n = 2} (omega arith) {i = w - 1} {j = v - 1} (omega arith) in
    let whole = pow-suc 2 (v - 1) in
    let width : suc (v - 1) ≡ v = omega arith in
    let twice : 2 ^ v ≡ 2 ^ (v - 1) * 2 = rw width at whole in
    ground (arith, mod-eq_of_lt {n = n} {m = 2 ^ v} (omega arith))

-- A message type fits the six bits of its field.
pub type_value-lt : (t : MessageType) → type_value t < 2 ^ 6
unfolding type_value
type_value-lt t = ground arith
