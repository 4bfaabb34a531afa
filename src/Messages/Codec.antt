-- ===== src/Messages/Codec.antt =====
-- What the message classes have in common, as an interface: `encode` and `decode` of a class, and the
-- laws that the registry relies on.
use pgais.Base.{
  ℕ, ◌^◌, ◌≤◌, ◌<◌, ◌≡◌, refl, sym, ap, ◌∙◌, arith, List, Bool, true, ◌||◌, ◌==◌, get_or, all_below,
  all_below-lt, ==→eq,
}
use pgais.Error.{Error, Result, ok, err, payload_too_short, message_decode_failure}
use pgais.Bitfield.Reader.{bit_length, read_uint}
use pgais.Message.{
  MessageType, type_value, enumerators, unknown_type, same_type, message_type_from_id, u8,
}
use pgais.Messages.Transport.{ComesBack}

-- How `decode` of a class with messages of `size` bits ends on a buffer: too short, refused, or read. A
-- message that is read fits its fields and has the type that the buffer names.
pub data Decodes {A : Type 0} (size : ℕ) (type_of : A → MessageType) (IsValid : A → Type 0)
    (buf : List ℕ) : Result A → Type 0 where
  short :
      (e : Error)
      → e.code ≡ payload_too_short
      → bit_length buf < size
      → Decodes size type_of IsValid buf (err e)
  refused :
      (e : Error)
      → e.code ≡ message_decode_failure
      → size ≤ bit_length buf
      → Decodes size type_of IsValid buf (err e)
  read :
      (m : A)
      → size ≤ bit_length buf
      → read_uint buf 0 6 ≡ ok (type_value (type_of m))
      → IsValid m
      → Decodes size type_of IsValid buf (ok m)

-- The contract of a class: valid messages come back, and `decode` ends on every buffer as `Decodes`
-- says.
pub record IsCodec {A : Type 0} (size : ℕ) (type_of : A → MessageType) (IsValid : A → Type 0)
    (encode : A → Result (List ℕ × ℕ)) (decode : List ℕ → Result A) : Type 0 where
  pub comes_back : (m : A) → IsValid m → ComesBack encode decode m (type_of m)
  pub decodes : (buf : List ℕ) → Decodes size type_of IsValid buf (decode buf)

enumerators-type_value : (a : MessageType) → get_or enumerators (type_value a) unknown_type ≡ a
unfolding type_value
enumerators-type_value a = ground arith

pub same_type→eq : (a b : MessageType) → same_type a b ≡ true → a ≡ b
unfolding same_type
same_type→eq a b h =
    sym (enumerators-type_value a)
    ∙ ap (λ (k : ℕ). get_or enumerators k unknown_type) (==→eq (type_value a) (type_value b) h)
    ∙ enumerators-type_value b

names_itself : ℕ → Bool
unfolding type_value message_type_from_id
names_itself t = let v = type_value (message_type_from_id (u8 t)) in v == 0 || v == t

all_types : all_below names_itself 64 ≡ true
unfolding names_itself all_below
all_types = refl

-- Six bits that are taken for a known type are that type's number.
pub type_value-from_id :
    (t : ℕ)
    → t < 64
    → 1 ≤ type_value (message_type_from_id (u8 t))
    → type_value (message_type_from_id (u8 t)) ≡ t
unfolding names_itself
type_value-from_id t h one = let named = all_below-lt names_itself 64 t all_types h in ground arith

pub type_value-named :
    (buf : List ℕ) (t : ℕ) (type : MessageType)
    → t < 2 ^ 6
    → read_uint buf 0 6 ≡ ok t
    → message_type_from_id (u8 t) ≡ type
    → 1 ≤ type_value type
    → read_uint buf 0 6 ≡ ok (type_value type)
type_value-named buf t type h e named one =
    let value = type_value-from_id t h (rw named one) in rw (sym named, value) e
