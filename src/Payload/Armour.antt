-- ===== src/Payload/Armour.antt =====
-- The armour characters and the 6-bit values are in bijection.
use pgais.Base.{
  ℕ, ◌<◌, ◌≡◌, refl, arith, Bool, true, ◌&&◌, ◌||◌, ltb, ◌==◌, not, all_below, all_below-lt,
}
use pgais.Payload.{is_valid_payload_char, armour_decode, armour_encode}

encodes : ℕ → Bool
encodes v = is_valid_payload_char (armour_encode v) && armour_decode (armour_encode v) == v

encodes_all : all_below encodes 64 ≡ true
unfolding all_below encodes is_valid_payload_char armour_encode armour_decode
encodes_all = refl

decodes : ℕ → Bool
decodes c =
    not (is_valid_payload_char c)
    || armour_encode (armour_decode c) == c && ltb (armour_decode c) 64

decodes_all : all_below decodes 120 ≡ true
unfolding all_below decodes is_valid_payload_char armour_encode armour_decode
decodes_all = refl

-- A 6-bit value has a valid armour character, and comes back from it.
pub armour_encode_lem :
    (v : ℕ)
    → v < 64
    → (is_valid_payload_char (armour_encode v) ≡ true) × (armour_decode (armour_encode v) ≡ v)
unfolding encodes
armour_encode_lem v h = ground (arith, all_below-lt encodes 64 v encodes_all h)

valid-lt : (c : ℕ) → is_valid_payload_char c ≡ true → c < 120
unfolding is_valid_payload_char
valid-lt c e = ground arith

-- A valid armour character stands for a 6-bit value, and comes back from it.
pub armour_decode_lem :
    (c : ℕ)
    → is_valid_payload_char c ≡ true
    → (armour_decode c < 64) × (armour_encode (armour_decode c) ≡ c)
unfolding decodes
armour_decode_lem c e = ground (arith, all_below-lt decodes 120 c decodes_all (valid-lt c e))
