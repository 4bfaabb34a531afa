-- ===== src/Error/Counts.antt =====
-- The numbers in an error's detail: what `std::to_string` writes is the decimal numeral of its number, so
-- the fuel is enough, and `parse_uint8` of src/core/sentence.cpp reads it again.
use pgais.Base.{
  ℕ, zero, suc, ◌+◌, ◌-◌, ◌*◌, ◌/◌, ◌%◌, ◌≤◌, ◌<◌, ◌≡◌, refl, ap, arith, List, [], ◌∷◌, true, some,
  All, length, ltb, Bool-cases, inl, inr,
}
use pgais.Error.{digits_of, to_string}
use pgais.Sentence.{is_digit, parse_uint8}
use pgais.Sentence.Numerals.{decimal, IsNumber, parse_uint8-IsNumber}

-- The digits of a number in front of some text.
digits_of-decimal :
    (fuel n : ℕ) (acc : List ℕ) → n < fuel → decimal (digits_of fuel n acc) 0 ≡ decimal acc n
unfolding digits_of decimal
digits_of-decimal zero n acc h = absurd (omega arith)
digits_of-decimal (suc fuel) n acc h = elim (Bool-cases (ltb n 10)) [
  | inl few ↦
      let value : 0 * 10 + (b'0' + n - b'0') ≡ n = omega arith in rw few (ap (decimal acc) value)
  | inr many ↦
      let last : n / 10 * 10 + (b'0' + n % 10 - b'0') ≡ n = omega arith in
      rw (many, digits_of-decimal fuel (n / 10) ((b'0' + n % 10) ∷ acc) (ground arith), last) refl
]

digits_of-digits :
    (fuel n : ℕ) (acc : List ℕ)
    → All (λ c. is_digit c ≡ true) acc
    → All (λ c. is_digit c ≡ true) (digits_of fuel n acc)
unfolding digits_of
digits_of-digits zero n acc h = h
digits_of-digits (suc fuel) n acc h = elim (Bool-cases (ltb n 10)) [
  | inl few ↦ rw few (ground arith, h)
  | inr many ↦ rw many (digits_of-digits fuel (n / 10) ((b'0' + n % 10) ∷ acc) (ground arith, h))
]

length-digits_of : (fuel n : ℕ) (acc : List ℕ) → length acc ≤ length (digits_of fuel n acc)
unfolding digits_of
length-digits_of zero n acc = omega arith
length-digits_of (suc fuel) n acc = elim (Bool-cases (ltb n 10)) [
  | inl few ↦ rw few (omega arith)
  | inr many ↦ rw many (omega (arith, length-digits_of fuel (n / 10) ((b'0' + n % 10) ∷ acc)))
]

length-to_string : (n : ℕ) → 1 ≤ length (to_string n)
unfolding to_string digits_of
length-to_string n = elim (Bool-cases (ltb n 10)) [
  | inl few ↦ rw few (omega arith)
  | inr many ↦ rw many (length-digits_of n (n / 10) ((b'0' + n % 10) ∷ []))
]

to_string-IsNumber : (n : ℕ) → n ≤ 255 → IsNumber (to_string n) n
unfolding to_string digits_of decimal
to_string-IsNumber n h = record {
  some_digit = length-to_string n;
  digits = digits_of-digits (suc n) n [] tt;
  value = digits_of-decimal (suc n) n [] (omega arith);
  fits = h;
}

-- The text that an error's detail has for a number of at most 255 is read by `parse_uint8` as the same
-- number.
pub parse_uint8-to_string : (n : ℕ) → n ≤ 255 → parse_uint8 (to_string n) ≡ some n
parse_uint8-to_string n h = (parse_uint8-IsNumber (to_string n) n).1 (to_string-IsNumber n h)
