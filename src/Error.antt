-- ===== src/Error.antt =====
-- include/aislib/error.h and src/core/error.cpp: error codes, errors, and `Result<T>`.
pub mod Counts
use pgais.Base.{
  ℕ, ◌+◌, ◌/◌, ◌%◌, ◌≡◌, refl, List, [], ◌∷◌, ◌++◌, Bool, codes, ◌==◌, if◌then◌else◌, zero, suc,
  ltb, not,
}

-- `enum class ErrorCode`. The source's `Ok` is `success` here, beside the constructor `ok`.
pub data ErrorCode : Type 0 where
  success unknown : ErrorCode
  sentence_empty sentence_too_short sentence_invalid_start sentence_missing_checksum : ErrorCode
  sentence_checksum_bad sentence_field_missing sentence_field_invalid : ErrorCode
  sentence_talker_invalid sentence_type_invalid : ErrorCode
  payload_empty payload_char_invalid payload_fill_bits_invalid : ErrorCode
  payload_too_short payload_too_long : ErrorCode
  bitfield_out_of_range bitfield_width_invalid : ErrorCode
  multipart_out_of_order multipart_duplicate multipart_incomplete : ErrorCode
  multipart_count_invalid multipart_seq_invalid multipart_talker_conflict : ErrorCode
  message_type_unknown message_type_unsupported message_decode_failure : ErrorCode

-- The numeric values of the enumerators.
unfoldable pub code_value : ErrorCode → ℕ
code_value success = 0
code_value unknown = 1
code_value sentence_empty = 100
code_value sentence_too_short = 101
code_value sentence_invalid_start = 102
code_value sentence_missing_checksum = 103
code_value sentence_checksum_bad = 104
code_value sentence_field_missing = 105
code_value sentence_field_invalid = 106
code_value sentence_talker_invalid = 107
code_value sentence_type_invalid = 108
code_value payload_empty = 200
code_value payload_char_invalid = 201
code_value payload_fill_bits_invalid = 202
code_value payload_too_short = 203
code_value payload_too_long = 204
code_value bitfield_out_of_range = 300
code_value bitfield_width_invalid = 301
code_value multipart_out_of_order = 400
code_value multipart_duplicate = 401
code_value multipart_incomplete = 402
code_value multipart_count_invalid = 403
code_value multipart_seq_invalid = 404
code_value multipart_talker_conflict = 405
code_value message_type_unknown = 500
code_value message_type_unsupported = 501
code_value message_decode_failure = 502

pub record Error : Type 0 where
  pub code : ErrorCode
  pub detail : List ℕ

-- `error_code_description`.
unfoldable pub description : ErrorCode → List ℕ
description success = codes "success"
description unknown = codes "unknown internal error"
description sentence_empty = codes "sentence is empty"
description sentence_too_short = codes "sentence is too short to be valid"
description sentence_invalid_start = codes "sentence does not begin with '!' or '$'"
description sentence_missing_checksum = codes "checksum delimiter '*' not found"
description sentence_checksum_bad = codes "checksum mismatch"
description sentence_field_missing = codes "required sentence field is absent"
description sentence_field_invalid = codes "sentence field value is invalid"
description sentence_talker_invalid = codes "talker ID is not a recognised AIS talker"
description sentence_type_invalid = codes "sentence type is not VDM or VDO"
description payload_empty = codes "payload string is empty"
description payload_char_invalid = codes "payload contains an invalid armour character"
description payload_fill_bits_invalid = codes "fill bit count is not in [0, 5]"
description payload_too_short = codes "payload is shorter than the required minimum"
description payload_too_long = codes "payload exceeds the maximum permitted length"
description bitfield_out_of_range = codes "bit field access is out of buffer range"
description bitfield_width_invalid = codes "bit field width must be in [1, 64]"
description multipart_out_of_order = codes "multi-part fragment arrived out of order"
description multipart_duplicate = codes "duplicate multi-part fragment received"
description multipart_incomplete = codes "reassembly requested before all fragments arrived"
description multipart_count_invalid = codes "part count is zero or exceeds the protocol maximum"
description multipart_seq_invalid = codes "sequential message identifier is out of range"
description multipart_talker_conflict =
    codes "fragment sentence type (VDM/VDO) conflicts with the first part of the sequence"
description message_type_unknown = codes "message type ID is not in [1, 27]"
description message_type_unsupported = codes "message type is known but not yet implemented"
description message_decode_failure = codes "message decode failed"

-- `Error::message`.
unfoldable pub message : Error → List ℕ
message e = text e.detail
  where
    text : List ℕ → List ℕ
    text [] = description e.code
    text (c ∷ cs) = description e.code ++ codes ": " ++ (c ∷ cs)

-- `operator==` and `operator!=`: the detail is ignored.
unfoldable pub error_eq : Error → Error → Bool
error_eq a b = code_value a.code == code_value b.code

unfoldable pub error_ne : Error → Error → Bool
unfolding error_eq
error_ne a b = not (error_eq a b)

-- `Result<T>`.
pub data Result {ℓ} (A : Type ℓ) : Type ℓ where
  ok : A → Result A
  err : Error → Result A

infixl 5 ◌>>=◌
-- `if (!r) return Error{ r.error() };`, then what follows.
abbrev pub ◌>>=◌ {ℓ κ} : {A : Type ℓ} {B : Type κ} → Result A → (A → Result B) → Result B
ok a >>= f = f a
err e >>= f = err e

-- `Error{ code }` and `Error{ code, detail }` as results.
abbrev pub fail {ℓ} : {A : Type ℓ} → ErrorCode → Result A
fail c = err (record { code = c; detail = [] })

abbrev pub fail_with {ℓ} : {A : Type ℓ} → ErrorCode → List ℕ → Result A
fail_with c d = err (record { code = c; detail = d })

-- `value_or`.
unfoldable pub value_or {ℓ} : {A : Type ℓ} → Result A → A → A
value_or (ok a) fallback = a
value_or (err e) fallback = fallback

-- `std::to_string` on a number: its decimal digits. A number has no more digits than its value plus
-- one, which is the fuel.
digits_of : ℕ → ℕ → List ℕ → List ℕ
digits_of zero n acc = acc
digits_of (suc fuel) n acc =
    let rest = digits_of fuel (n / 10) ((b'0' + n % 10) ∷ acc) in
    if ltb n 10 then (b'0' + n) ∷ acc else rest

unfoldable pub to_string : ℕ → List ℕ
unfolding digits_of
to_string n = digits_of (suc n) n []

to_string_run : to_string 4071 ≡ codes "4071"
unfolding to_string
to_string_run = refl
