-- ===== src/Registry/Reception.antt =====
-- What `MessageRegistry::decode` makes of any payload, once the registry was cleared and all decoders
-- were registered.
use pgais.Base.{
  ℕ, ◌≡◌, ◌⊎◌, inl, inr, refl, sym, ap, ◌∙◌, List, All, All-get_or, Option, none, some, get_or, ltb,
  ◌==◌, ◌||◌, Bool-cases,
}
use mathlib.Core.Path.{subst, fun_ext}
use pgais.Error.{
  Error, Result, ok, err, fail_with, value_or, payload_too_short, message_type_unknown,
  message_type_unsupported, message_decode_failure,
}
use pgais.Bitfield.Reader.{read_uint}
use pgais.Payload.{decode_payload}
use pgais.Message.{type_value}
use pgais.Registry.{Message, Decoder, Registry, decode, type_of, clear, register_all_decoders}
use pgais.Registry.Sendable.{IsSendable}
use pgais.Registry.Dispatch.{
  IsRegistry, length-clear, get_or-clear, registered, register_all_decoders_lem,
}
use pgais.Registry.Outcomes.{decode-cases, type_bits}
use pgais.Registry.Delivery.{Delivered, decode-encode}
use pgais.Registry.Soundness.{Answers, refuses, reads, IsSound, registered-IsSound}

-- What a registry may return for a payload: the error of `decode_payload`, a refusal of the unpacked
-- buffer, or a message that fits its fields and has the type that the buffer names.
pub data Received (payload : List ℕ) (fill_bits : ℕ) : Result Message → Type 0 where
  not_unpacked :
      (e : Error) → decode_payload payload fill_bits ≡ err e → Received payload fill_bits (err e)
  not_read :
      (buf : List ℕ) (e : Error)
      → decode_payload payload fill_bits ≡ ok buf
      → (e.code ≡ payload_too_short)
        ⊎ (e.code ≡ message_type_unknown)
        ⊎ (e.code ≡ message_type_unsupported)
        ⊎ (e.code ≡ message_decode_failure)
      → Received payload fill_bits (err e)
  received :
      (buf : List ℕ) (m : Message)
      → decode_payload payload fill_bits ≡ ok buf
      → read_uint buf 0 6 ≡ ok (type_value (type_of m))
      → IsSendable m
      → Received payload fill_bits (ok m)

answer :
    (payload : List ℕ) (fill_bits : ℕ) (buf : List ℕ) (r : Result Message)
    → decode_payload payload fill_bits ≡ ok buf
    → Answers buf r
    → Received payload fill_bits r
answer payload fill_bits buf _ p (refuses e (inl c)) = not_read buf e p (inl c)
answer payload fill_bits buf _ p (refuses e (inr c)) = not_read buf e p (inr (inr (inr c)))
answer payload fill_bits buf _ p (reads m t s) = received buf m p t s

-- Step 4 with a sound decoder, or with none.
found :
    (payload : List ℕ) (fill_bits : ℕ) (buf : List ℕ) (detail : List ℕ) (entry : Option Decoder)
    → decode_payload payload fill_bits ≡ ok buf
    → IsSound entry
    → Received payload fill_bits (elim entry [
      | none ↦ fail_with message_type_unsupported detail
      | some decoder ↦ decoder buf
    ])
unfolding IsSound
found payload fill_bits buf detail none p h =
    not_read buf (record { code = message_type_unsupported; detail = detail }) p
      (inr (inr (inl refl)))
found payload fill_bits buf detail (some decoder) p h =
    answer payload fill_bits buf (decoder buf) p (h buf)

sound-Received :
    (ds : Registry) (payload : List ℕ) (fill_bits : ℕ)
    → All IsSound ds
    → Received payload fill_bits (decode ds payload fill_bits)
unfolding IsSound
sound-Received ds payload fill_bits sound = elim (decode-cases ds payload fill_bits) [
  | inl (e, p, d) ↦ subst (Received payload fill_bits) (sym d) (not_unpacked e p)
  | inr (buf, p, inl (k, d)) ↦
      subst (Received payload fill_bits) (sym d) (not_read buf _ p (inl refl))
  | inr (buf, p, inr (k, d)) ↦
      subst (Received payload fill_bits) (sym d)
        (elim (Bool-cases (type_bits buf == 0 || ltb 27 (type_bits buf))) [
          | inl e ↦ rw e (not_read buf _ p (inr (inl refl)))
          | inr e ↦ rw e (
              found payload fill_bits buf _ (get_or ds (type_bits buf) none) p
                (All-get_or IsSound ds (type_bits buf) none sound tt))
        ])
]

register_all_decoders-clear :
    (ds : Registry) → IsRegistry ds → register_all_decoders (clear ds) ≡ registered (λ i. none)
register_all_decoders-clear ds h =
    (register_all_decoders_lem (clear ds) (length-clear ds ∙ h)).0
    ∙ ap registered (fun_ext λ i. get_or-clear ds i)

-- Whatever a registry held, once it is cleared and all decoders are registered, `decode` of any payload
-- with any fill count ends in one of three ways: with the error of `decode_payload`; with
-- `PayloadTooShort`, `MessageTypeUnknown`, `MessageTypeUnsupported` or `MessageDecodeFailure`, when the
-- payload is unpacked; or with a message whose type is the number in the first six bits of the unpacked
-- buffer and whose values fit their fields.
pub decode-Received :
    (ds : Registry) (payload : List ℕ) (fill_bits : ℕ)
    → IsRegistry ds
    → Received payload fill_bits (decode (register_all_decoders (clear ds)) payload fill_bits)
decode-Received ds payload fill_bits h =
    rw (register_all_decoders-clear ds h)
      (sound-Received (registered (λ i. none)) payload fill_bits registered-IsSound)

pub Received-ok :
    (payload : List ℕ) (fill_bits : ℕ) (r : Result Message) (m : Message)
    → Received payload fill_bits r
    → r ≡ ok m
    → IsSendable m
unfolding value_or
Received-ok payload fill_bits _ m (not_unpacked e p) q = absurd cc
Received-ok payload fill_bits _ m (not_read buf e p c) q = absurd cc
Received-ok payload fill_bits _ m (received buf n p t s) q =
    subst IsSendable (ap (λ (r : Result Message). value_or r m) q) s

-- A message that `decode` returned for some payload, from a registry that was cleared and on which all
-- decoders were registered, can be sent again: `encode` gives a payload and a fill count, and `decode` of
-- these returns the same message.
pub decode-decode :
    (ds : Registry) (payload : List ℕ) (fill_bits : ℕ) (m : Message)
    → IsRegistry ds
    → decode (register_all_decoders (clear ds)) payload fill_bits ≡ ok m
    → Delivered (register_all_decoders (clear ds)) m
decode-decode ds payload fill_bits m h e = decode-encode (clear ds) m (length-clear ds ∙ h) (
    Received-ok payload fill_bits (decode (register_all_decoders (clear ds)) payload fill_bits) m
      (decode-Received ds payload fill_bits h) e)
