-- ===== src/Examples/Bounds.antt =====
-- Reads at and past the bounds, and a payload of an unknown type.
use pgais.Base.{
  ℕ, ◌≤◌, ◌<◌, ◌≡◌, ◌⊎◌, List, ◌++◌, none, some, ◌||◌, ◌==◌, ltb, if◌then◌else◌, get_or, codes,
}
use pgais.Error.{
  Error, ok, err, fail_with, to_string, payload_too_short, message_type_unknown,
  message_type_unsupported,
}
use pgais.Bitfield.Reader.{bit_length}
use pgais.Payload.{decode_payload}
use pgais.Message.{message_type_name, message_type_from_id}
use pgais.Registry.{new_registry, decode}
use pgais.Registry.Outcomes.{type_bits, decode-cases}

decode-cases_example :
    ((e : Error) × (decode_payload (codes "77") 0 ≡ err e)
      × (decode new_registry (codes "77") 0 ≡ err e))
    ⊎ ((buf : List ℕ) × (decode_payload (codes "77") 0 ≡ ok buf)
        × (((bit_length buf < 6)
              × (decode new_registry (codes "77") 0
                  ≡ fail_with payload_too_short (codes "cannot read message type field")))
            ⊎ ((6 ≤ bit_length buf)
                × (decode new_registry (codes "77") 0 ≡ (
                    if type_bits buf == 0 || ltb 27 (type_bits buf)
                    then fail_with message_type_unknown
                        (codes "type_id=" ++ to_string (type_bits buf))
                    else elim (get_or new_registry (type_bits buf) none) [
                      | none ↦
                          fail_with message_type_unsupported
                            (message_type_name (message_type_from_id (type_bits buf)))
                      | some decoder ↦ decoder buf
                    ])))))
decode-cases_example = decode-cases new_registry (codes "77") 0
