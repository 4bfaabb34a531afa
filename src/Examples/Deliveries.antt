-- ===== src/Examples/Deliveries.antt =====
-- The registry: its operations on given types, and a message that it delivers.
use pgais.Base.{ℕ, List, [], ◌∷◌, codes, ◌≡◌, refl, none, some, get_or}
use pgais.Error.{ok}
use pgais.Bitfield.Reader.{read_uint, check_bounds, read_loop}
use pgais.Payload.{
  decode_payload, is_empty, validate, is_valid_payload_char, unpack_bits, unpack_char,
  armour_decode,
}
use pgais.Message.{same_type, message_type_from_id}
use pgais.Messages.UtcDateInquiry.{decode as decode_utc_date_inquiry}
use pgais.Registry.{
  utc_date_inquiry, static_and_voyage_data, new_registry, clear, decode, register_all_decoders,
  wrap,
}
use pgais.Registry.Dispatch.{IsRegistry, registered, register_all_decoders_lem}
use pgais.Registry.Refinement.{
  Operation, add, add_all, remove_all, ask, read, perform_all, promise_all, perform_all-promise_all,
}
use pgais.Registry.Sendable.{IsSendable}
use pgais.Registry.Delivery.{Delivered, decode-encode}
use pgais.Registry.Reception.{Received, decode-Received, decode-decode}
use pgais.Examples.OtherReports.{
  sent_utc_date_inquiry, sent_static_and_voyage_data, sent_static_and_voyage_data-IsEncodable,
}

fresh : IsRegistry new_registry
unfolding new_registry
fresh = refl

sendable : IsSendable (static_and_voyage_data sent_static_and_voyage_data)
unfolding IsSendable
sendable = sent_static_and_voyage_data-IsEncodable

decode-encode_example :
    Delivered
      (register_all_decoders new_registry)
      (static_and_voyage_data sent_static_and_voyage_data)
decode-encode_example =
    decode-encode new_registry (static_and_voyage_data sent_static_and_voyage_data) fresh sendable

register_all_decoders_lem_example :
    (register_all_decoders new_registry ≡ registered (λ i. get_or new_registry i none))
    × (register_all_decoders (register_all_decoders new_registry)
        ≡ register_all_decoders new_registry)
register_all_decoders_lem_example = register_all_decoders_lem new_registry fresh

-- `encode` of the message, written out.
abbrev payload : List ℕ
payload = codes ":CaDo80rE=j0"

received_message :
    decode (register_all_decoders (clear new_registry)) payload 0
    ≡ ok (utc_date_inquiry sent_utc_date_inquiry)
unfolding decode register_all_decoders clear new_registry decode_payload is_empty validate
    is_valid_payload_char unpack_bits unpack_char read_uint check_bounds read_loop armour_decode
    decode_utc_date_inquiry same_type message_type_from_id
received_message = refl

decode-Received_example :
    Received payload 0 (decode (register_all_decoders (clear new_registry)) payload 0)
decode-Received_example = decode-Received new_registry payload 0 fresh

decode-decode_example :
    Delivered (register_all_decoders (clear new_registry)) (utc_date_inquiry sent_utc_date_inquiry)
decode-decode_example =
    decode-decode new_registry payload 0 (utc_date_inquiry sent_utc_date_inquiry) fresh
      received_message

-- Among the calls are a registration out of range, one of `nullptr`, and a payload of a type that has no decoder any more.
abbrev calls : List Operation
calls =
    ask 10
    ∷ add_all
    ∷ ask 10
    ∷ read (codes ":CaDo80rE=j0") 0
    ∷ add 28 (some (wrap utc_date_inquiry decode_utc_date_inquiry))
    ∷ ask 28
    ∷ add 11 none
    ∷ ask 11
    ∷ remove_all
    ∷ read (codes ":CaDo80rE=j0") 0
    ∷ []

perform_all-promise_all_example : perform_all calls new_registry ≡ promise_all calls (λ j. none)
perform_all-promise_all_example = perform_all-promise_all calls
