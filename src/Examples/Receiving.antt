-- ===== src/Examples/Receiving.antt =====
-- Messages that are received.
use pgais.Base.{ℕ, length, ◌≤◌, ◌≡◌, All, refl, arith, List, [], ◌∷◌, ◌++◌, none, codes}
use pgais.Error.{ok, fail_with, sentence_empty}
use pgais.Bitfield.Writer.{write_uint, push_value}
use pgais.Payload.{
  is_empty, encode_payload, pack_chars, fill_count, armour_encode, pack_char, payload_bit,
}
use pgais.Messages.UtcDateInquiry.{encode as encode_utc_date_inquiry}
use pgais.Sentence.{parse}
use pgais.Assembler.{reset, concat, find}
use pgais.Assembler.Delivery.{nothing, part, other}
use pgais.Registry.{Message, utc_date_inquiry, new_registry, clear, register_all_decoders, encode}
use pgais.Registry.Sendable.{IsSendable}
use pgais.Registry.Dispatch.{IsRegistry}
use pgais.Receiver.{receive}
use pgais.Receiver.Refinement.{sentences, messages_of, receive-refines}
use pgais.Assembler.Spec.{answers}
use pgais.Receiver.Soundness.{receive_sound}
use pgais.Assembler.Invariant.{IsAssembler}
use pgais.Receiver.Delivery.{Lines, receive-single, receive-parts}
use pgais.Examples.Lines.{third, whole, plain, line_of, third-parsed, whole-parsed}
use pgais.Examples.OtherReports.{sent_utc_date_inquiry, sent_utc_date_inquiry-IsEncodable}

abbrev sent : Message
sent = utc_date_inquiry sent_utc_date_inquiry

sent-IsSendable : IsSendable sent
unfolding IsSendable
sent-IsSendable = sent_utc_date_inquiry-IsEncodable

pub fresh : IsRegistry new_registry
unfolding new_registry
fresh = refl

sent_payload : encode sent ≡ ok (codes ":CaDo80rE=j0", 0)
unfolding encode encode_utc_date_inquiry write_uint encode_payload push_value pack_chars fill_count
    armour_encode pack_char payload_bit
sent_payload = refl

none_waits : IsAssembler []
unfolding IsAssembler
none_waits = tt

receive-single_example :
    receive (register_all_decoders new_registry) (line_of whole ∷ []) [] ≡ ([], sent ∷ [])
receive-single_example =
    receive-single new_registry sent [] (line_of whole) whole fresh sent-IsSendable sent_payload
      refl whole-parsed

no_sequence : find 4 [] ≡ none
unfolding find
no_sequence = refl

no_line : parse [] ≡ fail_with sentence_empty []
unfolding parse is_empty
no_line = refl

-- The first part, an empty line, a sentence of its own, and the second part.
abbrev pub sent_lines : List (List ℕ)
sent_lines =
    line_of (third 1 (codes ":CaD")) ∷ [] ∷ line_of whole ∷ line_of (third 2 (codes "o80r")) ∷ []

sent_lines-Lines : Lines (third 1 (codes ":CaD") ∷ whole ∷ third 2 (codes "o80r") ∷ []) sent_lines
unfolding plain
sent_lines-Lines =
    let first = third 1 (codes ":CaD") in
    let second = third 2 (codes "o80r") in
    Lines.line (line_of first) first (whole ∷ second ∷ [])
      ([] ∷ line_of whole ∷ line_of second ∷ [])
      (third-parsed 1 (codes ":CaD") (omega arith) (omega arith) refl)
      (Lines.noise [] _ (whole ∷ second ∷ []) (line_of whole ∷ line_of second ∷ []) no_line (
        Lines.line (line_of whole) whole (second ∷ []) (line_of second ∷ []) whole-parsed (
          Lines.line (line_of second) second [] []
            (third-parsed 2 (codes "o80r") (omega arith) (omega arith) refl) Lines.nothing)))

last_parsed : parse (line_of (third 3 (codes "E=j0"))) ≡ ok (third 3 (codes "E=j0"))
unfolding plain
last_parsed = third-parsed 3 (codes "E=j0") (omega arith) (omega arith) refl

receive-parts_example :
    (receive
      (register_all_decoders new_registry)
      (sent_lines ++ line_of (third 3 (codes "E=j0")) ∷ [])
      []).1
    ≡ (receive (register_all_decoders new_registry) sent_lines []).1 ++ sent ∷ []
unfolding concat
receive-parts_example =
    receive-parts new_registry sent (codes ":CaDo80rE=j0") 0 [] 4 3 (codes "VDM")
      (third 1 (codes ":CaD")) (third 3 (codes "E=j0")) (codes "o80r" ∷ [])
      (whole ∷ third 2 (codes "o80r") ∷ []) sent_lines (line_of (third 3 (codes "E=j0"))) fresh
      sent-IsSendable sent_payload no_sequence (omega arith) refl
      (record { numbered = refl; counted = refl; indexed = refl; typed = refl })
      (other 1 whole (codes "o80r" ∷ []) (third 2 (codes "o80r") ∷ []) (λ e. cc)
        (part 1 (third 2 (codes "o80r")) [] []
          (record { numbered = refl; counted = refl; indexed = refl; typed = refl }) (nothing 2)))
      (record { numbered = refl; counted = refl; indexed = refl; typed = refl }) refl refl
      sent_lines-Lines last_parsed

receive_sound_example :
    IsAssembler
      (receive (register_all_decoders (clear new_registry)) (sent_lines ++ codes "?" ∷ []) []).0
    × All IsSendable
        (receive (register_all_decoders (clear new_registry)) (sent_lines ++ codes "?" ∷ []) []).1
    × (length
          (receive (register_all_decoders (clear new_registry)) (sent_lines ++ codes "?" ∷ []) []).1
        ≤ length (sent_lines ++ codes "?" ∷ []))
receive_sound_example =
    receive_sound new_registry fresh (sent_lines ++ codes "?" ∷ []) [] none_waits

receive-refines_example :
    (receive (register_all_decoders new_registry) sent_lines (reset [])).1
    ≡ messages_of (register_all_decoders new_registry) (answers (sentences sent_lines) (λ id. none))
receive-refines_example = receive-refines (register_all_decoders new_registry) sent_lines []
