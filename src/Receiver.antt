-- ===== src/Receiver.antt =====
-- The receiving loop that the comment on `SentenceAssembler` in include/aislib/sentence.h shows, with the
-- call of `MessageRegistry::decode` that the README shows for a complete message. `handle_error` leaves
-- the state alone, and the messages are returned in the order in which they become complete.
pub mod Delivery
pub mod Soundness
pub mod Refinement
use pgais.Base.{ℕ, List, [], ◌∷◌, ◌++◌, Option, none, some}
use pgais.Error.{Result, ok, err}
use pgais.Sentence.{Sentence, parse}
use pgais.Assembler.{AssembledMessage, Sequences, feed}
use pgais.Registry.{Message, Registry, decode}

-- `if (!dr) return;`, then the message.
unfoldable pub process : Result Message → List Message
process (err e) = []
process (ok m) = m ∷ []

-- `if (!ar) { handle_error(ar.error()); continue; } if (ar.value()) process(*ar.value());`
unfoldable pub process_fed : Registry → Result (Option AssembledMessage) → List Message
unfolding process
process_fed decoders (err e) = []
process_fed decoders (ok none) = []
process_fed decoders (ok (some message)) =
    process (decode decoders message.payload message.fill_bits)

-- A round of the loop from `if (!sr)` on.
unfoldable pub receive_parsed : Registry → Result Sentence → Sequences → Sequences × List Message
unfolding process_fed
receive_parsed decoders (err e) sequences = (sequences, [])
receive_parsed decoders (ok s) sequences =
    let (sequences', fed) = feed s sequences in (sequences', process_fed decoders fed)

unfoldable pub receive : Registry → List (List ℕ) → Sequences → Sequences × List Message
unfolding receive_parsed
receive decoders [] sequences = (sequences, [])
receive decoders (raw ∷ incoming_sentences) sequences =
    let (sequences', messages) = receive_parsed decoders (parse raw) sequences in
    let (sequences'', rest) = receive decoders incoming_sentences sequences' in
    (sequences'', messages ++ rest)
