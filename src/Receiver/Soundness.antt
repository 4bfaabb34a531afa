-- ===== src/Receiver/Soundness.antt =====
-- What the receiving loop returns and leaves behind for any lines at all.
use pgais.Base.{
  ℕ, ◌≤◌, ◌≡◌, refl, arith, List, [], ◌∷◌, All, All-append, Option, none, some, length,
  length-append,
}
use pgais.Error.{Result, ok, err}
use pgais.Sentence.{Sentence, parse}
use pgais.Sentence.Parsed.{parse-IsSentence}
use pgais.Assembler.{AssembledMessage, Sequences, feed}
use pgais.Assembler.Invariant.{IsAssembler}
use pgais.Assembler.Preservation.{feed-IsAssembler}
use pgais.Registry.{Message, Registry, decode, clear, register_all_decoders}
use pgais.Registry.Sendable.{IsSendable}
use pgais.Registry.Dispatch.{IsRegistry}
use pgais.Registry.Reception.{decode-Received, Received-ok}
use pgais.Receiver.{process, process_fed, receive_parsed, receive}

-- What a round may bring: at most one message, of values that fit their fields.
abbrev Fits : List Message → Type 0
Fits messages = All IsSendable messages × (length messages ≤ 1)

module _ (ds : Registry) (h : IsRegistry ds) where
  abbrev reg : Registry
  reg = register_all_decoders (clear ds)

  process-Fits :
      (payload : List ℕ) (fill_bits : ℕ) (r : Result Message)
      → decode reg payload fill_bits ≡ r
      → Fits (process r)
  unfolding process
  process-Fits payload fill_bits (err e) p = (tt, omega arith)
  process-Fits payload fill_bits (ok m) p = (
    (
      Received-ok payload fill_bits (decode reg payload fill_bits) m
          (decode-Received ds payload fill_bits h) p,
      tt,
    ),
    omega arith,
  )

  process_fed-Fits : (r : Result (Option AssembledMessage)) → Fits (process_fed reg r)
  unfolding process_fed
  process_fed-Fits (err e) = (tt, omega arith)
  process_fed-Fits (ok none) = (tt, omega arith)
  process_fed-Fits (ok (some a)) = process-Fits a.payload a.fill_bits _ refl

  receive_parsed-Fits :
      (raw : List ℕ) (r : Result Sentence) (st : Sequences)
      → parse raw ≡ r
      → IsAssembler st
      → IsAssembler (receive_parsed reg r st).0 × Fits (receive_parsed reg r st).1
  unfolding receive_parsed
  receive_parsed-Fits raw (err e) st p k = (k, (tt, omega arith))
  receive_parsed-Fits raw (ok s) st p k =
      ((feed-IsAssembler s st (parse-IsSentence raw s p) k).0, process_fed-Fits (feed s st).1)

  -- With a registry that was cleared and on which all decoders were registered, and from a state in which
  -- every sequence waits, whatever lines come in: every sequence waits again behind them, each message
  -- that the loop returns has values that fit their fields, so that it could be sent, and there are at
  -- most as many messages as lines.
  pub receive_sound :
      (raws : List (List ℕ)) (st : Sequences)
      → IsAssembler st
      → IsAssembler (receive reg raws st).0
        × All IsSendable (receive reg raws st).1
        × (length (receive reg raws st).1 ≤ length raws)
  unfolding receive
  receive_sound [] st k = (k, tt, omega arith)
  receive_sound (raw ∷ raws) st k =
      let (waits, (fits, one)) = receive_parsed-Fits raw (parse raw) st refl k in
      let (waits', fit, few) = receive_sound raws (receive_parsed reg (parse raw) st).0 waits in
      (
        waits',
        All-append IsSendable (receive_parsed reg (parse raw) st).1 _ fits fit,
        omega (
          arith,
          length-append (receive_parsed reg (parse raw) st).1
              (receive reg raws (receive_parsed reg (parse raw) st).0).1,
        ),
      )
