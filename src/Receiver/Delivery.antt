-- ===== src/Receiver/Delivery.antt =====
-- A message that is sent, in one sentence or in parts, reaches the end of the receiving loop.
use pgais.Base.{
  ℕ, ◌+◌, ◌≤◌, ◌≡◌, refl, sym, ap, ◌∙◌, List, [], ◌∷◌, ◌++◌, append_assoc, none, some, text_eq,
  codes, length,
}
use pgais.Error.{Error, Result, ok, err, value_or}
use pgais.Sentence.{Sentence, parse}
use pgais.Assembler.{AssembledMessage, Sequences, find, concat, feed}
use pgais.Assembler.Steps.{IsPart}
use pgais.Assembler.Delivery.{Brings, feed_all, feed-Brings}
use pgais.Registry.{Message, Registry, encode, decode, register_all_decoders}
use pgais.Registry.Sendable.{IsSendable}
use pgais.Registry.Dispatch.{IsRegistry}
use pgais.Registry.Delivery.{decode-encode}
use pgais.Receiver.{process, process_fed, receive_parsed, receive}

-- Lines that are parsed to these sentences, with lines that `parse` refuses in between.
pub data Lines : List Sentence → List (List ℕ) → Type 0 where
  nothing : Lines [] []
  line :
      (raw : List ℕ) (s : Sentence) (ss : List Sentence) (raws : List (List ℕ))
      → parse raw ≡ ok s
      → Lines ss raws
      → Lines (s ∷ ss) (raw ∷ raws)
  noise :
      (raw : List ℕ) (e : Error) (ss : List Sentence) (raws : List (List ℕ))
      → parse raw ≡ err e
      → Lines ss raws
      → Lines ss (raw ∷ raws)

-- The assembler's state after lines is its state after their sentences.
receive-feed_all :
    (ds : Registry) {ss : List Sentence} {raws : List (List ℕ)} (st : Sequences)
    → Lines ss raws
    → (receive ds raws st).0 ≡ feed_all ss st
unfolding receive receive_parsed feed_all
receive-feed_all ds st nothing = refl
receive-feed_all ds st (line raw s ss raws e l) = rw e (receive-feed_all ds (feed s st).0 l)
receive-feed_all ds st (noise raw e ss raws p l) = rw p (receive-feed_all ds st l)

receive-append :
    (ds : Registry) (xs ys : List (List ℕ)) (st : Sequences)
    → (receive ds (xs ++ ys) st).1 ≡ (receive ds xs st).1 ++ (receive ds ys (receive ds xs st).0).1
unfolding receive
receive-append ds [] ys st = refl
receive-append ds (raw ∷ xs) ys st =
    let (st', messages) = receive_parsed ds (parse raw) st in
    ap (λ (rest : List Message). messages ++ rest) (receive-append ds xs ys st')
    ∙ sym (append_assoc messages _ _)

-- The payload and fill count that `encode` gave are decoded to the message.
decode-encoded :
    (ds : Registry) (m : Message) (payload : List ℕ) (fill_bits : ℕ)
    → IsRegistry ds
    → IsSendable m
    → encode m ≡ ok (payload, fill_bits)
    → decode (register_all_decoders ds) payload fill_bits ≡ ok m
unfolding value_or
decode-encoded ds m payload fill_bits h sendable e =
    let (payload', fill_bits', e', d) = decode-encode ds m h sendable in
    let same : (payload', fill_bits') ≡ (payload, fill_bits) =
      ap (λ (r : Result (List ℕ × ℕ)). value_or r (payload, fill_bits)) (sym e' ∙ e) in
    rw (ap (λ (p : List ℕ × ℕ). p.0) same, ap (λ (p : List ℕ × ℕ). p.1) same) at d

-- A line whose sentence completes a message.
receive-completed :
    (ds : Registry) (m : Message) (raw : List ℕ) (s : Sentence) (st : Sequences)
    (a : AssembledMessage)
    → parse raw ≡ ok s
    → (feed s st).1 ≡ ok (some a)
    → decode ds a.payload a.fill_bits ≡ ok m
    → (receive ds (raw ∷ []) st).1 ≡ m ∷ []
unfolding receive receive_parsed process_fed process
receive-completed ds m raw s st a parsed fed decoded = rw (parsed, fed, decoded) refl

-- A message whose values fit their fields and that is sent in one sentence is received: the line of the
-- sentence brings just that message, whatever the assembler has pending, and leaves that as it was.
pub receive-single :
    (ds : Registry) (m : Message) (st : Sequences) (raw : List ℕ) (s : Sentence)
    → IsRegistry ds
    → IsSendable m
    → encode m ≡ ok (s.payload, s.fill_bits)
    → s.part_count ≡ 1
    → parse raw ≡ ok s
    → receive (register_all_decoders ds) (raw ∷ []) st ≡ (st, m ∷ [])
unfolding receive receive_parsed process_fed process feed
receive-single ds m st raw s h sendable e one parsed =
    rw (parsed, one, decode-encoded ds m s.payload s.fill_bits h sendable e) refl

-- A message whose values fit their fields and that is sent in 2 to 5 parts under a sequence number that is
-- not in use is received: when the lines with its parts come in, in order, among lines that `parse`
-- refuses and sentences of other sequences, then the line of the last part brings just that message.
pub receive-parts :
    (ds : Registry) (m : Message) (payload : List ℕ) (fill_bits : ℕ) (st : Sequences) (id n : ℕ)
    (type : List ℕ) (first last : Sentence) (ps : List (List ℕ)) (ss : List Sentence)
    (raws : List (List ℕ)) (raw : List ℕ)
    → IsRegistry ds
    → IsSendable m
    → encode m ≡ ok (payload, fill_bits)
    → find id st ≡ none
    → n ≤ 5
    → length ps + 2 ≡ n
    → IsPart id n type 1 first
    → Brings id n type 1 ps ss
    → IsPart id n type n last
    → first.payload ++ concat ps ++ last.payload ≡ payload
    → last.fill_bits ≡ fill_bits
    → Lines (first ∷ ss) raws
    → parse raw ≡ ok last
    → (receive (register_all_decoders ds) (raws ++ raw ∷ []) st).1
      ≡ (receive (register_all_decoders ds) raws st).1 ++ m ∷ []
unfolding feed_all
receive-parts ds m payload fill_bits st id n type first last ps ss raws raw h sendable e absent high
      total p b q whole filled lines parsed =
    let reg = register_all_decoders ds in
    let st' = (receive reg raws st).0 in
    let state : st' ≡ feed_all ss (feed first st).0 = receive-feed_all reg st lines in
    let fed = feed-Brings id n type st first last ps ss absent high total p b q in
    let message : AssembledMessage = record {
      payload = first.payload ++ concat ps ++ last.payload;
      fill_bits = last.fill_bits;
      is_own_vessel = text_eq type (codes "VDO");
      talker = first.talker;
    } in
    let decoded = decode-encoded ds m payload fill_bits h sendable e in
    receive-append reg raws (raw ∷ []) st
    ∙ ap (λ (rest : List Message). (receive reg raws st).1 ++ rest)
        (receive-completed reg m raw last st' message parsed (rw state fed)
          (rw (whole, filled) decoded))
