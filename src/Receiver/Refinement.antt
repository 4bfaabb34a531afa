-- ===== src/Receiver/Refinement.antt =====
-- The receiving loop against the abstract assembler: which messages come out of which lines.
use pgais.Base.{
  ℕ, ◌≡◌, refl, ap, ap₂, ◌∙◌, List, [], ◌∷◌, ◌++◌, All, All-append, Option, none, some,
}
use pgais.Error.{Result, ok, err}
use pgais.Sentence.{Sentence, parse}
use pgais.Sentence.Valid.{IsSentence}
use pgais.Sentence.Parsed.{parse-IsSentence}
use pgais.Assembler.{AssembledMessage, Sequences, feed, reset}
use pgais.Assembler.Spec.{Outcome, pending, delivered, refused, outcome, answers}
use pgais.Assembler.Refinement.{feed_answers, feed-refines}
use pgais.Registry.{Message, Registry, decode}
use pgais.Receiver.{process, process_fed, receive_parsed, receive}

-- The sentences of the lines that are sentences.
unfoldable accepted : Result Sentence → List Sentence
accepted (err e) = []
accepted (ok s) = s ∷ []

unfoldable pub sentences : List (List ℕ) → List Sentence
unfolding accepted
sentences [] = []
sentences (raw ∷ raws) = accepted (parse raw) ++ sentences raws

-- The messages of the outcomes that deliver a payload.
unfoldable message_of : Registry → Outcome → List Message
message_of ds pending = []
message_of ds (refused e) = []
message_of ds (delivered a) = process (decode ds a.payload a.fill_bits)

unfoldable pub messages_of : Registry → List Outcome → List Message
unfolding message_of
messages_of ds [] = []
messages_of ds (o ∷ os) = message_of ds o ++ messages_of ds os

process_fed-outcome :
    (ds : Registry) (r : Result (Option AssembledMessage))
    → process_fed ds r ≡ message_of ds (outcome r)
unfolding process_fed message_of outcome
process_fed-outcome ds (err e) = refl
process_fed-outcome ds (ok none) = refl
process_fed-outcome ds (ok (some a)) = refl

messages_of-parsed :
    (ds : Registry) (r : Result Sentence) (raws : List (List ℕ)) (st : Sequences)
    → ((st' : Sequences)
        → (receive ds raws st').1 ≡ messages_of ds (feed_answers (sentences raws) st'))
    → (receive_parsed ds r st).1 ++ (receive ds raws (receive_parsed ds r st).0).1
      ≡ messages_of ds (feed_answers (accepted r ++ sentences raws) st)
unfolding receive_parsed accepted feed_answers messages_of
messages_of-parsed ds (err e) raws st h = h st
messages_of-parsed ds (ok s) raws st h =
    ap₂ ◌++◌ (process_fed-outcome ds (feed s st).1) (h (feed s st).0)

receive-feed_answers :
    (ds : Registry) (raws : List (List ℕ)) (st : Sequences)
    → (receive ds raws st).1 ≡ messages_of ds (feed_answers (sentences raws) st)
unfolding receive sentences messages_of feed_answers
receive-feed_answers ds [] st = refl
receive-feed_answers ds (raw ∷ raws) st =
    messages_of-parsed ds (parse raw) raws st (receive-feed_answers ds raws)

accepted-IsSentence :
    (raw : List ℕ) (r : Result Sentence) → parse raw ≡ r → All IsSentence (accepted r)
unfolding accepted
accepted-IsSentence raw (err e) p = tt
accepted-IsSentence raw (ok s) p = (parse-IsSentence raw s p, tt)

sentences-IsSentence : (raws : List (List ℕ)) → All IsSentence (sentences raws)
unfolding sentences
sentences-IsSentence [] = tt
sentences-IsSentence (raw ∷ raws) =
    All-append IsSentence (accepted (parse raw)) (sentences raws)
      (accepted-IsSentence raw (parse raw) refl) (sentences-IsSentence raws)

-- From a new or reset assembler on, the messages that the receiving loop returns for any lines are these, in
-- their order: the abstract assembler is given the sentences of the lines that `parse` accepts, and each
-- payload that it delivers is decoded; those that `decode` refuses are left out.
pub receive-refines :
    (ds : Registry) (raws : List (List ℕ)) (st : Sequences)
    → (receive ds raws (reset st)).1 ≡ messages_of ds (answers (sentences raws) (λ id. none))
receive-refines ds raws st =
    receive-feed_answers ds raws (reset st)
    ∙ ap (messages_of ds) (feed-refines (sentences raws) st (sentences-IsSentence raws))
