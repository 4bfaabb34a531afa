-- ===== src/Examples/Assembling.antt =====
-- The assembler against its specification, and a line with a wrong character.
use pgais.Base.{ℕ, inl, inr, some, ◌≤◌, ◌≡◌, refl, arith, [], ◌∷◌, ◌++◌, none, codes}
use pgais.Error.{fail_with, sentence_checksum_bad}
use pgais.Sentence.{Sentence, parse, compute_checksum}
use pgais.Sentence.Corruption.{parse-changed}
use pgais.Assembler.{find, feed, reset, pending_count}
use pgais.Assembler.Invariant.{IsAssembler}
use pgais.Assembler.Spec.{answers}
use pgais.Assembler.Refinement.{feed_answers, feed-refines}
use pgais.Assembler.Reachable.{made, fed, Reachable-Waits}
use pgais.Assembler.Order.{feed-commutes}
use pgais.Sentence.Valid.{IsSentence}
use pgais.Examples.Lines.{
  third, third-IsSentence, third-parsed, line_of, plain, all_bytes, all_bytes-IsByte,
}

feed-refines_example :
    feed_answers (third 1 (codes "55") ∷ third 3 (codes "1") ∷ third 2 (codes "6") ∷ []) (reset [])
    ≡ answers (third 1 (codes "55") ∷ third 3 (codes "1") ∷ third 2 (codes "6") ∷ []) (λ id. none)
feed-refines_example =
    feed-refines (third 1 (codes "55") ∷ third 3 (codes "1") ∷ third 2 (codes "6") ∷ []) [] (
      third-IsSentence 1 (codes "55") (omega arith) (omega arith),
      (
        third-IsSentence 3 (codes "1") (omega arith) (omega arith),
        (third-IsSentence 2 (codes "6") (omega arith) (omega arith), tt),
      ),
    )

none_waits : IsAssembler []
unfolding IsAssembler
none_waits = tt

Reachable-Waits_example :
    IsAssembler (feed (third 1 (codes "55")) []).0
    × (pending_count (feed (third 1 (codes "55")) []).0 ≤ 10)
unfolding plain
Reachable-Waits_example = Reachable-Waits (
    fed (line_of (third 1 (codes "55"))) (third 1 (codes "55")) made
      (third-parsed 1 (codes "55") (omega arith) (omega arith) refl))

-- A part under number 5.
abbrev another : Sentence
another = record {
  talker = codes "AI";
  sentence_type = codes "VDM";
  part_count = 2;
  part_index = 1;
  seq_id = some 5;
  channel = b'A';
  payload = codes "17";
  fill_bits = 0;
}

another-IsSentence : IsSentence another
another-IsSentence = record {
  talker_valid = (third-IsSentence 1 [] (omega arith) (omega arith)).talker_valid;
  type_valid = inl refl;
  count_low = omega arith;
  count_high = omega arith;
  index_low = omega arith;
  index_high = omega arith;
  seq_id_fits = inr (5, refl, omega arith);
  has_payload = inl (omega arith);
  fill_bits_high = omega arith;
}

feed-commutes_example :
    ((feed another (feed (third 1 (codes "55")) []).0).1 ≡ (feed another []).1)
    × ((feed (third 1 (codes "55")) (feed another []).0).1 ≡ (feed (third 1 (codes "55")) []).1)
    × ((id : ℕ)
        → find id (feed another (feed (third 1 (codes "55")) []).0).0
          ≡ find id (feed (third 1 (codes "55")) (feed another []).0).0)
feed-commutes_example =
    feed-commutes (third 1 (codes "55")) another []
      (third-IsSentence 1 (codes "55") (omega arith) (omega arith)) another-IsSentence none_waits
      (λ e. ground arith)

-- The payload's `8` comes as `9`.
parse-changed_example :
    parse (
      b'!' ∷ (codes "AIVDM,1,1,,B," ++ b'9' ∷ codes "0r,0")
      ++ b'*' ∷ compute_checksum (codes "AIVDM,1,1,,B," ++ b'8' ∷ codes "0r,0")
      ++ [])
    ≡ fail_with sentence_checksum_bad (
        codes "expected "
        ++ compute_checksum (codes "AIVDM,1,1,,B," ++ b'9' ∷ codes "0r,0")
        ++ codes " got "
        ++ compute_checksum (codes "AIVDM,1,1,,B," ++ b'8' ∷ codes "0r,0"))
unfolding all_bytes
parse-changed_example =
    parse-changed (codes "AIVDM,1,1,,B,") (codes "0r,0") [] b'8' b'9'
      (all_bytes-IsByte (codes "AIVDM,1,1,,B,") refl) (all_bytes-IsByte (codes "0r,0") refl)
      (omega arith) (omega arith) (omega arith) (omega arith) tt
