-- ===== src/Examples/Sentences.antt =====
-- Sentences: the line of one, parsed, and the parts of a message, put together.
use pgais.Base.{
  ℕ, ◌≡◌, inl, inr, refl, arith, List, [], ◌∷◌, ◌++◌, true, false, none, some, codes, text_eq,
}
use pgais.Error.{multipart_out_of_order, to_string, ok, err}
use pgais.Sentence.{Sentence, is_valid_talker, matches_talker, parse}
use pgais.Sentence.Valid.{IsSentence}
use pgais.Sentence.Print.{IsPlain, print, parse-print}
use pgais.Sentence.Parsed.{parse-IsSentence}
use pgais.Assembler.{Sequences, find, feed, feed_multi, feed_part, reset, concat}
use pgais.Assembler.Invariant.{IsAssembler, feed-err, find-feed_ne}
use pgais.Assembler.Preservation.{feed-IsAssembler}
use pgais.Assembler.Delivery.{nothing, part, other, feed_all, feed-Brings}

-- Part `k` of a message of three parts under number 4.
abbrev part_of : ℕ → List ℕ → Sentence
part_of k payload = record {
  talker = codes "AI";
  sentence_type = codes "VDM";
  part_count = 3;
  part_index = k;
  seq_id = some 4;
  channel = b'A';
  payload = payload;
  fill_bits = 2;
}

-- A sentence of one part.
abbrev single : Sentence
single = record {
  talker = codes "AB";
  sentence_type = codes "VDO";
  part_count = 1;
  part_index = 1;
  seq_id = none;
  channel = b'B';
  payload = codes "17";
  fill_bits = 0;
}

ai_valid : is_valid_talker (codes "AI") ≡ true
unfolding is_valid_talker matches_talker
ai_valid = refl

part_1-IsSentence : IsSentence (part_of 1 (codes "55"))
part_1-IsSentence = record {
  talker_valid = ai_valid;
  type_valid = inl refl;
  count_low = omega arith;
  count_high = omega arith;
  index_low = omega arith;
  index_high = omega arith;
  seq_id_fits = inr (4, refl, omega arith);
  has_payload = inl (omega arith);
  fill_bits_high = omega arith;
}

part_1-IsPlain : IsPlain (part_of 1 (codes "55"))
part_1-IsPlain = record {
  channel_byte = omega arith;
  channel_plain = refl;
  payload_bytes = (omega arith, (omega arith, tt));
  payload_plain = (refl, (refl, tt));
}

parse-print_example :
    parse (print (part_of 1 (codes "55")) ++ (b'\r' ∷ b'\n' ∷ [])) ≡ ok (part_of 1 (codes "55"))
parse-print_example =
    parse-print (part_of 1 (codes "55")) (b'\r' ∷ b'\n' ∷ []) part_1-IsSentence part_1-IsPlain
      (refl, (refl, tt))

parse-IsSentence_example : IsSentence (part_of 1 (codes "55"))
parse-IsSentence_example =
    parse-IsSentence (print (part_of 1 (codes "55")) ++ []) (part_of 1 (codes "55"))
      (parse-print (part_of 1 (codes "55")) [] part_1-IsSentence part_1-IsPlain tt)

nothing_there : find 4 [] ≡ none
unfolding find
nothing_there = refl

feed-Brings_example :
    (feed
      (part_of 3 (codes "zz"))
      (feed_all (single ∷ part_of 2 (codes "yy") ∷ []) (feed (part_of 1 (codes "xx")) []).0)).1
    ≡ ok (
        some (record {
          payload = codes "xx" ++ concat (codes "yy" ∷ []) ++ codes "zz";
          fill_bits = 2;
          is_own_vessel = text_eq (codes "VDM") (codes "VDO");
          talker = codes "AI";
        }))
feed-Brings_example =
    feed-Brings 4 3 (codes "VDM") [] (part_of 1 (codes "xx")) (part_of 3 (codes "zz"))
      (codes "yy" ∷ []) (single ∷ part_of 2 (codes "yy") ∷ []) nothing_there (omega arith) refl
      (record { numbered = refl; counted = refl; indexed = refl; typed = refl })
      (other 1 single (codes "yy" ∷ []) (part_of 2 (codes "yy") ∷ []) (λ e. cc)
        (part 1 (part_of 2 (codes "yy")) [] []
          (record { numbered = refl; counted = refl; indexed = refl; typed = refl }) (nothing 2)))
      (record { numbered = refl; counted = refl; indexed = refl; typed = refl })

-- The state after the first part.
abbrev one_waits : Sequences
one_waits =
    (
      4,
      (record {
        parts = codes "55" ∷ [] ∷ [] ∷ [];
        part_count = 3;
        received = 1;
        talker = codes "AI";
        sentence_type = codes "VDM";
        is_own_vessel = false;
      }),
    )
    ∷ []

one_waits-IsAssembler : IsAssembler one_waits
unfolding IsAssembler
one_waits-IsAssembler = (
  record {
    key_fits = omega arith;
    count_high = omega arith;
    some_received = omega arith;
    some_missing = omega arith;
    places = refl;
  },
  tt,
  tt,
)

feed-IsAssembler_example :
    IsAssembler (feed (part_of 1 (codes "55")) one_waits).0 × IsAssembler (reset one_waits)
feed-IsAssembler_example =
    feed-IsAssembler (part_of 1 (codes "55")) one_waits part_1-IsSentence one_waits-IsAssembler

find-feed_ne_example : find 7 (feed (part_of 2 (codes "55")) one_waits).0 ≡ find 7 one_waits
find-feed_ne_example = find-feed_ne (part_of 2 (codes "55")) one_waits 7 (λ e. ground arith)

second_first :
    (feed (part_of 2 (codes "55")) []).1
    ≡ err
        (record { code = multipart_out_of_order; detail = codes "first received part has index 2" })
unfolding feed feed_multi feed_part find to_string
second_first = refl

feed-err_example : (feed (part_of 2 (codes "55")) []).0 ≡ []
feed-err_example =
    feed-err (part_of 2 (codes "55")) []
      (record { code = multipart_out_of_order; detail = codes "first received part has index 2" })
      second_first
