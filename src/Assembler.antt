-- ===== src/Assembler.antt =====
-- `SentenceAssembler` of src/core/sentence.cpp and include/aislib/sentence.h. The map `sequences_` is an
-- association list with one entry for a key, and `feed` returns it beside its result.
pub mod Invariant
pub mod Preservation
pub mod Steps
pub mod Delivery
pub mod Spec
pub mod Tables
pub mod Refinement
pub mod Pending
pub mod Reachable
pub mod Order
use pgais.Base.{
  ℕ, ◌+◌, ◌-◌, ◌%◌, ◌^◌, List, [], ◌∷◌, ◌++◌, Bool, ◌||◌, not, Option, none, some, ltb, leb, ◌==◌,
  if◌then◌else◌, text_eq, length, set, replicate, codes,
}
use pgais.Error.{
  Result, ok, fail, fail_with, to_string, multipart_count_invalid, multipart_seq_invalid,
  multipart_out_of_order, multipart_duplicate, multipart_talker_conflict,
}
use pgais.Sentence.{Sentence, k_max_sentence_parts}

pub record AssembledMessage : Type 0 where
  pub payload : List ℕ
  pub fill_bits : ℕ
  pub is_own_vessel : Bool
  pub talker : List ℕ

pub record Sequence : Type 0 where
  pub parts : List (List ℕ)
  pub part_count : ℕ
  pub received : ℕ
  pub talker : List ℕ
  pub sentence_type : List ℕ
  pub is_own_vessel : Bool

abbrev pub Sequences : Type 0
Sequences = List (ℕ × Sequence)

unfoldable pub find : ℕ → Sequences → Option Sequence
find key [] = none
find key ((k, seq) ∷ rest) = if k == key then some seq else find key rest

unfoldable pub erase : ℕ → Sequences → Sequences
erase key [] = []
erase key ((k, seq) ∷ rest) = if k == key then rest else (k, seq) ∷ erase key rest

-- A write through the iterator.
unfoldable pub update : ℕ → Sequence → Sequences → Sequences
update key seq' [] = []
update key seq' ((k, seq) ∷ rest) =
    if k == key then (k, seq') ∷ rest else (k, seq) ∷ update key seq' rest

abbrev pub is_single_part : Sentence → Bool
is_single_part s = s.part_count == 1

abbrev is_last_part : Sentence → Bool
is_last_part s = s.part_index == s.part_count

abbrev pub is_vdo : Sentence → Bool
is_vdo s = text_eq s.sentence_type (codes "VDO")

unfoldable pub concat : List (List ℕ) → List ℕ
concat [] = []
concat (part ∷ parts) = part ++ concat parts

-- What `feed` leaves and returns.
abbrev pub Fed : Type 0
Fed = Sequences × Result (Option AssembledMessage)

-- The sequence that a first part opens.
abbrev pub open_sequence : Sentence → Sequence
open_sequence s = record {
  parts = replicate s.part_count [];
  part_count = s.part_count;
  received = 0;
  talker = s.talker;
  sentence_type = s.sentence_type;
  is_own_vessel = is_vdo s;
}

-- `seq.parts[part_index - 1u] = sentence.payload(); ++seq.received;`
unfoldable pub store_part : Sentence → Sequence → Sequence
store_part s seq = record {
  parts = set seq.parts (s.part_index - 1) s.payload;
  part_count = seq.part_count;
  received = (seq.received + 1) % 2 ^ 8;
  talker = seq.talker;
  sentence_type = seq.sentence_type;
  is_own_vessel = seq.is_own_vessel;
}

-- The message of a sequence that is complete.
unfoldable pub assemble : Sentence → Sequence → AssembledMessage
unfolding concat
assemble s seq = record {
  payload = concat seq.parts;
  fill_bits = s.fill_bits;
  is_own_vessel = seq.is_own_vessel;
  talker = seq.talker;
}

-- The end of `feed`, once the map has `seq` for the key.
unfoldable pub accept : ℕ → Sentence → Sequence → Sequences → Fed
unfolding store_part assemble update erase
accept seq_id s seq sequences =
    let stored = store_part s seq in
    if ltb stored.received stored.part_count
    then (update seq_id stored sequences, ok none)
    else (erase seq_id sequences, ok (some (assemble s stored)))

-- The branches of `feed` by whether the key is in the map.
unfoldable pub feed_part : ℕ → Sentence → Option Sequence → Sequences → Fed
unfolding accept
feed_part seq_id s none sequences =
    if not (s.part_index == 1)
    then (
      sequences,
      fail_with multipart_out_of_order
          (codes "first received part has index " ++ to_string s.part_index),
    )
    else accept seq_id s (open_sequence s) ((seq_id, open_sequence s) ∷ sequences)
feed_part seq_id s (some existing) sequences =
    let expected_next = (existing.received + 1) % 2 ^ 8 in
    if not (existing.part_count == s.part_count)
    then (
      sequences,
      fail_with multipart_count_invalid
          (codes "part count mismatch in seq_id " ++ to_string seq_id),
    )
    else if not (text_eq s.sentence_type existing.sentence_type)
    then (
      sequences,
      fail_with multipart_talker_conflict (
          codes "seq_id="
          ++ to_string seq_id
          ++ codes " opened as "
          ++ existing.sentence_type
          ++ codes " but part "
          ++ to_string s.part_index
          ++ codes " carries "
          ++ s.sentence_type),
    )
    else if not (s.part_index == expected_next)
    then (
      sequences,
      (if leb s.part_index existing.received
          then fail_with multipart_duplicate
              (codes "seq_id=" ++ to_string seq_id ++ codes " part=" ++ to_string s.part_index)
          else fail_with multipart_out_of_order (
              codes "expected part "
              ++ to_string expected_next
              ++ codes " got "
              ++ to_string s.part_index)),
    )
    else accept seq_id s existing sequences

-- The part of `feed` behind the checks of the count, by the sequence number.
unfoldable pub feed_multi : Sentence → Option ℕ → Sequences → Fed
unfolding feed_part find
feed_multi s none sequences = (sequences, fail multipart_seq_invalid)
feed_multi s (some seq_id) sequences = feed_part seq_id s (find seq_id sequences) sequences

unfoldable pub feed : Sentence → Sequences → Fed
unfolding feed_multi
feed s sequences =
    if is_single_part s
    then (
      sequences,
      ok (
          some (record {
            payload = s.payload;
            fill_bits = s.fill_bits;
            is_own_vessel = is_vdo s;
            talker = s.talker;
          })),
    )
    else if s.part_count == 0 || ltb k_max_sentence_parts s.part_count
    then (sequences, fail multipart_count_invalid)
    else feed_multi s s.seq_id sequences

unfoldable pub reset : Sequences → Sequences
reset sequences = []

unfoldable pub pending_count : Sequences → ℕ
pending_count sequences = length sequences
