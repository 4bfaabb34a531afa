-- ===== src/Assembler/Spec.antt =====
-- What `SentenceAssembler` promises, without its map, its counters of eight bits and its places for the
-- parts: the payloads that came in so far, by the sequence number.
use pgais.Base.{
  ℕ, suc, List, [], ◌∷◌, ◌++◌, Bool, not, Option, none, some, ltb, leb, ◌==◌, if◌then◌else◌,
  text_eq, length,
}
use pgais.Error.{
  ErrorCode, Result, ok, err, multipart_count_invalid, multipart_seq_invalid,
  multipart_out_of_order, multipart_duplicate, multipart_talker_conflict,
}
use pgais.Sentence.{Sentence}
use pgais.Assembler.{AssembledMessage, concat, is_single_part, is_vdo}

-- A message of which the first parts came in.
pub record Pending : Type 0 where
  pub payloads : List (List ℕ)
  pub part_count : ℕ
  pub talker : List ℕ
  pub sentence_type : List ℕ
  pub is_own_vessel : Bool

abbrev pub Table : Type 0
Table = ℕ → Option Pending

unfoldable pub put : ℕ → Option Pending → Table → Table
put id o table key = if key == id then o else table key

-- How the assembler answers a sentence; an error is known by its code.
pub data Outcome : Type 0 where
  pending : Outcome
  delivered : AssembledMessage → Outcome
  refused : ErrorCode → Outcome

unfoldable pub outcome : Result (Option AssembledMessage) → Outcome
outcome (ok none) = pending
outcome (ok (some message)) = delivered message
outcome (err e) = refused e.code

abbrev pub opened : Sentence → Pending
opened s = record {
  payloads = s.payload ∷ [];
  part_count = s.part_count;
  talker = s.talker;
  sentence_type = s.sentence_type;
  is_own_vessel = is_vdo s;
}

abbrev pub extended : Sentence → Pending → Pending
extended s p = record {
  payloads = p.payloads ++ s.payload ∷ [];
  part_count = p.part_count;
  talker = p.talker;
  sentence_type = p.sentence_type;
  is_own_vessel = p.is_own_vessel;
}

abbrev pub completed : Sentence → Pending → AssembledMessage
completed s p = record {
  payload = concat (p.payloads ++ s.payload ∷ []);
  fill_bits = s.fill_bits;
  is_own_vessel = p.is_own_vessel;
  talker = p.talker;
}

-- A part of several: the first opens a message, the next one extends it, and the last completes it.
unfoldable pub accept_part : ℕ → Sentence → Option Pending → Table → Table × Outcome
accept_part id s none table =
    if s.part_index == 1
    then (put id (some (opened s)) table, pending)
    else (table, refused multipart_out_of_order)
accept_part id s (some p) table =
    if not (p.part_count == s.part_count)
    then (table, refused multipart_count_invalid)
    else if not (text_eq s.sentence_type p.sentence_type)
    then (table, refused multipart_talker_conflict)
    else if leb s.part_index (length p.payloads)
    then (table, refused multipart_duplicate)
    else if ltb (suc (length p.payloads)) s.part_index
    then (table, refused multipart_out_of_order)
    else if s.part_index == p.part_count
    then (put id none table, delivered (completed s p))
    else (put id (some (extended s p)) table, pending)

unfoldable pub accept_numbered : Sentence → Option ℕ → Table → Table × Outcome
unfolding accept_part
accept_numbered s none table = (table, refused multipart_seq_invalid)
accept_numbered s (some id) table = accept_part id s (table id) table

unfoldable pub accept_sentence : Sentence → Table → Table × Outcome
unfolding accept_numbered
accept_sentence s table =
    if is_single_part s
    then (
      table,
      delivered (record {
        payload = s.payload;
        fill_bits = s.fill_bits;
        is_own_vessel = is_vdo s;
        talker = s.talker;
      }),
    )
    else accept_numbered s s.seq_id table

-- The answers to sentences, one after the other.
unfoldable pub answers : List Sentence → Table → List Outcome
answers [] table = []
answers (s ∷ ss) table =
    let (table', answer) = accept_sentence s table in answer ∷ answers ss table'
