-- ===== src/Assembler/Reachable.antt =====
-- The states that an assembler can come to: `SentenceAssembler()`, then any calls of `feed` with what
-- `parse` returned, and of `reset`.
use pgais.Base.{ℕ, ◌≤◌, ◌≡◌, List, []}
use pgais.Error.{ok}
use pgais.Sentence.{Sentence, parse}
use pgais.Sentence.Parsed.{parse-IsSentence}
use pgais.Assembler.{Sequences, feed, reset, pending_count}
use pgais.Assembler.Invariant.{IsAssembler}
use pgais.Assembler.Preservation.{feed-IsAssembler}
use pgais.Assembler.Pending.{pending_count-IsAssembler}

pub data Reachable : Sequences → Type 0 where
  made : Reachable []
  fed :
      {st : Sequences} (raw : List ℕ) (s : Sentence)
      → Reachable st
      → parse raw ≡ ok s
      → Reachable (feed s st).0
  cleared : {st : Sequences} → Reachable st → Reachable (reset st)

Reachable-IsAssembler : {st : Sequences} → Reachable st → IsAssembler st
unfolding reset IsAssembler
Reachable-IsAssembler made = tt
Reachable-IsAssembler (fed {st} raw s r e) =
    (feed-IsAssembler s st (parse-IsSentence raw s e) (Reachable-IsAssembler r)).0
Reachable-IsAssembler (cleared r) = tt

-- In every state that an assembler can come to, by sentences that `parse` returned and by resets, each
-- sequence of the map waits: it has at most 5 places, counts at least one part and fewer than its
-- places as received, and has a number of at most 9 that no other sequence has. So at most ten messages
-- are pending.
pub Reachable-Waits : {st : Sequences} → Reachable st → IsAssembler st × (pending_count st ≤ 10)
Reachable-Waits {st} r = let h = Reachable-IsAssembler r in (h, pending_count-IsAssembler st h)
