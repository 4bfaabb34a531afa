-- ===== src/Assembler/Steps.antt =====
-- What `feed` does with one part of a sequence: the first, a next one, the last.
use pgais.Base.{
  ℕ, zero, suc, ◌-◌, ◌<◌, ◌≤◌, ◌≡◌, refl, ap, ◌∙◌, arith, List, [], ◌∷◌, ◌++◌, append-nil,
  append_assoc, true, ==_self, none, some, length, length-append, lt→ltb, le→ltb, set, replicate,
  codes, text_eq, text_eq_refl,
}
use pgais.Error.{ok}
use pgais.Sentence.{Sentence}
use pgais.Assembler.{
  Sequence, Sequences, find, erase, update, concat, open_sequence, store_part, assemble, accept,
  feed_part, feed_multi, feed,
}

-- Part number `k` of a message of `n` parts under the sequence number `id`.
pub record IsPart (id n : ℕ) (type : List ℕ) (k : ℕ) (s : Sentence) : Type 0 where
  pub numbered : s.seq_id ≡ some id
  pub counted : s.part_count ≡ n
  pub indexed : s.part_index ≡ k
  pub typed : s.sentence_type ≡ type

-- The sequence `id` has the payloads `ps` of its first parts, and places for the others.
pub record Has (id n : ℕ) (type talker : List ℕ) (ps : List (List ℕ)) (st : Sequences)
    : Type 0 where
  pub seq : Sequence
  pub found : find id st ≡ some seq
  pub some_missing : length ps < n
  pub parts : seq.parts ≡ ps ++ replicate (n - length ps) []
  pub part_count : seq.part_count ≡ n
  pub received : seq.received ≡ length ps
  pub typed : seq.sentence_type ≡ type
  pub talker_kept : seq.talker ≡ talker
  pub vessel_kept : seq.is_own_vessel ≡ text_eq type (codes "VDO")

set-append :
    (ps : List (List ℕ)) (m : ℕ) (p : List ℕ)
    → set (ps ++ replicate (suc m) []) (length ps) p ≡ (ps ++ p ∷ []) ++ replicate m []
set-append [] m p = refl
set-append (q ∷ ps) m p = ap (◌∷◌ q) (set-append ps m p)

pub find-update_self :
    (id : ℕ) (seq seq' : Sequence) (st : Sequences)
    → find id st ≡ some seq
    → find id (update id seq' st) ≡ some seq'
unfolding find update
find-update_self id seq seq' [] h = cc
find-update_self id seq seq' ((k, q) ∷ st) h =
    let rest = find-update_self id seq seq' st in ground arith

-- The sequence once the next part is stored.
stored_parts :
    (id n : ℕ) (type talker : List ℕ) (ps : List (List ℕ)) (st : Sequences) (s : Sentence)
    (h : Has id n type talker ps st)
    → IsPart id n type (suc (length ps)) s
    → (store_part s h.seq).parts ≡ (ps ++ s.payload ∷ []) ++ replicate (n - suc (length ps)) []
unfolding store_part
stored_parts id n type talker ps st s h p =
    let index : s.part_index - 1 ≡ length ps = omega (arith, p.indexed) in
    let room : n - length ps ≡ suc (n - suc (length ps)) = omega (arith, h.some_missing) in
    rw (h.parts, index, room) (set-append ps (n - suc (length ps)) s.payload)

-- What `feed` does with the next part: it comes to the end of the function.
feed-next :
    (id n : ℕ) (type talker : List ℕ) (ps : List (List ℕ)) (st : Sequences) (s : Sentence)
    (h : Has id n type talker ps st)
    → 2 ≤ n
    → n ≤ 5
    → IsPart id n type (suc (length ps)) s
    → feed s st ≡ accept id s h.seq st
unfolding feed feed_multi feed_part
feed-next id n type talker ps st s h low high p =
    let same : text_eq s.sentence_type h.seq.sentence_type ≡ true =
      rw (p.typed, h.typed) (text_eq_refl type) in
    ground arith

pub accept-more :
    (id : ℕ) (s : Sentence) (seq : Sequence) (st : Sequences)
    → (store_part s seq).received < (store_part s seq).part_count
    → accept id s seq st ≡ (update id (store_part s seq) st, ok none)
unfolding accept
accept-more id s seq st h = rw (lt→ltb _ _ h) refl

pub accept-last :
    (id : ℕ) (s : Sentence) (seq : Sequence) (st : Sequences)
    → (store_part s seq).part_count ≤ (store_part s seq).received
    → accept id s seq st ≡ (erase id st, ok (some (assemble s (store_part s seq))))
unfolding accept
accept-last id s seq st h = rw (le→ltb _ _ h) refl

-- A part that is not the last is kept.
pub feed-Has :
    (id n : ℕ) (type talker : List ℕ) (ps : List (List ℕ)) (st : Sequences) (s : Sentence)
    → Has id n type talker ps st
    → 2 ≤ n
    → n ≤ 5
    → suc (length ps) < n
    → IsPart id n type (suc (length ps)) s
    → Has id n type talker (ps ++ s.payload ∷ []) (feed s st).0
unfolding store_part
feed-Has id n type talker ps st s h low high more p =
    let one_more : length (ps ++ s.payload ∷ []) ≡ suc (length ps) =
      omega (arith, length-append ps (s.payload ∷ [])) in
    let fed =
      feed-next id n type talker ps st s h low high p
      ∙ accept-more id s h.seq st (omega (arith, h.received, h.part_count)) in
    rw fed (record {
      seq = store_part s h.seq;
      found = find-update_self id h.seq (store_part s h.seq) st h.found;
      some_missing = omega arith;
      parts = rw one_more (stored_parts id n type talker ps st s h p);
      part_count = h.part_count;
      received = omega (arith, h.received, h.some_missing);
      typed = h.typed;
      talker_kept = h.talker_kept;
      vessel_kept = h.vessel_kept;
    })

concat-append : (ps : List (List ℕ)) (p : List ℕ) → concat (ps ++ p ∷ []) ≡ concat ps ++ p
unfolding concat
concat-append [] p = append-nil p
concat-append (q ∷ ps) p = rw (concat-append ps p, append_assoc q) refl

pub set-replicate :
    (n : ℕ) (p : List ℕ) → 1 ≤ n → set (replicate n []) 0 p ≡ p ∷ replicate (n - 1) []
set-replicate zero p h = absurd (omega arith)
set-replicate (suc n) p h = let less : suc n - 1 ≡ n = omega arith in rw less refl

-- The last part completes the message.
pub feed-last :
    (id n : ℕ) (type talker : List ℕ) (ps : List (List ℕ)) (st : Sequences) (s : Sentence)
    → Has id n type talker ps st
    → 2 ≤ n
    → n ≤ 5
    → suc (length ps) ≡ n
    → IsPart id n type n s
    → (feed s st).1
      ≡ ok (
          some (record {
            payload = concat ps ++ s.payload;
            fill_bits = s.fill_bits;
            is_own_vessel = text_eq type (codes "VDO");
            talker = talker;
          }))
unfolding assemble store_part
feed-last id n type talker ps st s h low high total q =
    let fed =
      feed-next id n type talker ps st s h low high (rw total q)
      ∙ accept-last id s h.seq st (omega (arith, h.received, h.part_count, h.some_missing)) in
    let full : n - n ≡ 0 = omega arith in
    let parts = stored_parts id n type talker ps st s h (rw total q) in
    let parts' : (store_part s h.seq).parts ≡ ps ++ s.payload ∷ [] =
      rw (total, full, append-nil) at parts in
    rw (fed, parts', concat-append ps s.payload, h.talker_kept, h.vessel_kept) refl

-- The first part of a sequence that is not in the map.
pub feed-Has_first :
    (id n : ℕ) (type : List ℕ) (st : Sequences) (s : Sentence)
    → find id st ≡ none
    → 2 ≤ n
    → n ≤ 5
    → IsPart id n type 1 s
    → Has id n type s.talker (s.payload ∷ []) (feed s st).0
unfolding feed feed_multi feed_part find store_part
feed-Has_first id n type st s absent low high p =
    let opened : feed s st ≡ accept id s (open_sequence s) ((id, open_sequence s) ∷ st) =
      ground (arith, p.numbered, p.counted, p.indexed) in
    let fed =
      opened
      ∙ accept-more id s (open_sequence s) ((id, open_sequence s) ∷ st)
          (omega (arith, p.counted)) in
    let here : find id ((id, open_sequence s) ∷ st) ≡ some (open_sequence s) =
      rw (find, ==_self id) refl in
    rw fed (record {
      seq = store_part s (open_sequence s);
      found =
          find-update_self id (open_sequence s) (store_part s (open_sequence s))
            ((id, open_sequence s) ∷ st) here;
      some_missing = omega arith;
      parts = rw (p.counted, p.indexed) (set-replicate n s.payload (omega arith));
      part_count = p.counted;
      received = refl;
      typed = p.typed;
      talker_kept = refl;
      vessel_kept = rw p.typed refl;
    })
