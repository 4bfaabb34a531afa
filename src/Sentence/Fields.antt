-- ===== src/Sentence/Fields.antt =====
-- The fields of a sentence's body, and what `Sentence::parse` requires of them.
use pgais.Base.{
  ℕ, ◌≤◌, ◌≡◌, ◌⊎◌, inl, inr, refl, sym, arith, List, [], ◌∷◌, ◌++◌, false, Option, none, some, All,
  All-append, length, get_or, take, drop, Bool-cases, ◌==◌,
}
use mathlib.Core.Path.{subst}
use pgais.Error.{ok}
use pgais.Payload.{is_empty}
use pgais.Sentence.{
  Sentence, split_from, split_fields, parse_uint8, parse_number, parse_seq_id, parse_numbers,
  parse_fields,
}
use pgais.Sentence.Parts.{Avoids}
use pgais.Sentence.Numerals.{IsNumber, parse_uint8-IsNumber}

split_from-Avoids :
    (field str : List ℕ) (delim : ℕ)
    → Avoids delim field
    → All (Avoids delim) (split_from field str delim)
unfolding split_from
split_from-Avoids field [] delim h = (h, tt)
split_from-Avoids field (c ∷ str) delim h = elim (Bool-cases (c == delim)) [
  | inl e ↦ rw e (h, split_from-Avoids [] str delim tt)
  | inr e ↦ rw e (
      split_from-Avoids (field ++ c ∷ []) str delim
        (All-append (λ (d : ℕ). (d == delim) ≡ false) field (c ∷ []) h (e, tt)))
]

-- No field that `split_fields` returns has the delimiter in it.
pub split_fields-Avoids : (str : List ℕ) (delim : ℕ) → All (Avoids delim) (split_fields str delim)
unfolding split_fields
split_fields-Avoids str delim = split_from-Avoids [] str delim tt

-- The field of the sequence number: empty, or the numeral of the number.
pub data IsSeqIdField : List ℕ → Option ℕ → Type 0 where
  absent : IsSeqIdField [] none
  present : (text : List ℕ) (id : ℕ) → IsNumber text id → IsSeqIdField text (some id)

-- The fields that `parse` takes for a sentence. Fields behind the seventh are passed over.
pub record IsFields (fields : List (List ℕ)) (s : Sentence) : Type 0 where
  pub count : List ℕ
  pub index : List ℕ
  pub seq_id : List ℕ
  pub channel : List ℕ
  pub fill : List ℕ
  pub further : List (List ℕ)
  pub seven :
      fields
      ≡ (s.talker ++ s.sentence_type)
        ∷ count
        ∷ index
        ∷ seq_id
        ∷ channel
        ∷ s.payload
        ∷ fill
        ∷ further
  pub counted : IsNumber count s.part_count
  pub indexed : IsNumber index s.part_index
  pub numbered : IsSeqIdField seq_id s.seq_id
  pub heard : s.channel ≡ get_or channel 0 b'A'
  pub filled : IsNumber fill s.fill_bits

-- What `parse_numbers` takes from its fields.
parse_numbers-taken :
    (talker type : List ℕ) (fields : List (List ℕ)) (s : Sentence)
    → parse_numbers talker type fields ≡ ok s
    → (s.talker ≡ talker)
      × (s.sentence_type ≡ type)
      × (parse_uint8 (get_or fields 1 []) ≡ some s.part_count)
      × (parse_uint8 (get_or fields 2 []) ≡ some s.part_index)
      × (parse_seq_id (get_or fields 3 []) s.part_count ≡ ok s.seq_id)
      × (s.channel ≡ get_or (get_or fields 4 []) 0 b'A')
      × (s.payload ≡ get_or fields 5 [])
      × (parse_uint8 (get_or fields 6 []) ≡ some s.fill_bits)
unfolding parse_numbers parse_number
parse_numbers-taken talker type fields s h = (
  ground arith,
  ground arith,
  ground arith,
  ground arith,
  ground arith,
  ground arith,
  ground arith,
  ground arith,
)

parse_seq_id-IsSeqIdField :
    (text : List ℕ) (part_count : ℕ) (o : Option ℕ)
    → parse_seq_id text part_count ≡ ok o
    → IsSeqIdField text o
unfolding parse_seq_id parse_number is_empty
parse_seq_id-IsSeqIdField [] part_count o e = subst (IsSeqIdField []) (ground arith) absent
parse_seq_id-IsSeqIdField (c ∷ cs) part_count none e = absurd (ground arith)
parse_seq_id-IsSeqIdField (c ∷ cs) part_count (some id) e =
    present (c ∷ cs) id ((parse_uint8-IsNumber (c ∷ cs) id).0 (ground arith))

seven_fields :
    (fields : List (List ℕ))
    → 7 ≤ length fields
    → (further : List (List ℕ)) × (fields
        ≡ get_or fields 0 []
          ∷ get_or fields 1 []
          ∷ get_or fields 2 []
          ∷ get_or fields 3 []
          ∷ get_or fields 4 []
          ∷ get_or fields 5 []
          ∷ get_or fields 6 []
          ∷ further)
seven_fields (a ∷ b ∷ c ∷ d ∷ e ∷ f ∷ g ∷ further) h = (further, refl)
seven_fields [] h = absurd (omega arith)
seven_fields (a ∷ []) h = absurd (omega arith)
seven_fields (a ∷ b ∷ []) h = absurd (omega arith)
seven_fields (a ∷ b ∷ c ∷ []) h = absurd (omega arith)
seven_fields (a ∷ b ∷ c ∷ d ∷ []) h = absurd (omega arith)
seven_fields (a ∷ b ∷ c ∷ d ∷ e ∷ []) h = absurd (omega arith)
seven_fields (a ∷ b ∷ c ∷ d ∷ e ∷ f ∷ []) h = absurd (omega arith)

five_of : (text : List ℕ) → length text ≡ 5 → (a b c d e : ℕ) × (text ≡ a ∷ b ∷ c ∷ d ∷ e ∷ [])
five_of (a ∷ b ∷ c ∷ d ∷ e ∷ []) h = (a, b, c, d, e, refl)
five_of [] h = absurd (omega arith)
five_of (a ∷ []) h = absurd (omega arith)
five_of (a ∷ b ∷ []) h = absurd (omega arith)
five_of (a ∷ b ∷ c ∷ []) h = absurd (omega arith)
five_of (a ∷ b ∷ c ∷ d ∷ []) h = absurd (omega arith)
five_of (a ∷ b ∷ c ∷ d ∷ e ∷ f ∷ text) h = absurd (omega arith)

pub five_characters : (text : List ℕ) → length text ≡ 5 → text ≡ take 2 text ++ take 3 (drop 2 text)
five_characters text h = let (a, b, c, d, e, same) = five_of text h in rw same refl

pub five_lengths :
    (text : List ℕ)
    → length text ≡ 5
    → (length (take 2 text) ≡ 2) × (length (take 3 (drop 2 text)) ≡ 3)
five_lengths text h = let (a, b, c, d, e, same) = five_of text h in rw same (refl, refl)

pub parse_fields-IsFields :
    (fields : List (List ℕ)) (s : Sentence) → parse_fields fields ≡ ok s → IsFields fields s
unfolding parse_fields
parse_fields-IsFields fields s e =
    let head = get_or fields 0 [] in
    let enough : 7 ≤ length fields = ground arith in
    let five : length head ≡ 5 = ground arith in
    let numbers : parse_numbers (take 2 head) (take 3 (drop 2 head)) fields ≡ ok s = ground arith in
    let (talker, type, count, index, seq_id, channel, payload, fill) =
      parse_numbers-taken (take 2 head) (take 3 (drop 2 head)) fields s numbers in
    let (further, seven) = seven_fields fields enough in
    record {
      count = get_or fields 1 [];
      index = get_or fields 2 [];
      seq_id = get_or fields 3 [];
      channel = get_or fields 4 [];
      fill = get_or fields 6 [];
      further = further;
      seven = rw (talker, type, payload, sym (five_characters head five)) seven;
      counted = (parse_uint8-IsNumber _ s.part_count).0 count;
      indexed = (parse_uint8-IsNumber _ s.part_index).0 index;
      numbered = parse_seq_id-IsSeqIdField (get_or fields 3 []) s.part_count s.seq_id seq_id;
      heard = channel;
      filled = (parse_uint8-IsNumber _ s.fill_bits).0 fill;
    }

pub IsSeqIdField-parse_seq_id :
    (text : List ℕ) (part_count : ℕ) {o : Option ℕ}
    → ((o ≡ none) × (part_count ≡ 1)) ⊎ ((id : ℕ) × (o ≡ some id) × (id ≤ 9))
    → IsSeqIdField text o
    → parse_seq_id text part_count ≡ ok o
unfolding parse_seq_id parse_number is_empty
IsSeqIdField-parse_seq_id _ part_count h absent = ground arith
IsSeqIdField-parse_seq_id _ part_count h (present [] id n) = absurd (omega (arith, n.some_digit))
IsSeqIdField-parse_seq_id _ part_count h (present (c ∷ cs) id n) =
    let read = (parse_uint8-IsNumber (c ∷ cs) id).1 n in ground arith
