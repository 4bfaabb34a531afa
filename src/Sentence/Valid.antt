-- ===== src/Sentence/Valid.antt =====
-- What `Sentence::parse` requires of a sentence, and its talker and type.
use pgais.Base.{
  ℕ, suc, ltb, le→ltb, ◌≤◌, ◌≡◌, ◌⊎◌, inl, inr, refl, ap, arith, List, [], ◌∷◌, ◌++◌, true, false,
  not, ◌&&◌, none, some, All, length, length-append, get_or, take, drop, take-append, drop-append,
  codes, text_eq,
}
use pgais.Payload.{is_empty}
use pgais.Sentence.{
  Sentence, matches_talker, k_valid_talkers, is_valid_talker, parse_numbers, parse_fields,
}

-- What every sentence that `parse` returns keeps to.
pub record IsSentence (s : Sentence) : Type 0 where
  pub talker_valid : is_valid_talker s.talker ≡ true
  pub type_valid : (s.sentence_type ≡ codes "VDM") ⊎ (s.sentence_type ≡ codes "VDO")
  pub count_low : 1 ≤ s.part_count
  pub count_high : s.part_count ≤ 5
  pub index_low : 1 ≤ s.part_index
  pub index_high : s.part_index ≤ s.part_count
  pub seq_id_fits :
      ((s.seq_id ≡ none) × (s.part_count ≡ 1)) ⊎ ((id : ℕ) × (s.seq_id ≡ some id) × (id ≤ 9))
  pub has_payload : (2 ≤ s.part_count) ⊎ (is_empty s.payload ≡ false)
  pub fill_bits_high : s.fill_bits ≤ 5

abbrev pub IsLetter : ℕ → Type 0
IsLetter c = (b'A' ≤ c) × (c ≤ b'Z')

matches_talker-IsLetter :
    (a b : ℕ) (ts : List (List ℕ))
    → All (λ t. IsLetter (get_or t 0 0) × IsLetter (get_or t 1 0)) ts
    → matches_talker a b ts ≡ true
    → IsLetter a × IsLetter b
unfolding matches_talker
matches_talker-IsLetter a b [] h k = cc
matches_talker-IsLetter a b (t ∷ ts) h k =
    let rest = matches_talker-IsLetter a b ts h.1 in
    let (lo, hi) = h.0 in let (lo₀, lo₁) = lo in let (hi₀, hi₁) = hi in ground arith

-- The two letters of a talker.
pub talker_of :
    (talker : List ℕ)
    → is_valid_talker talker ≡ true
    → (a b : ℕ) × (talker ≡ a ∷ b ∷ []) × IsLetter a × IsLetter b
unfolding is_valid_talker
talker_of [] h = cc
talker_of (a ∷ []) h = cc
talker_of (a ∷ b ∷ []) h =
    let (p, q) = matches_talker-IsLetter a b k_valid_talkers (ground arith) h in (a, b, refl, p, q)
talker_of (a ∷ b ∷ c ∷ talker) h = ground arith

pub type_of :
    (type : List ℕ)
    → (type ≡ codes "VDM") ⊎ (type ≡ codes "VDO")
    → (length type ≡ 3)
      × (take 3 type ≡ type)
      × ((not (text_eq type (codes "VDM")) && not (text_eq type (codes "VDO"))) ≡ false)
unfolding text_eq
type_of type (inl e) = rw e (refl, refl, refl)
type_of type (inr e) = rw e (refl, refl, refl)

pub length-head : (s : Sentence) → IsSentence s → length (s.talker ++ s.sentence_type) ≡ 5
length-head s h =
    let (a, b, e, _, _) = talker_of s.talker h.talker_valid in
    let two : length s.talker ≡ 2 = ap length e in
    let (three, _, _) = type_of s.sentence_type h.type_valid in
    omega (arith, length-append s.talker s.sentence_type)

-- Fields of which the first is a sentence's talker and type.
pub parse_fields-head :
    (s : Sentence) (fs : List (List ℕ))
    → IsSentence s
    → 6 ≤ length fs
    → parse_fields ((s.talker ++ s.sentence_type) ∷ fs)
      ≡ parse_numbers s.talker s.sentence_type ((s.talker ++ s.sentence_type) ∷ fs)
unfolding parse_fields
parse_fields-head s fs h long =
    let (a, b, e, _, _) = talker_of s.talker h.talker_valid in
    let two : length s.talker ≡ 2 = ap length e in
    let front : take 2 (s.talker ++ s.sentence_type) ≡ s.talker =
      rw two at (take-append s.talker s.sentence_type) in
    let back : drop 2 (s.talker ++ s.sentence_type) ≡ s.sentence_type =
      rw two at (drop-append s.talker s.sentence_type) in
    let (_, all, named) = type_of s.sentence_type h.type_valid in
    let five = length-head s h in
    let enough : ltb (suc (length fs)) 7 ≡ false = le→ltb (suc (length fs)) 7 (omega arith) in
    let valid = h.talker_valid in rw (enough, five, front, back, all, valid, named) refl
