-- ===== src/Sentence/FieldErrors.antt =====
-- The fields of a sentence's body that `Sentence::parse` refuses.
use pgais.Base.{
  ℕ, if◌then◌else◌, append-nil, ◌≤◌, ◌≡◌, ◌≢◌, ◌⊎◌, inl, inr, refl, ◌∙◌, arith, List, [], ◌++◌,
  true, false, not, ◌&&◌, ◌==◌, length, get_or, take, drop, take-append, drop-append, length-append,
  ltb, le→ltb, Bool-cases, codes, text_eq, text_eq→eq, text_eq_refl,
}
use pgais.Error.{
  Error, ok, err, to_string, sentence_field_missing, sentence_field_invalid,
  sentence_talker_invalid, sentence_type_invalid,
}
use pgais.Sentence.{Sentence, is_valid_talker, parse_numbers, parse_fields}
use pgais.Sentence.Valid.{type_of}
use pgais.Sentence.Fields.{five_characters, five_lengths}
use pgais.Sentence.NumberErrors.{NumbersRefused, parse_numbers-refused}
use pgais.Sentence.NumberCases.{parse_numbers-cases}

-- At least seven fields, the first of which is a talker and a type.
pub record IsHead (fields : List (List ℕ)) (talker type : List ℕ) : Type 0 where
  pub enough : 7 ≤ length fields
  pub head : get_or fields 0 [] ≡ talker ++ type
  pub two : length talker ≡ 2
  pub three : length type ≡ 3

abbrev IsKnown : List ℕ → Type 0
IsKnown type = (type ≡ codes "VDM") ⊎ (type ≡ codes "VDO")

-- The errors of the fields, each with the first condition that fails.
pub data FieldsRefused (fields : List (List ℕ)) : Error → Type 0 where
  few_fields :
      length fields ≤ 6
      → FieldsRefused fields (record {
        code = sentence_field_missing;
        detail = codes "expected 7 comma-separated fields, got " ++ to_string (length fields);
      })
  bad_head :
      7 ≤ length fields
      → length (get_or fields 0 []) ≢ 5
      → FieldsRefused fields (record { code = sentence_field_invalid; detail = get_or fields 0 [] })
  bad_talker :
      (talker type : List ℕ)
      → IsHead fields talker type
      → is_valid_talker talker ≡ false
      → FieldsRefused fields (record { code = sentence_talker_invalid; detail = talker })
  bad_type :
      (talker type : List ℕ)
      → IsHead fields talker type
      → is_valid_talker talker ≡ true
      → ¬ IsKnown type
      → FieldsRefused fields (record { code = sentence_type_invalid; detail = type })
  bad_number :
      (talker type : List ℕ) (e : Error)
      → IsHead fields talker type
      → is_valid_talker talker ≡ true
      → IsKnown type
      → NumbersRefused fields e
      → FieldsRefused fields e

-- What `parse_fields` makes of a head: the tests on the talker and the type are left.
parse_fields-IsHead :
    (fields : List (List ℕ)) (talker type : List ℕ)
    → IsHead fields talker type
    → parse_fields fields ≡ (
        if not (is_valid_talker talker)
        then err (record { code = sentence_talker_invalid; detail = talker })
        else if not (text_eq type (codes "VDM")) && not (text_eq type (codes "VDO"))
        then err (record { code = sentence_type_invalid; detail = type })
        else parse_numbers talker type fields)
unfolding parse_fields
parse_fields-IsHead fields talker type h =
    let five : length (talker ++ type) ≡ 5 =
      omega (arith, length-append talker type, h.two, h.three) in
    let enough : ltb (length fields) 7 ≡ false = le→ltb (length fields) 7 h.enough in
    let front : take 2 (talker ++ type) ≡ talker = rw h.two at (take-append talker type) in
    let back : drop 2 (talker ++ type) ≡ type = rw h.two at (drop-append talker type) in
    let all : take 3 type ≡ type = rw (append-nil type, h.three) at (take-append type []) in
    rw (enough, h.head, five, front, back, all) refl

unknown :
    (type : List ℕ)
    → ¬ IsKnown type
    → (not (text_eq type (codes "VDM")) && not (text_eq type (codes "VDO"))) ≡ true
unknown type h =
    let vdm = text_eq→eq type (codes "VDM") in
    let vdo = text_eq→eq type (codes "VDO") in ground arith

pub parse_fields-refused :
    (fields : List (List ℕ)) (e : Error) → FieldsRefused fields e → parse_fields fields ≡ err e
unfolding parse_fields
parse_fields-refused fields _ (few_fields h) =
    let few : ltb (length fields) 7 ≡ true = ground arith in rw few refl
parse_fields-refused fields _ (bad_head enough ne) =
    let all : ltb (length fields) 7 ≡ false = le→ltb (length fields) 7 enough in
    let wrong : (length (get_or fields 0 []) == 5) ≡ false = ground arith in rw (all, wrong) refl
parse_fields-refused fields _ (bad_talker talker type h invalid) =
    parse_fields-IsHead fields talker type h ∙ rw invalid refl
parse_fields-refused fields _ (bad_type talker type h valid ne) =
    parse_fields-IsHead fields talker type h ∙ rw (valid, unknown type ne) refl
parse_fields-refused fields e (bad_number talker type _ h valid known refused) =
    let (_, _, named) = type_of type known in
    parse_fields-IsHead fields talker type h
    ∙ rw (valid, named) (parse_numbers-refused talker type fields e refused)

named_apart : (type name : List ℕ) → text_eq type name ≡ false → type ≢ name
named_apart type name e same =
    let refused : text_eq name name ≡ false = rw same at e in let itself = text_eq_refl name in cc

IsKnown-cases : (type : List ℕ) → IsKnown type ⊎ ¬ IsKnown type
IsKnown-cases type = elim (Bool-cases (text_eq type (codes "VDM"))) [
  | inl e ↦ inl (inl (text_eq→eq type (codes "VDM") e))
  | inr e ↦ elim (Bool-cases (text_eq type (codes "VDO"))) [
    | inl f ↦ inl (inr (text_eq→eq type (codes "VDO") f))
    | inr f ↦ inr (λ known. elim known [
      | inl same ↦ named_apart type (codes "VDM") e same
      | inr same ↦ named_apart type (codes "VDO") f same
    ])
  ]
]

head_cases :
    (fields : List (List ℕ))
    → 7 ≤ length fields
    → length (get_or fields 0 []) ≡ 5
    → ((s : Sentence) × (parse_fields fields ≡ ok s)) ⊎ ((e : Error) × FieldsRefused fields e)
head_cases fields enough five =
    let head = get_or fields 0 [] in
    let talker = take 2 head in
    let type = take 3 (drop 2 head) in
    let (two, three) = five_lengths head five in
    let h : IsHead fields talker type = record {
      enough = enough;
      head = five_characters head five;
      two = two;
      three = three;
    } in
    elim (Bool-cases (is_valid_talker talker)) [
      | inr invalid ↦ inr (_, bad_talker talker type h invalid)
      | inl valid ↦ elim (IsKnown-cases type) [
        | inr ne ↦ inr (_, bad_type talker type h valid ne)
        | inl known ↦ elim (parse_numbers-cases talker type fields) [
          | inr (e, refused) ↦ inr (e, bad_number talker type e h valid known refused)
          | inl (s, p) ↦
              let (_, _, named) = type_of type known in
              inl (s, parse_fields-IsHead fields talker type h ∙ rw (valid, named) p)
        ]
      ]
    ]

-- The fields are either those of a sentence or refused.
pub parse_fields-cases :
    (fields : List (List ℕ))
    → ((s : Sentence) × (parse_fields fields ≡ ok s)) ⊎ ((e : Error) × FieldsRefused fields e)
parse_fields-cases fields = elim (Bool-cases (ltb (length fields) 7)) [
  | inl few ↦ inr (_, few_fields (ground arith))
  | inr many ↦
      let enough : 7 ≤ length fields = ground arith in
      elim (Bool-cases (length (get_or fields 0 []) == 5)) [
        | inr wrong ↦ inr (_, bad_head enough (ground arith))
        | inl five ↦ head_cases fields enough (ground arith)
      ]
]
