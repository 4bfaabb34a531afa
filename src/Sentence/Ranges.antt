-- ===== src/Sentence/Ranges.antt =====
-- The numerals of numbers in a range, against the tests with which `Sentence::parse` reads them.
use pgais.Base.{
  ℕ, ◌≤◌, ◌≡◌, ◌⊎◌, ◌↔◌, inl, inr, arith, List, Bool, false, ◌||◌, ◌==◌, ltb, Bool-cases,
  Option-cases,
}
use pgais.Error.{Error, ok, err}
use pgais.Sentence.{parse_uint8, parse_number}
use pgais.Sentence.Numerals.{IsNumber, parse_uint8-IsNumber}
use pgais.Sentence.Grammar.{parse_number-IsNumber}

-- The numeral of a number in a range.
pub record IsIn (text : List ℕ) (least most n : ℕ) : Type 0 where
  pub numeral : IsNumber text n
  pub low : least ≤ n
  pub high : n ≤ most

abbrev pub IsOutOf : List ℕ → ℕ → ℕ → Type 0
IsOutOf text least most = ¬ ((n : ℕ) × IsIn text least most n)

-- A test that refuses the numbers outside a range.
abbrev pub Bounds : (ℕ → Bool) → ℕ → ℕ → Type 0
Bounds bad least most = (n : ℕ) → (bad n ≡ false) ↔ ((least ≤ n) × (n ≤ most))

module _ (text : List ℕ) (bad : ℕ → Bool) (least most : ℕ) (b : Bounds bad least most) where
  pub parse_number-in :
      (e : Error) (n : ℕ) → IsIn text least most n → parse_number text bad e ≡ ok n
  parse_number-in e n h = parse_number-IsNumber text n bad e h.numeral ((b n).1 (h.low, h.high))

  pub parse_number-cases :
      ((n : ℕ) × IsIn text least most n)
      ⊎ (IsOutOf text least most × ((e : Error) → parse_number text bad e ≡ err e))
  unfolding parse_number
  parse_number-cases = elim (Option-cases (parse_uint8 text)) [
    | inl p ↦ inr (
      λ h. let read = (parse_uint8-IsNumber text h.0).1 h.1.numeral in ground arith,
      λ e. ground arith,
    )
    | inr (n, p) ↦ elim (Bool-cases (bad n)) [
      | inl q ↦ inr (
        λ h.
            let read = (parse_uint8-IsNumber text h.0).1 h.1.numeral in
            let good = (b h.0).1 (h.1.low, h.1.high) in ground arith,
        λ e. ground arith,
      )
      | inr q ↦
          let (low, high) = (b n).0 q in
          inl (n, record { numeral = (parse_uint8-IsNumber text n).0 p; low = low; high = high })
    ]
  ]

  pub parse_number-out : (e : Error) → IsOutOf text least most → parse_number text bad e ≡ err e
  parse_number-out e h = elim parse_number-cases [
    | inl found ↦ absurd (h found)
    | inr (_, refused) ↦ refused e
  ]

pub count-Bounds : Bounds (λ n. n == 0 || ltb 5 n) 1 5
count-Bounds n = (λ e. ground arith, λ h. ground (arith, h.0, h.1))

pub index-Bounds : (count : ℕ) → Bounds (λ n. n == 0 || ltb count n) 1 count
index-Bounds count n = (λ e. ground arith, λ h. ground (arith, h.0, h.1))

pub most-Bounds : (most : ℕ) → Bounds (λ n. ltb most n) 0 most
most-Bounds most n = (λ e. ground arith, λ h. ground (arith, h.1))
