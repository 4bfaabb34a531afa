-- ===== src/Base/Double.antt =====
-- All that the code does with a `double`: a conversion from `int32_t`, and a division by a constant.
use native.Mathlib.Nat.{le-div_iff_mul-le, div-lt_iff_lt-mul, div-mul-le_self, suc-mul}
use pgais.Base.{
  ap, leb→le, le→leb, ℕ, suc, ◌-◌, ◌*◌, ◌/◌, ◌^◌, ◌≤◌, ◌<◌, ◌≡◌, refl, arith, Bool, true, false,
  leb,
}
use pgais.Base.Int.{ℤ, pos, negsuc, Fits}

-- `at_most` is `<=`, by which the results are compared.
pub record Double {ℓ} (W : Type ℓ) : Type ℓ where
  pub of_int : ℤ → W
  pub quotient : W → W → W
  pub at_most : W → W → Bool

infix 4 ◌≼◌
abbrev pub ◌≼◌ {ℓ} : {W : Type ℓ} ⦃d : Double W⦄ → W → W → Type 0
◌≼◌ ⦃d⦄ x y = d.at_most x y ≡ true

-- `<=` on integers.
abbrev pub le_int : ℤ → ℤ → Bool
le_int (pos a) (pos b) = leb a b
le_int (pos a) (negsuc b) = false
le_int (negsuc a) (pos b) = true
le_int (negsuc a) (negsuc b) = leb b a

abbrev pub times : ℤ → ℕ → ℤ
times (pos k) n = pos (k * n)
times (negsuc k) n = negsuc (suc k * n - 1)

-- What IEEE 754 says of `double`: it holds every `int32_t`, in order; a division by a positive number
-- keeps the order; and a quotient that is an `int32_t` is exact.
pub record IsDouble {ℓ} (W : Type ℓ) ⦃d : Double W⦄ : Type ℓ where
  pub of_int_mono : (a b : ℤ) → Fits 32 a → Fits 32 b → le_int a b ≡ true → d.of_int a ≼ d.of_int b
  pub quotient_mono :
      (x y : W) (n : ℕ)
      → 1 ≤ n
      → n < 2 ^ 31
      → x ≼ y
      → d.quotient x (d.of_int (pos n)) ≼ d.quotient y (d.of_int (pos n))
  pub quotient_exact :
      (k : ℤ) (n : ℕ)
      → 1 ≤ n
      → n < 2 ^ 31
      → Fits 32 (times k n)
      → d.quotient (d.of_int (times k n)) (d.of_int (pos n)) ≡ d.of_int k

-- The laws can be met: whole numbers, rounded down.
abbrev pub floor : ℤ → ℤ → ℤ
floor (pos a) (pos n) = pos (a / n)
floor (negsuc a) (pos n) = negsuc (a / n)
floor a (negsuc n) = pos 0

instance abbrev pub on_integers : Double ℤ
on_integers = record { of_int = λ a. a; quotient = floor; at_most = le_int }

div_between : (a q n : ℕ) → 1 ≤ n → q * n ≤ a → a < suc q * n → a / n ≡ q
div_between a q n h low high =
    let least : q ≤ a / n = (le-div_iff_mul-le h).1 low in
    let most : a / n < suc q = (div-lt_iff_lt-mul h).1 high in omega arith

div_mono : (a b n : ℕ) → 1 ≤ n → a ≤ b → a / n ≤ b / n
div_mono a b n h k = (le-div_iff_mul-le h).1 (omega (arith, div-mul-le_self a n))

floor_mono :
    (a b : ℤ) (n : ℕ)
    → 1 ≤ n
    → le_int a b ≡ true
    → le_int (floor a (pos n)) (floor b (pos n)) ≡ true
floor_mono (pos a) (pos b) n h e = le→leb (a / n) (b / n) (div_mono a b n h (leb→le a b e))
floor_mono (pos a) (negsuc b) n h e = cc
floor_mono (negsuc a) (pos b) n h e = refl
floor_mono (negsuc a) (negsuc b) n h e = le→leb (b / n) (a / n) (div_mono b a n h (leb→le b a e))

floor_exact : (k : ℤ) (n : ℕ) → 1 ≤ n → floor (times k n) (pos n) ≡ k
floor_exact (pos k) n h =
    ap (λ (q : ℕ). pos q) (div_between (k * n) k n h (omega arith) (omega (arith, suc-mul k n)))
floor_exact (negsuc k) n h =
    ap (λ (q : ℕ). negsuc q)
      (div_between (suc k * n - 1) k n h (omega (arith, suc-mul k n)) (omega (arith, suc-mul k n)))

pub on_integers-IsDouble : IsDouble ℤ
on_integers-IsDouble = record {
  of_int_mono = λ a b h k e. e;
  quotient_mono = λ x y n low high e. floor_mono x y n low e;
  quotient_exact = λ k n low high h. floor_exact k n low;
}
