-- ===== src/Base/Int.antt =====
-- Signed integers over the native numbers, under the library's names, and the two's complement
-- reading of machine words.
use pgais.Base.{ℕ, ◌-◌, ◌%◌, ◌^◌, ◌<◌, ltb, if◌then◌else◌}

-- `negsuc n` is -(n + 1).
pub data ℤ : Type 0 where
  pos : ℕ → ℤ
  negsuc : ℕ → ℤ

-- The word of `w` bits that a conversion to an unsigned type of that width gives.
unfoldable pub to_unsigned : ℕ → ℤ → ℕ
to_unsigned w (pos n) = n % 2 ^ w
to_unsigned w (negsuc n) = 2 ^ w - 1 - n % 2 ^ w

-- The integer that a word of `w` bits stands for in a signed type of that width.
unfoldable pub to_signed : ℕ → ℕ → ℤ
to_signed w n = if ltb n (2 ^ (w - 1)) then pos n else negsuc (2 ^ w - 1 - n)

-- A conversion to a signed type of `w` bits.
unfoldable pub cast_int : ℕ → ℤ → ℤ
unfolding to_unsigned to_signed
cast_int w z = to_signed w (to_unsigned w z)

-- The integers of `w` bits in two's complement, for 1 ≤ w.
abbrev pub Fits : ℕ → ℤ → Type 0
Fits w (pos n) = n < 2 ^ (w - 1)
Fits w (negsuc n) = n < 2 ^ (w - 1)
