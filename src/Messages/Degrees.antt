-- ===== src/Messages/Degrees.antt =====
-- The body that the accessors `longitude` and `latitude` of the message classes share, and the values
-- that stand for a coordinate that is not available (include/aislib/messages/msg1_3.h and msg27.h).
use pgais.Base.{
  ℕ, ◌^◌, ◌≤◌, ◌<◌, ◌≡◌, inl, inr, refl, arith, Bool, true, false, ◌==◌, if◌then◌else◌, Option,
  none, some, Bool-cases,
}
use pgais.Base.Int.{ℤ, pos, negsuc, Fits}
use pgais.Base.Double.{Double, IsDouble, ◌≼◌, le_int, times}

abbrev pub k_longitude_unavailable : ℤ
k_longitude_unavailable = pos 0x6791ac0

abbrev pub k_latitude_unavailable : ℤ
k_latitude_unavailable = pos 0x3412140

abbrev pub k_msg27_longitude_unavailable : ℤ
k_msg27_longitude_unavailable = pos 1810

abbrev pub k_msg27_latitude_unavailable : ℤ
k_msg27_latitude_unavailable = pos 910

-- `==` on `int32_t`.
abbrev pub int_eq : ℤ → ℤ → Bool
int_eq (pos a) (pos b) = a == b
int_eq (pos a) (negsuc b) = false
int_eq (negsuc a) (pos b) = false
int_eq (negsuc a) (negsuc b) = a == b

-- `if (raw == unavailable) return std::nullopt; return static_cast<double>(raw) / scale;`
unfoldable pub degrees {ℓ} : {W : Type ℓ} ⦃d : Double W⦄ → ℤ → ℕ → ℤ → Option W
degrees ⦃d⦄ unavailable scale raw =
    if int_eq raw unavailable then none else some (d.quotient (d.of_int raw) (d.of_int (pos scale)))

-- The integers from `low` to `high`.
abbrev pub Between : ℤ → ℤ → ℤ → Type 0
Between low high raw = (le_int low raw ≡ true) × (le_int raw high ≡ true)

Between-Fits : (low high raw : ℤ) → Fits 32 low → Fits 32 high → Between low high raw → Fits 32 raw
Between-Fits (pos a) (pos b) (pos c) h k r = ground arith
Between-Fits (pos a) (negsuc b) (pos c) h k (r, t) = cc
Between-Fits (negsuc a) (pos b) (pos c) h k r = ground arith
Between-Fits (negsuc a) (negsuc b) (pos c) h k (r, t) = cc
Between-Fits (pos a) high (negsuc c) h k (r, t) = cc
Between-Fits (negsuc a) high (negsuc c) h k r = ground arith

apart : {b : Bool} → b ≡ true → b ≡ false → ⊥
apart h k = cc

Between-available :
    (low high raw unavailable : ℤ)
    → Between low high raw
    → le_int unavailable high ≡ false
    → int_eq raw unavailable ≡ false
Between-available low high (pos a) (pos b) r h = elim (Bool-cases (a == b)) [
  | inl e ↦ let same : a ≡ b = ground arith in absurd (apart (rw same at r.1) h)
  | inr e ↦ e
]
Between-available low high (pos a) (negsuc b) r h = refl
Between-available low high (negsuc a) (pos b) r h = refl
Between-available low high (negsuc a) (negsuc b) r h = elim (Bool-cases (a == b)) [
  | inl e ↦ let same : a ≡ b = ground arith in absurd (apart (rw same at r.1) h)
  | inr e ↦ e
]

-- A coordinate that is shown in degrees from `low` to `high`.
abbrev pub Shown {ℓ} : (W : Type ℓ) ⦃d : Double W⦄ → ℤ → ℤ → Option W → Type ℓ
Shown W ⦃d⦄ low high o = (x : W) × (o ≡ some x) × (d.of_int low ≼ x) × (x ≼ d.of_int high)

pub degrees-Shown {ℓ} :
    {W : Type ℓ} ⦃d : Double W⦄ (laws : IsDouble W) (unavailable raw low high : ℤ) (scale : ℕ)
    → 1 ≤ scale
    → scale < 2 ^ 31
    → Fits 32 (times low scale)
    → Fits 32 (times high scale)
    → le_int unavailable (times high scale) ≡ false
    → Between (times low scale) (times high scale) raw
    → Shown W low high (degrees unavailable scale raw)
unfolding degrees
degrees-Shown ⦃d⦄ laws unavailable raw low high scale one small fits_low fits_high past r =
    let fits = Between-Fits (times low scale) (times high scale) raw fits_low fits_high r in
    let available = Between-available (times low scale) (times high scale) raw unavailable r past in
    let above =
      laws.quotient_mono _ _ scale one small
        (laws.of_int_mono (times low scale) raw fits_low fits r.0) in
    let below =
      laws.quotient_mono _ _ scale one small
        (laws.of_int_mono raw (times high scale) fits fits_high r.1) in
    (
      d.quotient (d.of_int raw) (d.of_int (pos scale)),
      rw available refl,
      rw (laws.quotient_exact low scale one small fits_low) at above,
      rw (laws.quotient_exact high scale one small fits_high) at below,
    )
