-- ===== src/Registry/Availability.antt =====
-- When the accessors `longitude` and `latitude` of the six classes with a position return nothing.
use mathlib.Core.Path.{subst}
use mathlib.Core.Option.{some-injective}
use pgais.Base.{ℕ, ◌≡◌, ◌↔◌, refl, ap, arith, true, Bool-cases, inl, inr, none, some}
use pgais.Base.Int.{ℤ, pos, negsuc}
use pgais.Base.Double.{Double, times}
use pgais.Messages.Degrees.{degrees, int_eq}
use pgais.Messages.PositionReportClassA.{
  longitude as longitude_of_position_report_class_a,
  latitude as latitude_of_position_report_class_a,
}
use pgais.Messages.BaseStationReport.{
  longitude as longitude_of_base_station_report, latitude as latitude_of_base_station_report,
}
use pgais.Messages.SarPositionReport.{
  longitude as longitude_of_sar_position_report, latitude as latitude_of_sar_position_report,
}
use pgais.Messages.ClassBPositionReport.{
  longitude as longitude_of_class_b_position_report,
  latitude as latitude_of_class_b_position_report,
}
use pgais.Messages.ExtendedClassBPositionReport.{
  longitude as longitude_of_extended_class_b_position_report,
  latitude as latitude_of_extended_class_b_position_report,
}
use pgais.Messages.LongRangeBroadcast.{
  longitude as longitude_of_long_range_broadcast, latitude as latitude_of_long_range_broadcast,
}
use pgais.Registry.{
  Message, utc_date_inquiry, position_report_class_a, base_station_report, static_and_voyage_data,
  sar_position_report, class_b_position_report, extended_class_b_position_report,
  static_data_report, long_range_broadcast,
}
use pgais.Registry.Coordinates.{Position, position_of}

int_eq-true : (a b : ℤ) → int_eq a b ≡ true → a ≡ b
int_eq-true (pos a) (pos b) h = ap (λ (n : ℕ). pos n) (ground arith)
int_eq-true (pos a) (negsuc b) h = cc
int_eq-true (negsuc a) (pos b) h = cc
int_eq-true (negsuc a) (negsuc b) h = ap (λ (n : ℕ). negsuc n) (ground arith)

int_eq_self : (a : ℤ) → int_eq a a ≡ true
int_eq_self (pos a) = ground arith
int_eq_self (negsuc a) = ground arith

module _ {ℓ} {W : Type ℓ} ⦃d : Double W⦄ where
  degrees_absent :
      (unavailable raw : ℤ) (scale : ℕ)
      → (degrees {W = W} unavailable scale raw ≡ none) ↔ (raw ≡ unavailable)
  unfolding degrees
  degrees_absent unavailable raw scale = (
    λ h. elim (Bool-cases (int_eq raw unavailable)) [
      | inl e ↦ int_eq-true raw unavailable e
      | inr e ↦ let shown = rw e at h in cc
    ],
    λ same. rw (same, int_eq_self unavailable) refl,
  )

  -- Absent are the coordinates that stand one degree past their range.
  abbrev Absent : Position W → Type ℓ
  Absent p =
      ((p.longitude ≡ none) ↔ (p.raw_longitude ≡ times (pos 181) p.scale))
      × ((p.latitude ≡ none) ↔ (p.raw_latitude ≡ times (pos 91) p.scale))

  absent : (p q : Position W) → Absent p → some p ≡ some q → Absent q
  absent p q h e = subst Absent (some-injective p q e) h

-- In every class with a position, the accessors return nothing for a longitude that is sent as 181 degrees
-- and a latitude that is sent as 91 degrees, and for no other value.
pub position_of-none {ℓ} :
    {W : Type ℓ} ⦃d : Double W⦄ (m : Message) (p : Position W)
    → position_of m ≡ some p
    → ((p.longitude ≡ none) ↔ (p.raw_longitude ≡ times (pos 181) p.scale))
      × ((p.latitude ≡ none) ↔ (p.raw_latitude ≡ times (pos 91) p.scale))
unfolding position_of longitude_of_position_report_class_a latitude_of_position_report_class_a
    longitude_of_base_station_report latitude_of_base_station_report
    longitude_of_sar_position_report latitude_of_sar_position_report
    longitude_of_class_b_position_report latitude_of_class_b_position_report
    longitude_of_extended_class_b_position_report latitude_of_extended_class_b_position_report
    longitude_of_long_range_broadcast latitude_of_long_range_broadcast
position_of-none (utc_date_inquiry m) p e = cc
position_of-none (position_report_class_a m) p e =
    absent _ p (degrees_absent _ m.longitude _, degrees_absent _ m.latitude _) e
position_of-none (base_station_report m) p e =
    absent _ p (degrees_absent _ m.longitude _, degrees_absent _ m.latitude _) e
position_of-none (static_and_voyage_data m) p e = cc
position_of-none (sar_position_report m) p e =
    absent _ p (degrees_absent _ m.longitude _, degrees_absent _ m.latitude _) e
position_of-none (class_b_position_report m) p e =
    absent _ p (degrees_absent _ m.longitude _, degrees_absent _ m.latitude _) e
position_of-none (extended_class_b_position_report m) p e =
    absent _ p (degrees_absent _ m.longitude _, degrees_absent _ m.latitude _) e
position_of-none (static_data_report m) p e = cc
position_of-none (long_range_broadcast m) p e =
    absent _ p (degrees_absent _ m.longitude _, degrees_absent _ m.latitude _) e
