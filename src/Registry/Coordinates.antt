-- ===== src/Registry/Coordinates.antt =====
-- The positions that the accessors `longitude` and `latitude` of the six classes with a position show.
use mathlib.Core.Path.{subst}
use pgais.Base.{ℕ, ◌≡◌, refl, ap, arith, Option, none, some}
use pgais.Base.Int.{ℤ, pos, negsuc}
use pgais.Base.Double.{Double, IsDouble, times}
use pgais.Messages.Degrees.{
  degrees, Between, Shown, degrees-Shown, k_longitude_unavailable, k_latitude_unavailable,
  k_msg27_longitude_unavailable, k_msg27_latitude_unavailable,
}
use pgais.Messages.PositionReportClassA.{
  longitude as longitude_of_position_report_class_a,
  latitude as latitude_of_position_report_class_a,
}
use pgais.Messages.BaseStationReport.{
  longitude as longitude_of_base_station_report, latitude as latitude_of_base_station_report,
}
use pgais.Messages.SarPositionReport.{
  longitude as longitude_of_sar_position_report, latitude as latitude_of_sar_position_report,
}
use pgais.Messages.ClassBPositionReport.{
  longitude as longitude_of_class_b_position_report,
  latitude as latitude_of_class_b_position_report,
}
use pgais.Messages.ExtendedClassBPositionReport.{
  longitude as longitude_of_extended_class_b_position_report,
  latitude as latitude_of_extended_class_b_position_report,
}
use pgais.Messages.LongRangeBroadcast.{
  longitude as longitude_of_long_range_broadcast, latitude as latitude_of_long_range_broadcast,
}
use pgais.Registry.{
  Message, utc_date_inquiry, position_report_class_a, base_station_report, static_and_voyage_data,
  sar_position_report, class_b_position_report, extended_class_b_position_report,
  static_data_report, long_range_broadcast,
}

-- A position as it is sent, in parts of a degree, and as it is shown.
pub record Position {ℓ} (W : Type ℓ) : Type ℓ where
  pub scale : ℕ
  pub raw_longitude : ℤ
  pub raw_latitude : ℤ
  pub longitude : Option W
  pub latitude : Option W

-- The position of a message whose class has one.
unfoldable pub position_of {ℓ} : {W : Type ℓ} ⦃d : Double W⦄ → Message → Option (Position W)
position_of (utc_date_inquiry m) = none
position_of (position_report_class_a m) = some (record {
  scale = 600000;
  raw_longitude = m.longitude;
  raw_latitude = m.latitude;
  longitude = longitude_of_position_report_class_a m;
  latitude = latitude_of_position_report_class_a m;
})
position_of (base_station_report m) = some (record {
  scale = 600000;
  raw_longitude = m.longitude;
  raw_latitude = m.latitude;
  longitude = longitude_of_base_station_report m;
  latitude = latitude_of_base_station_report m;
})
position_of (static_and_voyage_data m) = none
position_of (sar_position_report m) = some (record {
  scale = 600000;
  raw_longitude = m.longitude;
  raw_latitude = m.latitude;
  longitude = longitude_of_sar_position_report m;
  latitude = latitude_of_sar_position_report m;
})
position_of (class_b_position_report m) = some (record {
  scale = 600000;
  raw_longitude = m.longitude;
  raw_latitude = m.latitude;
  longitude = longitude_of_class_b_position_report m;
  latitude = latitude_of_class_b_position_report m;
})
position_of (extended_class_b_position_report m) = some (record {
  scale = 600000;
  raw_longitude = m.longitude;
  raw_latitude = m.latitude;
  longitude = longitude_of_extended_class_b_position_report m;
  latitude = latitude_of_extended_class_b_position_report m;
})
position_of (static_data_report m) = none
position_of (long_range_broadcast m) = some (record {
  scale = 10;
  raw_longitude = m.longitude;
  raw_latitude = m.latitude;
  longitude = longitude_of_long_range_broadcast m;
  latitude = latitude_of_long_range_broadcast m;
})

-- On the globe as it is sent, and so on the globe as it is shown.
abbrev InDegrees {ℓ} : (W : Type ℓ) ⦃d : Double W⦄ → Position W → Type ℓ
InDegrees W ⦃d⦄ p =
    Between (times (negsuc 179) p.scale) (times (pos 180) p.scale) p.raw_longitude
    → Between (times (negsuc 89) p.scale) (times (pos 90) p.scale) p.raw_latitude
    → Shown W (negsuc 179) (pos 180) p.longitude × Shown W (negsuc 89) (pos 90) p.latitude

fine {ℓ} :
    {W : Type ℓ} ⦃d : Double W⦄ (laws : IsDouble W) (lon lat : ℤ)
    → Between (times (negsuc 179) 600000) (times (pos 180) 600000) lon
    → Between (times (negsuc 89) 600000) (times (pos 90) 600000) lat
    → Shown W (negsuc 179) (pos 180) (degrees {W = W} k_longitude_unavailable 600000 lon)
      × Shown W (negsuc 89) (pos 90) (degrees {W = W} k_latitude_unavailable 600000 lat)
fine laws lon lat h k = (
  degrees-Shown laws k_longitude_unavailable lon (negsuc 179) (pos 180) 600000 (omega arith)
      (omega arith) (omega arith) (omega arith) refl h,
  degrees-Shown laws k_latitude_unavailable lat (negsuc 89) (pos 90) 600000 (omega arith)
      (omega arith) (omega arith) (omega arith) refl k,
)

coarse {ℓ} :
    {W : Type ℓ} ⦃d : Double W⦄ (laws : IsDouble W) (lon lat : ℤ)
    → Between (times (negsuc 179) 10) (times (pos 180) 10) lon
    → Between (times (negsuc 89) 10) (times (pos 90) 10) lat
    → Shown W (negsuc 179) (pos 180) (degrees {W = W} k_msg27_longitude_unavailable 10 lon)
      × Shown W (negsuc 89) (pos 90) (degrees {W = W} k_msg27_latitude_unavailable 10 lat)
coarse laws lon lat h k = (
  degrees-Shown laws k_msg27_longitude_unavailable lon (negsuc 179) (pos 180) 10 (omega arith)
      (omega arith) (omega arith) (omega arith) refl h,
  degrees-Shown laws k_msg27_latitude_unavailable lat (negsuc 89) (pos 90) 10 (omega arith)
      (omega arith) (omega arith) (omega arith) refl k,
)

shown {ℓ} :
    {W : Type ℓ} ⦃d : Double W⦄ (p q : Position W) → InDegrees W p → some p ≡ some q → InDegrees W q
shown {W = W} p q h e = subst (InDegrees W) (ap (λ (o : Option (Position W)). from_option p o) e) h
  where
    from_option : {A : Type ℓ} → A → Option A → A
    from_option a none = a
    from_option a (some b) = b

-- Whatever stands for `double` with the laws of `IsDouble`: in every class with a position, a longitude
-- that is sent from -180 to 180 degrees and a latitude from -90 to 90 degrees are available, and the values
-- that the accessors return are from -180 to 180 and from -90 to 90.
pub position_of-Shown {ℓ} :
    {W : Type ℓ} ⦃d : Double W⦄ (laws : IsDouble W) (m : Message) (p : Position W)
    → position_of m ≡ some p
    → Between (times (negsuc 179) p.scale) (times (pos 180) p.scale) p.raw_longitude
    → Between (times (negsuc 89) p.scale) (times (pos 90) p.scale) p.raw_latitude
    → Shown W (negsuc 179) (pos 180) p.longitude × Shown W (negsuc 89) (pos 90) p.latitude
unfolding position_of longitude_of_position_report_class_a latitude_of_position_report_class_a
    longitude_of_base_station_report latitude_of_base_station_report
    longitude_of_sar_position_report latitude_of_sar_position_report
    longitude_of_class_b_position_report latitude_of_class_b_position_report
    longitude_of_extended_class_b_position_report latitude_of_extended_class_b_position_report
    longitude_of_long_range_broadcast latitude_of_long_range_broadcast
position_of-Shown laws (utc_date_inquiry m) p e = cc
position_of-Shown laws (position_report_class_a m) p e =
    shown _ p (fine laws m.longitude m.latitude) e
position_of-Shown laws (base_station_report m) p e = shown _ p (fine laws m.longitude m.latitude) e
position_of-Shown laws (static_and_voyage_data m) p e = cc
position_of-Shown laws (sar_position_report m) p e = shown _ p (fine laws m.longitude m.latitude) e
position_of-Shown laws (class_b_position_report m) p e =
    shown _ p (fine laws m.longitude m.latitude) e
position_of-Shown laws (extended_class_b_position_report m) p e =
    shown _ p (fine laws m.longitude m.latitude) e
position_of-Shown laws (static_data_report m) p e = cc
position_of-Shown laws (long_range_broadcast m) p e =
    shown _ p (coarse laws m.longitude m.latitude) e
