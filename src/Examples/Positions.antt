-- ===== src/Examples/Positions.antt =====
-- Positions in tenths of a degree, with whole numbers in the place of `double`.
use pgais.Base.{◌≡◌, ◌↔◌, refl, false, none, some}
use pgais.Base.Int.{ℤ, pos, negsuc}
use pgais.Base.Double.{on_integers, on_integers-IsDouble}
use pgais.Messages.Degrees.{Shown}
use pgais.Messages.LongRangeBroadcast.{LongRangeBroadcast, longitude, latitude}
use pgais.Registry.{long_range_broadcast}
use pgais.Registry.Coordinates.{Position, position_of, position_of-Shown}
use pgais.Registry.Availability.{position_of-none}

abbrev report : LongRangeBroadcast
report = record {
  mmsi = 244660000;
  repeat_indicator = 0;
  position_accuracy = false;
  raim = false;
  nav_status = 0;
  longitude = negsuc 44;
  latitude = pos 521;
  sog = 10;
  cog = 90;
  gnss_position_status = false;
}

abbrev position : Position ℤ
position = record {
  scale = 10;
  raw_longitude = negsuc 44;
  raw_latitude = pos 521;
  longitude = longitude report;
  latitude = latitude report;
}

its_position : position_of (long_range_broadcast report) ≡ some position
unfolding position_of
its_position = refl

position_of-Shown_example :
    Shown ℤ (negsuc 179) (pos 180) (longitude report)
    × Shown ℤ (negsuc 89) (pos 90) (latitude report)
position_of-Shown_example =
    position_of-Shown on_integers-IsDouble (long_range_broadcast report) position its_position
      (refl, refl) (refl, refl)

-- A report with a latitude only.
abbrev without_longitude : LongRangeBroadcast
without_longitude = record report { longitude = pos 1810 }

abbrev position_without_longitude : Position ℤ
position_without_longitude = record position {
  raw_longitude = pos 1810;
  longitude = longitude without_longitude;
  latitude = latitude without_longitude;
}

its_position_without_longitude :
    position_of (long_range_broadcast without_longitude) ≡ some position_without_longitude
unfolding position_of
its_position_without_longitude = refl

position_of-none_example :
    ((longitude {W = ℤ} without_longitude ≡ none) ↔ (pos 1810 ≡ pos 1810))
    × ((latitude {W = ℤ} without_longitude ≡ none) ↔ (pos 521 ≡ pos 910))
position_of-none_example =
    position_of-none (long_range_broadcast without_longitude) position_without_longitude
      its_position_without_longitude
