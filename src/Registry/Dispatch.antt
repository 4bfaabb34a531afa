-- ===== src/Registry/Dispatch.antt =====
-- The registry: which decoder a type gets after the operations that change the array, and every way
-- that `MessageRegistry::decode` can end.
use pgais.Base.{
  ℕ, zero, suc, ◌<◌, ◌≡◌, ◌≢◌, refl, ap, arith, [], ◌∷◌, Option, none, some, ◌&&◌, ◌==◌,
  if◌then◌else◌, length, get_or, set, get_or-set_self, get_or-set_ne,
}
use pgais.Registry.{
  Decoder, Registry, in_range, register_decoder, clear, register_all_decoders, wrap,
  utc_date_inquiry, position_report_class_a, base_station_report, static_and_voyage_data,
  sar_position_report, class_b_position_report, extended_class_b_position_report,
  static_data_report, long_range_broadcast,
}
use pgais.Messages.UtcDateInquiry.{decode as decode_utc_date_inquiry}
use pgais.Messages.PositionReportClassA.{decode as decode_position_report_class_a}
use pgais.Messages.BaseStationReport.{decode as decode_base_station_report}
use pgais.Messages.StaticAndVoyageData.{decode as decode_static_and_voyage_data}
use pgais.Messages.SarPositionReport.{decode as decode_sar_position_report}
use pgais.Messages.ClassBPositionReport.{decode as decode_class_b_position_report}
use pgais.Messages.ExtendedClassBPositionReport.{decode as decode_extended_class_b_position_report}
use pgais.Messages.StaticDataReport.{decode as decode_static_data_report}
use pgais.Messages.LongRangeBroadcast.{decode as decode_long_range_broadcast}

-- The invariant of the array: its length.
abbrev pub IsRegistry : Registry → Type 0
IsRegistry decoders = length decoders ≡ 28

pub length-clear : (ds : Registry) → length (clear ds) ≡ length ds
unfolding clear
length-clear [] = refl
length-clear (d ∷ ds) = omega (arith, length-clear ds)

pub get_or-clear : (ds : Registry) (i : ℕ) → get_or (clear ds) i none ≡ none
unfolding clear
get_or-clear [] i = refl
get_or-clear (d ∷ ds) zero = refl
get_or-clear (d ∷ ds) (suc i) = get_or-clear ds i

-- A registration in the range 1 to 27, be it of `nullptr`, is what its type is looked up as from then on;
-- every other type keeps its decoder, and a registration out of range changes none.
pub get_or-register_decoder :
    (ds : Registry) (i j : ℕ) (fn : Option Decoder)
    → IsRegistry ds
    → get_or (register_decoder i fn ds) j none
      ≡ (if in_range i && j == i then fn else get_or ds j none)
unfolding register_decoder in_range
get_or-register_decoder ds i j fn h =
    let self : i < 28 → get_or (set ds i fn) i none ≡ fn =
      λ k. get_or-set_self ds i fn none (omega arith) in
    let other : i ≢ j → get_or (set ds i fn) j none ≡ get_or ds j none =
      λ k. get_or-set_ne ds i j fn none k in
    ground arith

-- A list by its entries.
table : ℕ → (ℕ → Option Decoder) → Registry
table zero f = []
table (suc n) f = f 0 ∷ table n (λ i. f (suc i))

table_of : (n : ℕ) (ds : Registry) → length ds ≡ n → ds ≡ table n (λ i. get_or ds i none)
unfolding table
table_of zero [] h = refl
table_of zero (d ∷ ds) h = absurd (omega arith)
table_of (suc n) [] h = absurd (omega arith)
table_of (suc n) (d ∷ ds) h = ap (◌∷◌ d) (table_of n ds (omega arith))

-- The array once all decoders are registered.
abbrev pub registered : (ℕ → Option Decoder) → Registry
registered f =
    f 0
    ∷ some (wrap position_report_class_a decode_position_report_class_a)
    ∷ some (wrap position_report_class_a decode_position_report_class_a)
    ∷ some (wrap position_report_class_a decode_position_report_class_a)
    ∷ some (wrap base_station_report decode_base_station_report)
    ∷ some (wrap static_and_voyage_data decode_static_and_voyage_data)
    ∷ f 6
    ∷ f 7
    ∷ f 8
    ∷ some (wrap sar_position_report decode_sar_position_report)
    ∷ some (wrap utc_date_inquiry decode_utc_date_inquiry)
    ∷ some (wrap base_station_report decode_base_station_report)
    ∷ f 12
    ∷ f 13
    ∷ f 14
    ∷ f 15
    ∷ f 16
    ∷ f 17
    ∷ some (wrap class_b_position_report decode_class_b_position_report)
    ∷ some (wrap extended_class_b_position_report decode_extended_class_b_position_report)
    ∷ f 20
    ∷ f 21
    ∷ f 22
    ∷ f 23
    ∷ some (wrap static_data_report decode_static_data_report)
    ∷ f 25
    ∷ f 26
    ∷ some (wrap long_range_broadcast decode_long_range_broadcast)
    ∷ []

-- `register_all_decoders` gives each of the twelve types that have a class the decoder of that class, and
-- leaves the other entries as they were; so a second call changes nothing.
pub register_all_decoders_lem :
    (ds : Registry)
    → IsRegistry ds
    → (register_all_decoders ds ≡ registered (λ i. get_or ds i none))
      × (register_all_decoders (register_all_decoders ds) ≡ register_all_decoders ds)
unfolding register_all_decoders register_decoder in_range table
register_all_decoders_lem ds h = rw (table_of 28 ds h) (refl, refl)
