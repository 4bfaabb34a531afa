-- ===== src/Bitfield/SixBit.antt =====
-- The 6-bit character code of src/core/bitfield.cpp. A `char` is read as its unsigned value.
use pgais.Base.{ℕ, ◌+◌, ◌-◌, ◌≤◌, ◌&&◌, ltb, leb, if◌then◌else◌, bit_and}

-- `val &= 0x3F`, then the mapping rule.
unfoldable pub ais6bit_to_ascii : ℕ → ℕ
ais6bit_to_ascii val = let v = bit_and val 0x3f in if ltb v 32 then v + 64 else v

unfoldable pub ascii_to_ais6bit : ℕ → ℕ
ascii_to_ais6bit ch =
    if leb 64 ch && leb ch 95 then ch - 64 else if leb 32 ch && leb ch 63 then ch else 63

-- The characters that have a 6-bit value of their own.
abbrev pub IsPrintable : ℕ → Type 0
IsPrintable c = (32 ≤ c) × (c ≤ 95)
