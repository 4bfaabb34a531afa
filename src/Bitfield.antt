-- ===== src/Bitfield.antt =====
-- src/core/bitfield.cpp and include/aislib/bitfield.h: packed bit fields, most significant bit first.
-- A `std::vector<uint8_t>` is a list of bytes. The reader and the writer stand in child modules with
-- the 6-bit character code; the other children prove what they read and write.
pub mod SixBit
pub mod Reader
pub mod Writer
pub mod Digits
pub mod Storage
pub mod Numbers
pub mod Sign
pub mod Text
pub mod Fields
pub mod Bounds
pub mod Total
pub mod RawBits
pub mod Packed
pub mod Session
pub mod Reads
pub mod Refinement
