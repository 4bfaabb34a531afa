-- ===== src/Lib.antt =====
-- A model of aislib, a C++ library that parses, decodes and encodes AIS messages (ITU-R M.1371-5)
-- carried by NMEA sentences.
--
-- A line goes through `Sentence::parse` (src/core/sentence.cpp), the parts of a message through
-- `SentenceAssembler::feed`, the armoured payload through `decode_payload` (src/core/payload.cpp), and
-- the bytes through `BitReader` (src/core/bitfield.cpp) in the decoder of the message's class
-- (src/messages), which `MessageRegistry::decode` (src/core/message.cpp) looks up. `encode` of a class
-- goes the other way, through `BitWriter` and `encode_payload`.
--
-- The files and the code they are about:
--   Error: include/aislib/error.h, src/core/error.cpp. `Result<T>` is `Result`; an early return of an
--     error is `fail`, `fail_with` or the bind of a do block. Counts is about the numbers in a detail.
--   Bitfield: src/core/bitfield.cpp. SixBit, Reader and Writer have the operations; Digits, Storage,
--     Numbers, Sign, Text, Fields, Bounds, Total and RawBits relate a buffer to the sequence of bits
--     that it holds. Session has any row of writes and reads and what a sequence of bits promises for it;
--     Packed, Reads and Refinement relate the two.
--   Payload: src/core/payload.cpp. Armour, Decoded, Encoded, RoundTrip and Outcomes have the proofs.
--   Message: include/aislib/message.h, the message types and what each class's `decode` and `encode`
--     calls.
--   Messages: src/messages, a module for each class with children for its proofs: RoundTrip is about a
--     message that is sent, Total about any buffer. `construct` is the constructor. Transport has what the
--     proofs share, Codec the contract of a class, which each class fills and the registry's proofs use,
--     and Degrees the body of the accessors `longitude` and `latitude`.
--   Registry: `MessageRegistry` of src/core/message.cpp, and src/registry_init.cpp. Sendable says which
--     messages can be sent; Delivery is about a message that is sent, Soundness and Reception about any
--     payload, Coordinates and Availability about the positions that the classes show, and Refinement
--     about any row of calls against a map from types to decoders.
--   Sentence: `Sentence` of src/core/sentence.cpp; `print` in Sentence/Print is a description of a valid
--     line that is independent of the code, and Valid what every parsed sentence keeps to. Numerals,
--     Fields and Grammar describe every line that is accepted, and Accepted relates them to `parse`;
--     Ranges, NumberErrors, FieldErrors and Refused describe the defects of the other lines, and
--     NumberCases and Outcomes relate them to `parse`.
--   Assembler: `SentenceAssembler` of src/core/sentence.cpp. `feed` takes and returns the map. Spec is
--     what the class promises, without its map and counters; Refinement relates the two by way of Tables,
--     Pending is about the number of entries, Reachable about the states that calls lead to, and Order
--     about two calls in either order.
--   Receiver: the loop from lines to messages, as include/aislib/sentence.h and the README show it.
--     Delivery is about a message that is sent; Soundness and Refinement are about any lines.
--   Base and Bits: the shared names and lemmas. Examples: runs on given inputs.
--
-- Texts and buffers are lists of numbers below 256, `size_t` has 64 bits and unsigned arithmetic wraps
-- where the code's does. A loop is structural recursion on what is left of its input or on the number
-- of rounds to go; `to_string` alone has fuel, one more than the number, which has no more digits than
-- that, as Error/Counts shows. A read outside a buffer, undefined in the code, gives zero here; Bounds
-- says which reads of a number begin there.
--
-- `double` is a parameter: Base/Double is the interface of what the code does with it, with the laws of
-- IEEE 754 that the proofs use.
--
-- Not modelled: the accessors that return a field as it is, which are the fields of the records; the
-- tests and build files; the address of the registry's singleton and the `assert` of debug builds.
pub mod Base
pub mod Bits
pub mod Error
pub mod Bitfield
pub mod Payload
pub mod Message
pub mod Messages
pub mod Registry
pub mod Receiver
pub mod Sentence
pub mod Assembler
pub mod Examples
