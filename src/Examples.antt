-- ===== src/Examples.antt =====
-- Runs of the library's operations and theorems on given inputs.
mod PositionReports
mod OtherReports
mod StaticReports
mod Payloads
mod Writers
mod Bounds
mod Sentences
mod Deliveries
mod Lines
mod Receiving
mod Parsing
mod Assembling
mod Positions
