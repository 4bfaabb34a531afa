-- ===== src/Messages.antt =====
-- src/messages: a module for each message class with its fields, `decode` and `encode`, and children
-- of each with the proofs.
pub mod Transport
pub mod Codec
pub mod Degrees
pub mod UtcDateInquiry
pub mod PositionReportClassA
pub mod BaseStationReport
pub mod StaticAndVoyageData
pub mod SarPositionReport
pub mod ClassBPositionReport
pub mod ExtendedClassBPositionReport
pub mod LongRangeBroadcast
pub mod StaticDataReport
