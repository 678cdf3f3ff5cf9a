-- ===== src/Slave.antt =====
-- The slave, src/slave/slave.ts: its types, its response bodies, and the handlers of the standard
-- function codes with their dispatch.
pub mod Types
pub mod FunctionCode
pub mod Pdu
pub mod Reads
pub mod Writes
pub mod ServerInfo
pub mod DeviceId
pub mod Dispatch
pub mod Packing
pub mod RoundTrip
pub mod Contract
pub mod Safety
pub mod Fits
pub mod Execute
pub mod Overlap
pub mod Lock
mod Runs
