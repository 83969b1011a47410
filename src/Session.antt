-- ===== src/Session.antt =====
-- app/context: the sessions, the accumulation of entities over turns and the risk score.
pub mod Store
pub mod Accumulator
pub mod Stage
pub mod Expiry
pub mod Remembered
pub mod History
mod Tests
