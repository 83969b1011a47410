-- ===== src/Adapters.antt =====
-- app/adapters: the formats of the bodies. A body is read and written as a JSON value.
pub mod Json
pub mod Unique
pub mod Written
pub mod Gateway
pub mod Retold
pub mod Places
pub mod Answered
pub mod Gemini
pub mod Postfix
mod Tests
