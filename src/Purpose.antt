-- ===== src/Purpose.antt =====
-- app/purpose: the purpose of a request and the role of the requester.
pub mod Classifier
pub mod Rules
pub mod RoleResolver
mod Tests
