-- ===== src/Guard.antt =====
-- app/guardrail: the input guard and the output guard.
pub mod Injection
pub mod Rules
pub mod Output
pub mod LeakRules
pub mod Verdict
mod Phrase
pub mod Answer
mod RuleTests
mod Tests
