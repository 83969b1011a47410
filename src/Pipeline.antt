-- ===== src/Pipeline.antt =====
-- app/pipeline.py and app/adapters/__init__.py: the judgement of a request and of an answer.
pub mod Run
pub mod Judge
pub mod Analyze
pub mod Stages
pub mod Log
pub mod Outcome
pub mod Ran
pub mod Closed
pub mod Kept
pub mod Enforced
mod Tests
mod Runs
