-- ===== src/Detect.antt =====
-- app/detect: the layers, and the merge of what they find.
pub mod Merge
pub mod Regex
pub mod Layers
pub mod Isolation
pub mod Dictionary
pub mod Terms
pub mod Ner
mod TermTests
pub mod Accounts
mod Tests
