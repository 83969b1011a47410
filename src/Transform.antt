-- ===== src/Transform.antt =====
-- app/transform/apply.py: the actions on the detected spans.
pub mod Mask
pub mod KeepLast
pub mod Generalize
pub mod Stage
pub mod Carried
pub mod Splice
pub mod Weave
mod Tests
