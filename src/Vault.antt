-- ===== src/Vault.antt =====
-- app/transform/vault.py and app/ids.py: reversible tokens over the PostgreSQL tables.
pub mod Rows
pub mod Crypto
pub mod Label
pub mod Scan
pub mod Tokenize
pub mod Detokenize
pub mod Lifetime
pub mod Numbering
pub mod Reach
pub mod Restore
pub mod Tokens
pub mod Cleanup
pub mod Reuse
pub mod Samples
mod Tests
