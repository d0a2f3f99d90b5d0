-- ===== src/Crypto.antt =====
-- src/crypto: the parts that authenticate.
pub mod Identity
pub mod Samples
mod Examples
