-- ===== src/Core.antt =====
-- src/core: the guarded socket, the retired identities and the writing of files.
pub mod Storage
pub mod GuardedSocket
pub mod Revocation
mod Examples
