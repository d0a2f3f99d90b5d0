-- ===== src/Mesh.antt =====
-- src/mesh: the directory side, and the defences at its doors.
pub mod Sybil
pub mod Diversity
pub mod Admission
pub mod Consensus
pub mod Descriptor
pub mod Authority
mod Examples
