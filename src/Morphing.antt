-- ===== src/Morphing.antt =====
-- src/morphing: the shape of what is sent.
pub mod Padding
mod Examples
