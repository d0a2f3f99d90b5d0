-- ===== src/Onion/Session.antt =====
-- src/onion/session.rs: padded sessions that carry several streams over one circuit.
pub mod Profile
pub mod Outgoing
pub mod State
pub mod Frame
pub mod Run
pub mod Sound
pub mod Secured
mod Examples
