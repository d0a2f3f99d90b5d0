-- ===== src/Onion.antt =====
-- src/onion: the data plane of a circuit.
pub mod Flow
pub mod CircuitError
pub mod Cell
pub mod Multipath
pub mod Replay
pub mod Circuit
pub mod Pacing
pub mod Padding
pub mod Session
pub mod Samples
pub mod Payload
pub mod Backward
mod Examples
