-- ===== src/Onion/CircuitError.antt =====
-- `CircuitError` of src/onion/circuit.rs. The texts of the errors are left out.
use anon_guard.Base.{ℕ}

pub data CircuitError : Type 0 where
  hop_index_out_of_range : ℕ → CircuitError
  sequence_exhausted key_derivation_failed mac_verification_failed : CircuitError
  anti_replay_rejection unpinned_relay invalid_padding payload_too_short : CircuitError
  parse_error invalid_circuit_id general : CircuitError
