-- ===== src/Onion/Session/Secured.antt =====
-- `Crypto` of src/onion/session.rs: how the two ends of a session make cells and read them.
pub mod Crossing
use anon_guard.Base.{ℕ, ◌+◌, not, List, ◌==◌, if◌then◌else◌, length, Result, ok, err}
use anon_guard.Onion.Cell.{CellCommand, OnionCell, CellError, new, serialize, parse}
use anon_guard.Onion.CircuitError.{CircuitError}
use anon_guard.Onion.Circuit.{
  Cipher, OnionCircuit, RelayCircuitHop, Peeled, addressed, forward_downstream, wrap_forward,
  peel_forward, wrap_backward_originate,
}
use anon_guard.Onion.Backward.{unwrap_backward}

pub data Crypto : Type 0 where
  client : OnionCircuit → Crypto
  exit : RelayCircuitHop → Crypto

pub data CryptoError : Type 0 where
  bad_cell : CellError → CryptoError
  bad_circuit : CircuitError → CryptoError
  before_exit unaddressed : CryptoError

abbrev id_of : Crypto → ℕ
id_of (client c) = c.circuit_id
id_of (exit r) = r.circuit_id

module _ (z : Cipher) where
  abbrev pub wrapped :
      Result (OnionCircuit × List ℕ) CircuitError → Result (Crypto × List ℕ) CryptoError
  wrapped (ok (c, wire)) = ok (client c, wire)
  wrapped (err e) = err (bad_circuit e)

  abbrev originated :
      RelayCircuitHop × Result (List ℕ) CircuitError → Result (Crypto × List ℕ) CryptoError
  originated (r, ok wire) = ok (exit r, wire)
  originated (r, err e) = err (bad_circuit e)

  abbrev pub sealed : Crypto → OnionCell → Result (Crypto × List ℕ) CryptoError
  sealed (client c) cell = wrapped (wrap_forward z c cell)
  sealed (exit r) cell = originated (wrap_backward_originate z r (serialize cell))

  abbrev pub with_cell : Crypto → Result OnionCell CellError → Result (Crypto × List ℕ) CryptoError
  with_cell k (ok cell) = sealed k cell
  with_cell k (err e) = err (bad_cell e)

  -- `random` is what `OnionCell::new` draws.
  unfoldable pub outgoing :
      Crypto → List ℕ → CellCommand → ℕ → List ℕ → Result (Crypto × List ℕ) CryptoError
  outgoing k random command id body = with_cell k (new random (id_of k) 0 command id body)

  abbrev pub parsed :
      RelayCircuitHop → Result OnionCell CellError → Result (Crypto × OnionCell) CryptoError
  parsed r (ok cell) = ok (exit r, cell)
  parsed r (err e) = err (bad_cell e)

  abbrev pub peeled : Peeled z → Result (Crypto × OnionCell) CryptoError
  peeled (r, wire, ok (addressed command len)) = parsed r (parse wire)
  peeled (r, wire, ok forward_downstream) = err unaddressed
  peeled (r, wire, err e) = err (bad_circuit e)

  abbrev unwrapped :
      OnionCircuit × List ℕ × Result (ℕ × OnionCell) CircuitError
      → Result (Crypto × OnionCell) CryptoError
  unwrapped (c, wire, ok (hop, cell)) =
      if not (hop + 1 == length c.hops) then err before_exit else ok (client c, cell)
  unwrapped (c, wire, err e) = err (bad_circuit e)

  pub incoming : Crypto → List ℕ → Result (Crypto × OnionCell) CryptoError
  incoming (client c) wire = unwrapped (unwrap_backward z c wire)
  incoming (exit r) wire = peeled (peel_forward z r wire)
