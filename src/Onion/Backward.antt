-- ===== src/Onion/Backward.antt =====
-- `OnionCircuit::unwrap_backward` of src/onion/circuit.rs. The buffer that the caller lent is part
-- of the result, as it is left.
pub mod Delivery
mod Examples
use anon_guard.Base.{
  ℕ, zero, suc, ◌+◌, ◌/◌, ◌^◌, not, Option, none, some, List, [], ◌∷◌, ◌++◌, leb, ◌==◌,
  if◌then◌else◌, length, take, drop, get_elem?, from_be, Result, ok, err,
}
use anon_guard.Onion.Cell.{OnionCell, CellError, slice, parse}
use anon_guard.Onion.Circuit.{Cipher, HopKeys, OnionCircuit, build_nonce, head_of, text_of, tag_of}
use anon_guard.Onion.CircuitError.{
  CircuitError, invalid_circuit_id, hop_index_out_of_range, mac_verification_failed, parse_error,
}
use anon_guard.Onion.Replay.{ReplayWindow, check_and_advance, bwd_counter_bits}

-- The circuit, the buffer, and the hop that sent the cell with the cell.
abbrev Unwrapped : Type 0
Unwrapped = OnionCircuit × List ℕ × Result (ℕ × OnionCell) CircuitError

-- `windows[i] = w`
pub set_window : ℕ → ReplayWindow → List ReplayWindow → List ReplayWindow
set_window i w [] = []
set_window zero w (v ∷ vs) = w ∷ vs
set_window (suc i) w (v ∷ vs) = v ∷ set_window i w vs

abbrev parse_opened : OnionCircuit → ℕ → List ℕ → Result OnionCell CellError → Unwrapped
parse_opened c hop_index raw (err e) = (c, raw, err parse_error)
parse_opened c hop_index raw (ok cell) = (c, raw, ok (hop_index, cell))

abbrev pub advance : OnionCircuit → ℕ → List ℕ → Result ReplayWindow CircuitError → Unwrapped
advance c hop_index raw (err e) = (c, raw, err e)
advance c hop_index raw (ok w) =
    parse_opened (record c { bwd_replay_windows = set_window hop_index w c.bwd_replay_windows })
      hop_index raw (parse raw)

abbrev check_opened : OnionCircuit → ℕ → ℕ → List ℕ → ReplayWindow → Option (List ℕ) → Unwrapped
check_opened c seq hop_index raw w none = (c, raw, err mac_verification_failed)
check_opened c seq hop_index raw w (some text) =
    advance c hop_index (head_of raw ++ (text ++ tag_of raw)) (check_and_advance w seq)

module _ (z : Cipher) where
  -- The layers come off in the order of the hops.
  abbrev pub peel_layers : List ℕ → List HopKeys → List ℕ → List ℕ
  peel_layers nonce [] body = body
  peel_layers nonce (h ∷ hs) body = peel_layers nonce hs (z.keystream h.backward_key nonce body)

  -- Each hop has its window, so that neither is missing at an index in range.
  abbrev pub unwrap_at :
      OnionCircuit → ℕ → ℕ → List ℕ → Option HopKeys → Option ReplayWindow → Unwrapped
  unwrap_at c seq hop_index raw (some hop) (some w) = check_opened c seq hop_index raw w (
      z.open_sealed hop.backward_aead_key (build_nonce 2 0 seq) (drop 4 (head_of raw)) (text_of raw)
        (tag_of raw))
  unwrap_at c seq hop_index raw _ _ = (c, raw, err (hop_index_out_of_range hop_index))

  pub unwrap_backward : OnionCircuit → List ℕ → Unwrapped
  unwrap_backward c raw =
      let seq = from_be (slice 4 8 raw) in
      let hop_index = seq / 2 ^ bwd_counter_bits in
      if not (from_be (slice 0 4 raw) == c.circuit_id)
      then (c, raw, err invalid_circuit_id)
      else if leb (length c.hops) hop_index
      then (c, raw, err (hop_index_out_of_range hop_index))
      else unwrap_at c seq hop_index
          (head_of raw ++ peel_layers (build_nonce 2 0 seq) (take hop_index c.hops) (drop 8 raw))
          (get_elem? c.hops hop_index) (get_elem? c.bwd_replay_windows hop_index)
