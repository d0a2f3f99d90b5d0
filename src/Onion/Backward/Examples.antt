-- ===== src/Onion/Backward/Examples.antt =====
-- Tests of the cells and of the way there and back through a circuit of two hops.
use anon_guard.Base.{
  ℕ, ◌+◌, ◌-◌, ◌*◌, ◌≡◌, refl, some, List, [], ◌∷◌, ◌++◌, arith, length, replicate, Result, ok, err,
  set_bit, ◌^◌,
}
use anon_guard.Onion.Cell.{CellCommand, OnionCell, new, serialize, parse, onion_cell_size}
use anon_guard.Onion.Cell.Wire.{IsCell, new-IsCell, parse-serialize}
use anon_guard.Onion.Circuit.{
  OnionCircuit, RelayCircuitHop, wrap_forward, peel_forward, addressed, wrap_backward_relay,
  wrap_backward_originate,
}
use anon_guard.Onion.CircuitError.{CircuitError}
use anon_guard.Onion.Circuit.Forward.{forward_path}
use anon_guard.Onion.Circuit.Delivery.{tagged, wrap_forward-peel_forward}
use anon_guard.Onion.Samples.{swapping, swapping-IsCipher, middle, exit, client}
use anon_guard.Onion.Backward.{unwrap_backward, set_window}
use anon_guard.Onion.Backward.Delivery.{backward_path, unwrap_backward-originate}
use anon_guard.Onion.Replay
use anon_guard.Onion.Replay.{ReplayWindow, check_and_advance}

-- A cell of two bytes.
abbrev hello : OnionCell
hello = record {
  circuit_id = 7;
  sequence_no = 3;
  command = CellCommand.relay;
  stream_id = 2;
  len = 2;
  ephemeral_key = replicate 32 9;
  mac = replicate 16 0;
  payload = (104 ∷ 105 ∷ []) ++ replicate (8131 - 2) 0;
}

hello-new : new (replicate 32 9) 7 3 CellCommand.relay 2 (104 ∷ 105 ∷ []) ≡ ok hello
unfolding new
hello-new = refl

hello-IsCell : IsCell hello
hello-IsCell =
    new-IsCell (replicate 32 9) 7 3 CellCommand.relay 2 (104 ∷ 105 ∷ []) hello (omega arith)
      (omega arith) (omega arith) refl hello-new

parse-serialize_example :
    (length (serialize hello) ≡ onion_cell_size) × (parse (serialize hello) ≡ ok hello)
parse-serialize_example = parse-serialize hello hello-IsCell

abbrev wrapped_of : Result (OnionCircuit × List ℕ) CircuitError → OnionCircuit × List ℕ
wrapped_of (ok x) = x
wrapped_of (err e) = (client, [])

abbrev sent : OnionCircuit × List ℕ
sent = wrapped_of (wrap_forward swapping client hello)

abbrev arrived : List ℕ
arrived = (peel_forward swapping middle sent.1).1

sent-ok : wrap_forward swapping client hello ≡ ok (sent.0, sent.1)
unfolding wrap_forward
sent-ok = refl

arrived-some : forward_path swapping (middle ∷ []) sent.1 ≡ some arrived
unfolding wrap_forward peel_forward forward_path serialize
arrived-some = refl

wrap_forward-peel_forward_example :
    (tag : List ℕ) × (peel_forward swapping exit arrived ≡ (
      record exit { expected_recv_seq = 3 + 1 },
      serialize (tagged hello 3 tag),
      ok (addressed CellCommand.relay 2),
    ))
wrap_forward-peel_forward_example =
    wrap_forward-peel_forward swapping client sent.0 hello sent.1 arrived (middle ∷ []) exit
      swapping-IsCipher hello-IsCell (omega arith) refl refl (omega arith) (omega arith) sent-ok
      arrived-some

-- The exit answers with the same cell.
abbrev raw_of : RelayCircuitHop × Result (List ℕ) CircuitError → List ℕ
raw_of (r, ok raw) = raw
raw_of (r, err e) = []

abbrev answer : RelayCircuitHop × Result (List ℕ) CircuitError
answer = wrap_backward_originate swapping exit (serialize hello)

abbrev passed : Result (List ℕ) CircuitError
passed = backward_path swapping (middle ∷ []) (raw_of answer)

abbrev came_back : List ℕ
came_back = raw_of (middle, passed)

abbrev first_taken : ReplayWindow
first_taken = record { window = 1; next_expected = 2 }

takes_first : check_and_advance Replay.fresh (1 * 2 ^ 29 + 1) ≡ ok first_taken
unfolding check_and_advance set_bit
takes_first = refl

answer-ok : answer ≡ (answer.0, ok (raw_of answer))
unfolding wrap_backward_originate
answer-ok = refl

passed-ok : backward_path swapping (middle ∷ []) (raw_of answer) ≡ ok came_back
unfolding wrap_backward_originate wrap_backward_relay backward_path serialize
passed-ok = refl

unwrap_backward-originate_example :
    (tag : List ℕ) × (unwrap_backward swapping client came_back ≡ (
      record client { bwd_replay_windows = Replay.fresh ∷ first_taken ∷ [] },
      serialize (tagged hello (1 * 2 ^ 29 + 1) tag),
      ok (1, tagged hello (1 * 2 ^ 29 + 1) tag),
    ))
unfolding set_window
unwrap_backward-originate_example =
    unwrap_backward-originate swapping client exit answer.0 (middle ∷ []) hello (raw_of answer)
      came_back Replay.fresh first_taken swapping-IsCipher hello-IsCell refl refl refl refl
      takes_first answer-ok passed-ok
