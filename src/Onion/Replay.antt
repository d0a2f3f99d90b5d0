-- ===== src/Onion/Replay.antt =====
-- `ReplayWindow` of src/onion/circuit.rs: the 64-bit anti-replay window of one hop.
pub mod Window
use anon_guard.Base.{
  ℕ, ◌+◌, ◌-◌, ◌%◌, ◌^◌, ◌||◌, ltb, leb, ◌==◌, if◌then◌else◌, Result, ok, err, test_bit, set_bit,
  shl64,
}
use anon_guard.Onion.CircuitError.{CircuitError, anti_replay_rejection}

abbrev pub bwd_counter_bits : ℕ
bwd_counter_bits = 29

-- `seq & BWD_COUNTER_MASK`
abbrev pub counter_of : ℕ → ℕ
counter_of seq = seq % 2 ^ bwd_counter_bits

abbrev pub max_seq_gap : ℕ
max_seq_gap = 1000

pub record ReplayWindow : Type 0 where
  pub window : ℕ
  pub next_expected : ℕ

abbrev pub fresh : ReplayWindow
fresh = record { window = 0; next_expected = 1 }

-- An old counter: the bit of the window says whether it was seen.
pub check_old : ReplayWindow → ℕ → Result ReplayWindow CircuitError
check_old w counter =
    let diff = w.next_expected - counter in
    if ltb 64 diff || test_bit w.window (diff - 1)
    then err anti_replay_rejection
    else ok (record w { window = set_bit w.window (diff - 1) })

-- A counter beyond the expected one: the window moves past the gap.
pub check_ahead : ReplayWindow → ℕ → Result ReplayWindow CircuitError
check_ahead w counter =
    let diff = counter - w.next_expected in
    if ltb max_seq_gap diff
    then err anti_replay_rejection
    else ok (record {
      window = if leb 63 diff then 1 else set_bit (shl64 w.window (diff + 1)) 0;
      next_expected = counter + 1;
    })

unfoldable pub check_and_advance : ReplayWindow → ℕ → Result ReplayWindow CircuitError
unfolding check_old check_ahead
check_and_advance w seq =
    let counter = counter_of seq in
    if ltb counter w.next_expected
    then check_old w counter
    else if counter == w.next_expected
    then ok (record { window = set_bit (shl64 w.window 1) 0; next_expected = counter + 1 })
    else check_ahead w counter
