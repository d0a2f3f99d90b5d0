-- ===== src/Onion/Flow.antt =====
-- src/onion/flow.rs: the cumulative send window of one stream.
pub mod Credit
use anon_guard.Base.{
  ℕ, ◌+◌, ◌-◌, Bool, not, ◌||◌, List, ltb, leb, ◌==◌, if◌then◌else◌, length, from_be, u32_max,
  Result, ok, err,
}

abbrev pub window_cells : ℕ
window_cells = 32

-- `acknowledged` of the struct is `acked`; the method `sent` is `send`.
pub record SendWindow : Type 0 where
  pub sent : ℕ
  pub acked : ℕ

pub data FlowError : Type 0 where
  window_exhausted counter_exhausted invalid_size invalid_ack : FlowError

abbrev pub fresh : SendWindow
fresh = record { sent = 0; acked = 0 }

unfoldable pub drained : SendWindow → Bool
drained w = w.sent == w.acked

pub available : SendWindow → Bool
available w = ltb (w.sent - w.acked) window_cells

pub send : SendWindow → Result SendWindow FlowError
unfolding available
send w =
    if not (available w)
    then err window_exhausted
    else if w.sent == u32_max
    then err counter_exhausted
    else ok (record w { sent = w.sent + 1 })

-- The payload must be four bytes, read big-endian.
pub acknowledge : SendWindow → List ℕ → Result SendWindow FlowError
acknowledge w payload =
    let value = from_be payload in
    if not (length payload == 4)
    then err invalid_size
    else if leb value w.acked || ltb w.sent value
    then err invalid_ack
    else ok (record w { acked = value })
