-- ===== src/Onion/Flow/Credit.antt =====
-- The credit of src/onion/flow.rs: what the window lets through, over any history.
use anon_guard.Base.{
  ℕ, ◌-◌, ◌≤◌, ◌<◌, ◌≡◌, ◌↔◌, List, [], ◌∷◌, arith, length, from_be, u32_max, Result, Holds, ok,
  err,
}
use anon_guard.Onion.Flow.{SendWindow, FlowError, send, acknowledge, window_cells, invalid_ack}

-- What the subtractions of the source rely on, and the bound that the window enforces.
pub record IsWindow (w : SendWindow) : Type 0 where
  pub behind : w.acked ≤ w.sent
  pub in_flight : w.sent - w.acked ≤ window_cells
  pub fits : w.sent ≤ u32_max

pub send-IsWindow : (w : SendWindow) → IsWindow w → Holds IsWindow (send w)
unfolding send
send-IsWindow w v = ground arith

pub acknowledge-IsWindow :
    (w : SendWindow) (payload : List ℕ) → IsWindow w → Holds IsWindow (acknowledge w payload)
unfolding acknowledge
acknowledge-IsWindow w payload v = ground arith

pub data Event : Type 0 where
  cell : Event
  ack : List ℕ → Event

abbrev after : SendWindow → Result SendWindow FlowError → SendWindow
after w (ok v) = v
after w (err e) = w

step : SendWindow → Event → SendWindow
unfolding send acknowledge
step w cell = after w (send w)
step w (ack payload) = after w (acknowledge w payload)

pub run : SendWindow → List Event → SendWindow
run w [] = w
run w (e ∷ es) = run (step w e) es

step-IsWindow : (w : SendWindow) (e : Event) → IsWindow w → IsWindow (step w e)
unfolding step
step-IsWindow w cell v = ground arith
step-IsWindow w (ack payload) v = ground arith

-- From a window in order, any sequence of sends and acknowledgements, refused ones included,
-- leaves a window in order: nothing unsent is acknowledged, at most 32 cells are in flight, and
-- the counter stays a u32.
pub run-IsWindow : (w : SendWindow) (es : List Event) → IsWindow w → IsWindow (run w es)
unfolding run
run-IsWindow w [] v = v
run-IsWindow w (e ∷ es) v = run-IsWindow (step w e) es (step-IsWindow w e v)

-- On a window in order, an acknowledgement is accepted exactly when it is four bytes long and
-- its value grants new credit for cells that were sent; then the credit is its value, and the
-- same acknowledgement is refused from then on.
pub acknowledge-exact :
    (w v : SendWindow) (payload : List ℕ)
    → (acknowledge w payload ≡ ok v) ↔ (
        (length payload ≡ 4)
        × (w.acked < from_be payload)
        × (from_be payload ≤ w.sent)
        × (v ≡ record w { acked = from_be payload })
        × (acknowledge v payload ≡ err invalid_ack))
unfolding acknowledge
acknowledge-exact w v payload = (λ h. ground arith, λ h. ground arith)
