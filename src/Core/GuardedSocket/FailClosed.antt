-- ===== src/Core/GuardedSocket/FailClosed.antt =====
-- The kill switch of the sockets of src/core/state_machine.rs, over runs of a socket.
use anon_guard.Base.{◌≡◌, refl, ◌∙◌, Bool, true, false, List, arith}
use anon_guard.Core.GuardedSocket.{
  State, Call, Poll, GuardedSocket, begin_verification, mark_verified, fail_verification,
  trip_kill_switch, into_inner, is_kill_switch_tripped, poll_read, poll_write, poll_flush,
  poll_shutdown, send_guarded, recv_guarded, Step, begins, passes, fails, trips, sends, receives,
  reads, writes, flushes, shuts, tripped_elsewhere, reset_elsewhere, Steps, stay, go_on,
}

module _ (inner : List Call → Call → Poll) where
  abbrev resets :
      (s t : State) (g : GuardedSocket s) (h : GuardedSocket t) → Step inner s t g h → Bool
  resets s t g h (reset_elsewhere _ _) = true
  resets s t g h _ = false

  -- No other owner resets the flag during the run.
  abbrev pub Unreset :
      (s t : State) (g : GuardedSocket s) (h : GuardedSocket t) → Steps inner s t g h → Type 0
  Unreset s t g h (stay _ _) = Unit {0}
  Unreset s t g h (go_on _ m _ _ k _ step rest) =
      (resets s m g k step ≡ false) × Unreset m t k h rest

  Step-frozen :
      (s t : State) (g : GuardedSocket s) (h : GuardedSocket t) (step : Step inner s t g h)
      → resets s t g h step ≡ false
      → g.kill_switch ≡ true
      → (h.kill_switch ≡ true) × (h.stream ≡ g.stream)
  unfolding begin_verification mark_verified fail_verification trip_kill_switch poll_read poll_write
      poll_flush poll_shutdown send_guarded recv_guarded
  Step-frozen s t g h (begins _) r e = (e, refl)
  Step-frozen s t g h (passes _) r e = (e, refl)
  Step-frozen s t g h (fails _) r e = (refl, refl)
  Step-frozen s t g h (trips _) r e = (refl, refl)
  Step-frozen s t g h (sends _ buf) r e = ground arith
  Step-frozen s t g h (receives _ room) r e = ground arith
  Step-frozen s t g h (reads _ room) r e = ground arith
  Step-frozen s t g h (writes _ buf) r e = ground arith
  Step-frozen s t g h (flushes _) r e = ground arith
  Step-frozen s t g h (shuts _) r e = ground arith
  Step-frozen s t g h (tripped_elsewhere _ _) r e = (refl, refl)
  Step-frozen s t g h (reset_elsewhere _ _) r e = cc

  -- Once the kill switch is tripped, and as long as no owner of the flag resets it, it stays
  -- tripped whatever is done with the socket in whatever order, and the stream that is taken out
  -- of it at last is the one that it held then: no further call reached it.
  pub Steps-frozen :
      (s t : State) (g : GuardedSocket s) (h : GuardedSocket t) (steps : Steps inner s t g h)
      → Unreset s t g h steps
      → is_kill_switch_tripped g ≡ true
      → (is_kill_switch_tripped h ≡ true) × (into_inner h ≡ into_inner g)
  unfolding is_kill_switch_tripped into_inner
  Steps-frozen s t g h (stay _ _) u e = (e, refl)
  Steps-frozen s t g h (go_on _ m _ _ k _ step rest) (r, u) e =
      let (f, same) = Step-frozen s m g k step r e in
      let (f, last) = Steps-frozen m t k h rest u f in (f, last ∙ same)
