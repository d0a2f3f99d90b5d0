-- ===== src/Core/Examples.antt =====
-- Tests of the modules of src/core at concrete inputs.
use anon_guard.Base.{◌≡◌, refl, true, false, some, List, [], ◌∷◌}
use anon_guard.Core.GuardedSocket.{
  active_guarded, dropped_fail_closed, Call, Poll, write, pending, GuardedSocket, new_socket,
  begin_verification, mark_verified, trip_kill_switch, into_inner, is_kill_switch_tripped,
  send_guarded, poll_write, sends, trips, Steps, stay, go_on,
}
use anon_guard.Core.GuardedSocket.FailClosed.{Steps-frozen}

abbrev never_ready : List Call → Call → Poll
never_ready calls call = pending

abbrev live : GuardedSocket active_guarded
live = mark_verified (begin_verification (new_socket false))

abbrev used : GuardedSocket active_guarded
used = (send_guarded never_ready live (1 ∷ 2 ∷ [])).0

reached : into_inner used ≡ some (write (1 ∷ 2 ∷ []) ∷ [])
unfolding into_inner send_guarded poll_write mark_verified begin_verification
reached = refl

-- Another owner sets the flag of the socket, then it is used again and dropped.
abbrev blocked : GuardedSocket active_guarded
blocked = record used { kill_switch = true }

abbrev tried : GuardedSocket active_guarded
tried = (send_guarded never_ready blocked (3 ∷ [])).0

abbrev gone : GuardedSocket dropped_fail_closed
gone = trip_kill_switch tried

abbrev attempt : Steps never_ready active_guarded dropped_fail_closed blocked gone
attempt =
    go_on active_guarded active_guarded dropped_fail_closed blocked tried gone
      (sends blocked (3 ∷ []))
      (go_on active_guarded dropped_fail_closed dropped_fail_closed tried gone gone (trips tried)
        (stay dropped_fail_closed gone))

Steps-frozen_example : (is_kill_switch_tripped gone ≡ true) × (into_inner gone ≡ into_inner blocked)
unfolding is_kill_switch_tripped
Steps-frozen_example =
    Steps-frozen never_ready active_guarded dropped_fail_closed blocked gone attempt
      (refl, (refl, tt)) refl
