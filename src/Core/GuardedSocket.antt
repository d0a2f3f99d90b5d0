-- ===== src/Core/GuardedSocket.antt =====
-- src/core/state_machine.rs: a socket whose state is in its type, and the kill switch that
-- each of its polls looks at. The inner stream is a parameter: what it answers to a call. A
-- socket keeps the calls that reached its stream.
pub mod FailClosed
use anon_guard.Base.{ℕ, Bool, true, false, Option, none, some, List, [], ◌∷◌, if◌then◌else◌}

pub data State : Type 0 where
  uninitialized verifying active_guarded dropped_fail_closed : State

pub data Call : Type 0 where
  read : ℕ → Call
  write : List ℕ → Call
  flush shutdown : Call

pub data Poll : Type 0 where
  pending : Poll
  ready : ℕ → Poll
  failed kill_switch_tripped dropped : Poll

-- `stream` is `none` once it is taken; `kill_switch` is the value of the shared flag.
pub record GuardedSocket (s : State) : Type 0 where
  pub stream : Option (List Call)
  pub kill_switch : Bool

abbrev pub new_socket : Bool → GuardedSocket uninitialized
new_socket kill_switch = record { stream = some []; kill_switch = kill_switch }

abbrev into_state : {s : State} (t : State) → GuardedSocket s → GuardedSocket t
into_state t g = record { stream = g.stream; kill_switch = g.kill_switch }

abbrev tripped : {s : State} → GuardedSocket s → GuardedSocket s
tripped g = record g { kill_switch = true }

abbrev untripped : {s : State} → GuardedSocket s → GuardedSocket s
untripped g = record g { kill_switch = false }

unfoldable pub begin_verification : GuardedSocket uninitialized → GuardedSocket verifying
begin_verification g = into_state verifying g

unfoldable pub mark_verified : GuardedSocket verifying → GuardedSocket active_guarded
mark_verified g = into_state active_guarded g

pub fail_verification : GuardedSocket verifying → GuardedSocket dropped_fail_closed
fail_verification g = into_state dropped_fail_closed (tripped g)

pub trip_kill_switch : GuardedSocket active_guarded → GuardedSocket dropped_fail_closed
trip_kill_switch g = into_state dropped_fail_closed (tripped g)

-- What the last owner gets: the bare stream, with the calls that reached it.
unfoldable pub into_inner : {s : State} → GuardedSocket s → Option (List Call)
into_inner g = g.stream

unfoldable pub is_kill_switch_tripped : {s : State} → GuardedSocket s → Bool
is_kill_switch_tripped g = g.kill_switch

module _ (inner : List Call → Call → Poll) where
  -- The stream gets the call, or there is none and the poll has this answer.
  abbrev pass_on :
      GuardedSocket active_guarded
      → Call
      → Poll
      → Option (List Call)
      → GuardedSocket active_guarded × Poll
  pass_on g call absent none = (g, absent)
  pass_on g call absent (some calls) = (record g { stream = some (call ∷ calls) }, inner calls call)

  abbrev guarded : GuardedSocket active_guarded → Call → Poll → GuardedSocket active_guarded × Poll
  guarded g call absent =
      if g.kill_switch then (g, kill_switch_tripped) else pass_on g call absent g.stream

  pub poll_read : GuardedSocket active_guarded → ℕ → GuardedSocket active_guarded × Poll
  poll_read g room = guarded g (read room) dropped

  unfoldable pub poll_write :
      GuardedSocket active_guarded → List ℕ → GuardedSocket active_guarded × Poll
  poll_write g buf = guarded g (write buf) dropped

  pub poll_flush : GuardedSocket active_guarded → GuardedSocket active_guarded × Poll
  poll_flush g = guarded g flush (ready 0)

  pub poll_shutdown : GuardedSocket active_guarded → GuardedSocket active_guarded × Poll
  poll_shutdown g = guarded g shutdown (ready 0)

  -- The first poll of the future of `send_guarded`; the later ones are those of `poll_write`.
  unfoldable pub send_guarded :
      GuardedSocket active_guarded → List ℕ → GuardedSocket active_guarded × Poll
  send_guarded g buf = if g.kill_switch then (g, kill_switch_tripped) else poll_write g buf

  -- The first poll of the future of `recv_guarded`.
  pub recv_guarded : GuardedSocket active_guarded → ℕ → GuardedSocket active_guarded × Poll
  recv_guarded g room = if g.kill_switch then (g, kill_switch_tripped) else poll_read g room

  -- What can happen to a socket: each operation of its state that leaves a socket, and another
  -- owner of the flag that trips it, or resets it as `KillSwitchController::reset` does.
  -- `into_inner` ends the socket: what is done with the bare stream is not a step of it.
  pub data Step : (s t : State) → GuardedSocket s → GuardedSocket t → Type 0 where
    begins :
        (g : GuardedSocket uninitialized) → Step uninitialized verifying g (begin_verification g)
    passes : (g : GuardedSocket verifying) → Step verifying active_guarded g (mark_verified g)
    fails :
        (g : GuardedSocket verifying) → Step verifying dropped_fail_closed g (fail_verification g)
    trips :
        (g : GuardedSocket active_guarded)
        → Step active_guarded dropped_fail_closed g (trip_kill_switch g)
    sends :
        (g : GuardedSocket active_guarded) (buf : List ℕ)
        → Step active_guarded active_guarded g (send_guarded g buf).0
    receives :
        (g : GuardedSocket active_guarded) (room : ℕ)
        → Step active_guarded active_guarded g (recv_guarded g room).0
    reads :
        (g : GuardedSocket active_guarded) (room : ℕ)
        → Step active_guarded active_guarded g (poll_read g room).0
    writes :
        (g : GuardedSocket active_guarded) (buf : List ℕ)
        → Step active_guarded active_guarded g (poll_write g buf).0
    flushes :
        (g : GuardedSocket active_guarded) → Step active_guarded active_guarded g (poll_flush g).0
    shuts :
        (g : GuardedSocket active_guarded)
        → Step active_guarded active_guarded g (poll_shutdown g).0
    tripped_elsewhere : (s : State) (g : GuardedSocket s) → Step s s g (tripped g)
    reset_elsewhere : (s : State) (g : GuardedSocket s) → Step s s g (untripped g)

  pub data Steps : (s t : State) → GuardedSocket s → GuardedSocket t → Type 0 where
    stay : (s : State) (g : GuardedSocket s) → Steps s s g g
    go_on :
        (s t u : State) (g : GuardedSocket s) (h : GuardedSocket t) (k : GuardedSocket u)
        → Step s t g h
        → Steps t u h k
        → Steps s u g k
