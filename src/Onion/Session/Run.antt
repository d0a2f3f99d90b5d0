-- ===== src/Onion/Session/Run.antt =====
-- The loop of `run` of src/onion/session.rs: one round takes one event. Writing, encryption, the
-- receive budget, which is in floating point, and the tasks come in as what they did.
use anon_guard.Base.{
  ℕ, ◌+◌, ◌-◌, Bool, true, false, not, ◌&&◌, ◌||◌, Option, none, some, List, [], ◌∷◌, ◌++◌, map,
  ltb, leb, ◌==◌, if◌then◌else◌, length, retain, be32, u64_max, Result, ok, err, ◌>>=◌,
}
use anon_guard.Onion.Cell.{
  CellCommand, stream_data, data_ack, dummy, end, session_finish, session_finished, session_reset,
}
use anon_guard.Onion.Flow.{SendWindow, FlowError, available, drained, send}
use anon_guard.Onion.Session.Profile.{can_finish}
use anon_guard.Onion.Session.Outgoing.{Outgoing, TryRecvError, empty, disconnected, try_next}
use anon_guard.Onion.Session.State.{
  Session, Stream, Streams, Control, Stop, unknown_stream, finished, failed, lifetime_expired,
  control_budget, count_exhausted, flow_violation, truncated, rate_budget, owner_closed, bad_cell,
  write_failed, worker_panicked, lifetime, max_controls, find, put, push, close,
}
use anon_guard.Onion.Session.Frame.{
  Stepped, Frame, is_empty, on_frame, write_done, connect_done, task_failed, open_request,
}

-- A frame that cannot be taken: the reader is gone, the budget is spent, or the cell is refused.
pub data Incoming : Type 0 where
  gone over_budget refused : Incoming
  arrived : Frame → Incoming

-- `tick` carries whether the write succeeds, and which replies are closed by then; `queued` and
-- `hung_up` are what the task that reads a stream puts into its channel.
pub data Event : Type 0 where
  tick : Bool → (ℕ → Bool) → Event
  asked : List ℕ → ℕ → Event
  owner_gone panicked : Event
  written : ℕ → ℕ → Event
  connected : ℕ → Bool → Event
  task_error : ℕ → Event
  incoming : Incoming → Event
  queued : ℕ → List ℕ → Event
  hung_up : ℕ → Event

abbrev pub Picked : Type 0
Picked = Stream × Option (CellCommand × List ℕ)

abbrev pub taken : Stream → Outgoing → List ℕ → Result SendWindow FlowError → Result Picked Stop
taken x o body (err e) = err (failed flow_violation)
taken x o body (ok w) = ok (record x { outgoing = o; window = w }, some (stream_data, body))

abbrev pub from_queue : Stream → Result (Outgoing × List ℕ) TryRecvError → Result Picked Stop
from_queue x (ok (o, body)) = taken x o body (send x.window)
from_queue x (err disconnected) = ok (record x { sent_end = true }, some (end, []))
from_queue x (err empty) = ok (x, none)

abbrev pub acked_or_next : Stream → Option ℕ → Result Picked Stop
acked_or_next x (some ack) = ok (record x { ack = none }, some (data_ack, be32 ack))
acked_or_next x none =
    if not x.sent_end && available x.window
    then from_queue x (try_next x.outgoing)
    else ok (x, none)

-- What a stream has to send.
abbrev pub offer : Stream → Result Picked Stop
offer x = if not x.ready then ok (x, none) else acked_or_next x x.ack

abbrev pub Selected : Type 0
Selected = Session × Option Control

abbrev pub settle : Session → ℕ → Result Selected Stop → Picked → Result Selected Stop
settle s id rest (x, none) = rest
settle s id rest (x, some (command, body)) =
    ok (record s { streams = put id x s.streams; cursor = id }, some (command, id, body))

abbrev offered : Session → ℕ → Option Stream → Result Selected Stop → Result Selected Stop
offered s id none rest = err (failed unknown_stream)
offered s id (some x) rest = offer x >>= settle s id rest

-- The streams in turn, until one has something.
unfoldable pub pick : Session → List ℕ → Result Selected Stop
pick s [] = ok (s, none)
pick s (id ∷ ids) = offered s id (find id s.streams) (pick s ids)

abbrev ids_of : Streams → List ℕ
ids_of xs = map (λ e. e.0) xs

abbrev pub turn_order : Session → List ℕ
turn_order s =
    retain (λ id. ltb s.cursor id) (ids_of s.streams)
    ++ retain (λ id. leb id s.cursor) (ids_of s.streams)

abbrev pub popped : Session → List Control → Selected
popped s [] = (s, none)
popped s (c ∷ cs) = (record s { controls = cs }, some c)

abbrev pub pop_control : Session → Selected
pop_control s = popped s s.controls

abbrev pub from_streams : ℕ → Selected → Result Selected Stop
from_streams now (s, some c) = ok (s, some c)
from_streams now (s, none) = if leb 1000000000 now then pick s (turn_order s) else ok (s, none)

abbrev pub filled : Selected → Session × Control
filled (t, some c) = (t, c)
filled (t, none) = (t, (dummy, 0, []))

abbrev pub or_control : Selected → Session × Control
or_control (s, some c) = (s, c)
or_control (s, none) = filled (pop_control s)

-- The control queue goes first in every other round.
abbrev pub select : ℕ → Session → Result (Session × Control) Stop
select now s =
    let t = record s { prefer_control = not s.prefer_control } in
    from_streams now (if t.prefer_control then pop_control t else (t, none)) >>= λ r.
    ok (or_control r)

abbrev pub is_retired : Stream → Bool
is_retired x =
    x.sent_end
    && (x.received_end && (drained x.window && ((x.received == x.written) && no_ack x.ack)))
  where
    no_ack : Option ℕ → Bool
    no_ack none = true
    no_ack (some a) = false

-- The streams that are done go, one by one.
unfoldable pub retire_all : Streams → Session → Session
retire_all [] s = s
retire_all ((id, x) ∷ xs) s =
    let rest = retire_all xs (close id s) in
    let kept = retire_all xs s in if is_retired x then rest else kept

unfoldable pub cancel_all : (ℕ → Bool) → Streams → Session → Session
cancel_all reply_closed [] s = s
cancel_all reply_closed ((id, x) ∷ xs) s =
    let rest = cancel_all reply_closed xs (push (session_reset, id, []) (close id s)) in
    let kept = cancel_all reply_closed xs s in if x.reply && reply_closed id then rest else kept

abbrev Emitted : Type 0
Emitted = Result (Session × List Control) Stop

abbrev pub after_write : Bool → (ℕ → Bool) → Session × Control → Emitted
after_write success reply_closed (s, c) =
    if not success
    then err (failed write_failed)
    else if s.cells == u64_max
    then err (failed count_exhausted)
    else let t = record s { cells = s.cells + 1 } in
      let u = retire_all t.streams t in ok (cancel_all reply_closed u.streams u, c ∷ [])

-- The exit's answer is its last cell, if it can be written.
abbrev pub answered : Bool → Stop
answered true = finished ((session_finished, 0, []) ∷ [])
answered false = failed write_failed

-- The two ends of a finish: the client asks once, and the exit answers and stops.
abbrev pub finish_part : ℕ → Bool → Session → Stepped
finish_part now success s =
    let idle = is_empty s.streams && (is_empty s.connecting && is_empty s.controls) in
    if idle && can_finish s.profile now (now - s.activity) s.cells
    then (if s.client
        then ok (
            if not s.finishing
            then push (session_finish, 0, []) (record s { finishing = true })
            else s)
        else if s.peer_finish
        then err (answered success)
        else ok s)
    else ok s

abbrev pub on_tick : ℕ → Bool → (ℕ → Bool) → Session → Emitted
on_tick now success reply_closed s =
    finish_part now success s >>= λ t. select now t >>= after_write success reply_closed

abbrev pub silent : Stepped → Emitted
silent (ok s) = ok (s, [])
silent (err e) = err e

-- The reading task of a stream fills its channel.
abbrev pub fed : Session → ℕ → Option Stream → (Outgoing → Outgoing) → Session
fed s id none f = s
fed s id (some x) f = record s { streams = put id (record x { outgoing = f x.outgoing }) s.streams }

module _ (utf8 : List ℕ → Bool) (has_policy : Bool) where
  abbrev pub on_incoming : ℕ → Session → Incoming → Stepped
  on_incoming now s gone = err (failed truncated)
  on_incoming now s over_budget = err (failed rate_budget)
  on_incoming now s refused = err (failed bad_cell)
  on_incoming now s (arrived f) = on_frame utf8 has_policy now s f

  abbrev pub handle : ℕ → Session → Event → Emitted
  handle now s (tick success reply_closed) = on_tick now success reply_closed s
  handle now s (asked host port) =
      if not s.client || s.finishing then ok (s, []) else silent (open_request s now host port)
  handle now s owner_gone =
      if not s.client || s.finishing then ok (s, []) else err (failed owner_closed)
  handle now s panicked = err (failed worker_panicked)
  handle now s (written id count) = silent (write_done s id count (find id s.streams))
  handle now s (connected id success) = silent (connect_done s id success)
  handle now s (task_error id) = silent (task_failed s id (find id s.streams))
  handle now s (incoming i) = silent (on_incoming now s i)
  handle now s (queued id body) =
      ok (fed s id (find id s.streams) (λ o. record o { queue = o.queue ++ body ∷ [] }), [])
  handle now s (hung_up id) =
      ok (fed s id (find id s.streams) (λ o. record o { open_end = false }), [])

  -- One round of the loop, entered at a time, with an event at another.
  abbrev pub round : ℕ → ℕ → Session → Event → Emitted
  round entered now s e =
      if leb lifetime entered
      then err (failed lifetime_expired)
      else if ltb max_controls (length s.controls)
      then err (failed control_budget)
      else handle now s e
