-- ===== src/Onion/Session/Frame.antt =====
-- The cells that arrive in `run` of src/onion/session.rs, and what its tasks report.
use anon_guard.Base.{
  ℕ, ◌+◌, ◌-◌, Bool, true, false, not, ◌&&◌, ◌||◌, Option, none, some, List, [], ◌∷◌, ltb, leb,
  ◌==◌, if◌then◌else◌, length, contains, bytes_eq, u32_max, Result, ok, err,
}
use anon_guard.Onion.Cell.{
  CellCommand, stream_data, data_ack, dummy, end, session_open, session_opened, session_refused,
  session_finish, session_finished, session_reset,
}
use anon_guard.Onion.CircuitError.{CircuitError}
use anon_guard.Onion.Flow.{SendWindow, FlowError, window_cells, acknowledge}
use anon_guard.Onion.Payload.{decode_relay_target, encode_relay_target}
use anon_guard.Onion.Session.State.{
  Session, Stream, SessionError, Stop, finished, failed, unknown_stream, duplicate_open,
  missing_reply, refused_after_open, credit_violation, count_exhausted, queue_exhausted, early_ack,
  flow_violation, duplicate_end, invalid_command, invalid_write, unexpected_connect, noncanonical,
  missing_policy, max_streams, max_ids, attach, find, put, insert_stream, without, push, close,
}

abbrev pub Stepped : Type 0
Stepped = Result Session Stop

-- A cell, as `incoming` gives it. `queued` is whether the channel to the writer takes the data,
-- `taken` whether the opener still waits.
pub record Frame : Type 0 where
  pub command : CellCommand
  pub id : ℕ
  pub body : List ℕ
  pub queued : Bool
  pub taken : Bool

abbrev pub with_stream : Option Stream → SessionError → (Stream → Stepped) → Stepped
with_stream none e f = err (failed e)
with_stream (some x) e f = f x

abbrev pub is_empty {ℓ} : {A : Type ℓ} → List A → Bool
is_empty [] = true
is_empty (x ∷ xs) = false

-- The target must be the one form that the encoder makes.
abbrev canonical : List ℕ → List ℕ × ℕ → Result (List ℕ) CircuitError → Bool
canonical body (host, port) (err e) = false
canonical body (host, port) (ok encoded) =
    not (is_empty host) && (not (port == 0) && bytes_eq encoded body)

abbrev pub check_target : List ℕ → Result (List ℕ × ℕ) CircuitError → Bool
check_target body (err e) = false
check_target body (ok target) = canonical body target (encode_relay_target target.0 target.1)

-- `reply` and `application` are taken out of the stream.
abbrev pub opened : Session → Frame → Stream → Stepped
opened s f x =
    if x.ready
    then err (failed duplicate_open)
    else if not x.reply || not x.application
    then err (failed missing_reply)
    else if f.taken
    then ok (record s {
      streams = put f.id (record x { ready = true; reply = false; application = false }) s.streams;
    })
    else ok (push (session_reset, f.id, []) (close f.id s))

abbrev pub refuse : Session → Frame → Stream → Stepped
refuse s f x = if x.ready then err (failed refused_after_open) else ok (close f.id s)

abbrev pub receive_data : ℕ → Session → Frame → Stream → Stepped
receive_data now s f x =
    if not x.ready
      || (x.received_end || (is_empty f.body || leb window_cells (x.received - x.written)))
    then err (failed credit_violation)
    else if x.received == u32_max
    then err (failed count_exhausted)
    else if not f.queued
    then err (failed queue_exhausted)
    else ok (record s {
      streams = put f.id (record x { received = x.received + 1 }) s.streams;
      activity = now;
    })

abbrev pub take_ack : Session → Frame → Stream → Result SendWindow FlowError → Stepped
take_ack s f x (err e) = err (failed flow_violation)
take_ack s f x (ok w) = ok (record s { streams = put f.id (record x { window = w }) s.streams })

abbrev pub receive_ack : Session → Frame → Stream → Stepped
receive_ack s f x =
    if not x.ready then err (failed early_ack) else take_ack s f x (acknowledge x.window f.body)

abbrev pub receive_end : ℕ → Session → Frame → Stream → Stepped
receive_end now s f x =
    if not x.ready || x.received_end
    then err (failed duplicate_end)
    else if not f.queued
    then err (failed queue_exhausted)
    else ok (record s {
      streams = put f.id (record x { received_end = true }) s.streams;
      activity = now;
    })

abbrev invalid : Stepped
invalid = err (failed invalid_command)

abbrev pub late : CellCommand → Bool
late stream_data = true
late data_ack = true
late end = true
late session_opened = true
late session_refused = true
late _ = false

module _ (utf8 : List ℕ → Bool) (has_policy : Bool) (now : ℕ) where
  abbrev pub open_target : Session → ℕ → List ℕ → Stepped
  open_target s id body =
      if leb max_streams (length s.streams + length s.connecting)
      then ok (push (session_refused, id, 1 ∷ []) s)
      else if not (check_target body (decode_relay_target utf8 body))
      then err (failed noncanonical)
      else if not has_policy
      then err (failed missing_policy)
      else ok (record s { connecting = id ∷ s.connecting; activity = now })

  -- The arms of the match on the command, with their guards.
  unfoldable pub receive : Session → Frame → CellCommand → Stepped
  receive s f dummy = if (f.id == 0) && is_empty f.body then ok s else invalid
  receive s f session_open =
      if not s.client && (not s.peer_finish && (ltb s.last_id f.id && leb f.id max_ids))
      then open_target (record s { last_id = f.id }) f.id f.body
      else invalid
  receive s f session_opened =
      if s.client && is_empty f.body
      then with_stream (find f.id s.streams) unknown_stream (opened s f)
      else invalid
  receive s f session_refused =
      if s.client && bytes_eq f.body (1 ∷ [])
      then with_stream (find f.id s.streams) unknown_stream (refuse s f)
      else invalid
  receive s f stream_data = with_stream (find f.id s.streams) unknown_stream (receive_data now s f)
  receive s f data_ack = with_stream (find f.id s.streams) unknown_stream (receive_ack s f)
  receive s f end =
      if is_empty f.body
      then with_stream (find f.id s.streams) unknown_stream (receive_end now s f)
      else invalid
  receive s f session_reset =
      if ltb 0 f.id && (leb f.id s.last_id && is_empty f.body)
      then ok (close f.id (record s { connecting = without f.id s.connecting }))
      else invalid
  receive s f session_finish =
      if not s.client
        && ((f.id == 0)
            && (is_empty f.body
                && (is_empty s.streams && (is_empty s.connecting && not s.peer_finish))))
      then ok (record s { peer_finish = true })
      else invalid
  receive s f session_finished =
      if s.client && (s.finishing && ((f.id == 0) && is_empty f.body))
      then err (finished [])
      else invalid
  receive s f _ = invalid

  -- Cells that were under way when the stream was closed are passed over.
  abbrev pub on_frame : Session → Frame → Stepped
  on_frame s f = if contains s.closed f.id && late f.command then ok s else receive s f f.command

-- `Event::Written`
abbrev pub write_done : Session → ℕ → ℕ → Option Stream → Stepped
write_done s id count none = ok s
write_done s id count (some x) =
    if not (count == x.written + 1) || ltb x.received count
    then err (failed invalid_write)
    else ok
        (record s { streams = put id (record x { written = count; ack = some count }) s.streams })

-- `Event::Connected`
abbrev pub connect_done : Session → ℕ → Bool → Stepped
connect_done s id success =
    let t = record s { connecting = without id s.connecting } in
    if s.client
    then err (failed unexpected_connect)
    else if not (contains s.connecting id)
    then ok s
    else if success
    then ok
        (push (session_opened, id, []) (record t { streams = insert_stream id attach s.streams }))
    else ok (push (session_refused, id, 1 ∷ []) t)

-- `Event::Failed`
abbrev pub task_failed : Session → ℕ → Option Stream → Stepped
task_failed s id none = ok s
task_failed s id (some x) = ok (push (session_reset, id, []) (close id s))

-- A request of the owner to open a stream; the bad ones are answered, and change nothing.
abbrev pub open_encoded : Session → ℕ → Result (List ℕ) CircuitError → Stepped
open_encoded s now (err e) = ok s
open_encoded s now (ok target) = ok (
    push (session_open, s.last_id + 1, target)
      (record s {
        last_id = s.last_id + 1;
        streams =
            insert_stream (s.last_id + 1)
              (record attach { ready = false; reply = true; application = true }) s.streams;
        activity = now;
      }))

abbrev pub open_request : Session → ℕ → List ℕ → ℕ → Stepped
open_request s now host port =
    if leb max_streams (length s.streams) || leb max_ids s.last_id
    then ok s
    else if (port == 0) || is_empty host
    then ok s
    else open_encoded s now (encode_relay_target host port)
