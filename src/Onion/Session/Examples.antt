-- ===== src/Onion/Session/Examples.antt =====
-- Tests of src/onion/session.rs at concrete inputs.
use anon_guard.Base.{
  take, replicate, ℕ, ◌+◌, ◌-◌, ◌≤◌, ◌<◌, ◌≡◌, refl, Bool, true, false, none, some, List, [], ◌∷◌,
  ◌++◌, arith, All, contains, codes, Holds, ok,
}
use anon_guard.Onion.Cell.{
  CellCommand, OnionCell, new, serialize, to_u8, session_opened, stream_data, session_reset,
}
use anon_guard.Onion.Payload.{encode_relay_target}
use anon_guard.Onion.Samples
use anon_guard.Onion.Samples.{swapping, swapping-IsCipher}
use anon_guard.Onion.Circuit.{wrap_forward, peel_forward}
use anon_guard.Onion.Circuit.Forward.{forward_path}
use anon_guard.Onion.Session.Secured.{Crypto, outgoing, incoming as read_cell}
use anon_guard.Onion.Session.Secured.Crossing.{outgoing-incoming}
use anon_guard.Onion.Session.Profile.{balanced, can_finish}
use anon_guard.Onion.Session.Profile.Finish.{volume, patience, can_finish-soon}
use anon_guard.Onion.Session.Outgoing.{Outgoing, nothing}
use anon_guard.Onion.Session.Outgoing.Drain.{IsChunk, flat, content, drain, drain-content}
use anon_guard.Onion.Session.State.{Session, new_session, find, insert_stream}
use anon_guard.Onion.Session.Frame.{Frame, receive}
use anon_guard.Onion.Session.Run.{
  Event, tick, asked, incoming, arrived, pick, retire_all, cancel_all,
}
use anon_guard.Onion.Session.Sound.{IsSession}
use anon_guard.Onion.Session.Sound.Reached.{Round, run, run-IsSession, run-closed}

can_finish-soon_example :
    (i : ℕ) × (i < volume balanced)
    × ((age : ℕ) → 7 + patience balanced ≤ age → can_finish balanced age (age - 7) (100 + i) ≡ true)
can_finish-soon_example = can_finish-soon balanced 100 7

-- A remainder and two reads.
abbrev waiting : Outgoing
waiting = record { queue = (2 ∷ []) ∷ (3 ∷ 4 ∷ []) ∷ []; open_end = false; pending = some (1 ∷ []) }

drain-content_example :
    (cells : List (List ℕ)) × (drain 4 waiting ≡ some (cells, nothing waiting))
    × (flat cells ≡ content waiting)
    × All IsChunk cells
drain-content_example =
    drain-content waiting 4
      (record {
        queued = ((omega arith, omega arith), ((omega arith, omega arith), tt));
        remainder = (omega arith, omega arith);
      })
      (omega arith)

abbrev at : ℕ → Event → Round
at now e = record { entered = now; now = now; event = e }

abbrev frame : CellCommand → ℕ → List ℕ → Frame
frame command id body = record {
  command = command;
  id = id;
  body = body;
  queued = true;
  taken = true;
}

abbrev any_text : List ℕ → Bool
any_text bytes = true

-- A client opens a stream, the exit takes it, data comes in, and the exit resets the stream.
abbrev opening : List Round
opening =
    at 1 (asked (codes "a.b") 443)
    ∷ at 2 (tick true (λ id. false))
    ∷ at 3 (incoming (arrived (frame session_opened 1 [])))
    ∷ at 4 (incoming (arrived (frame stream_data 1 (5 ∷ 6 ∷ []))))
    ∷ []

abbrev reset : List Round
reset = opening ++ at 5 (incoming (arrived (frame session_reset 1 []))) ∷ []

abbrev late_data : List Round
late_data =
    at 6 (incoming (arrived (frame stream_data 1 (7 ∷ [])))) ∷ at 7 (tick true (λ id. false)) ∷ []

run-IsSession_example : Holds IsSession (run any_text false (new_session true balanced) opening)
run-IsSession_example = run-IsSession any_text false true balanced opening

after_reset :
    (s : Session) × (run any_text false (new_session true balanced) reset ≡ ok s)
    × (contains s.closed 1 ≡ true)
unfolding run insert_stream find receive can_finish pick retire_all cancel_all encode_relay_target
after_reset = (_, refl, refl)

run-closed_example :
    Holds
      (λ t. (find 1 t.streams ≡ none) × (contains t.closed 1 ≡ true))
      (run any_text false after_reset.0 late_data)
run-closed_example =
    run-closed any_text false true balanced reset late_data after_reset.0 1 after_reset.1
      after_reset.2

abbrev question : List ℕ
question = codes "GET /"

-- The buffer that the client sends, and what the relay hands on.
sent_get :
    (k : Crypto) × (wire : List ℕ) × (arrived : List ℕ) × (outgoing swapping
        (Crypto.client Samples.client)
        (replicate 32 9)
        stream_data
        5
        question
      ≡ ok (k, wire))
    × (forward_path swapping (Samples.middle ∷ []) wire ≡ some arrived)
unfolding outgoing new wrap_forward serialize to_u8 forward_path peel_forward
sent_get = (_, _, _, refl, refl)

outgoing-incoming_example :
    (cell : OnionCell) × (read_cell swapping (Crypto.exit Samples.exit) sent_get.2
      ≡ ok (Crypto.exit (record Samples.exit { expected_recv_seq = 4 }), cell))
    × (cell.command ≡ stream_data)
    × (cell.stream_id ≡ 5)
    × (take cell.len cell.payload ≡ question)
    × (sent_get.0 ≡ Crypto.client (record Samples.client { sequence_no = 4 }))
outgoing-incoming_example =
    outgoing-incoming swapping Samples.client sent_get.0 Samples.exit (Samples.middle ∷ [])
      (replicate 32 9) stream_data 5 question sent_get.1 sent_get.2 swapping-IsCipher (omega arith)
      (omega arith) (omega arith) refl refl refl (omega arith) (omega arith) sent_get.3 sent_get.4
