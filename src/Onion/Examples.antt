-- ===== src/Onion/Examples.antt =====
-- Tests of the modules of src/onion at concrete inputs.
use anon_guard.Base.{
  ℕ, ◌+◌, ◌*◌, ◌≤◌, ◌<◌, max, ◌≡◌, refl, ◌↔◌, false, List, [], ◌∷◌, ◌++◌, arith, length, min,
  replicate, be32, be64, from_be, ok, err, codes, Bool, true, take, drop, u64_max,
}
use anon_guard.Onion.Flow
use anon_guard.Onion.Flow.{SendWindow, acknowledge, invalid_ack}
use anon_guard.Onion.Flow.Credit
use anon_guard.Onion.Flow.Credit.{IsWindow, run, run-IsWindow, acknowledge-exact}
use anon_guard.Onion.Multipath.{MultiPathSlicer, new_reassembler, slice}
use anon_guard.Onion.Multipath.Packets.{slice-packet}
use anon_guard.Onion.Multipath.Order
use anon_guard.Onion.Multipath.Order.{InOrder, output-InOrder}
use anon_guard.Onion.Pacing.{next_deadline, next_deadline-bounds, next_deadline-phase}
use anon_guard.Onion.Padding.{day, record_real_packet, should_send_padding}
use anon_guard.Onion.Padding
use anon_guard.Onion.Padding.Quiet
use anon_guard.Onion.Padding.Quiet.{Event, packet, question, last_packet, run-quiet}
use anon_guard.Onion.Payload.{
  Extend, mlkem768_public_is_canonical, encode_extend_payload, decode_extend_payload,
}
use anon_guard.Onion.Payload.Wire.{IsExtend, decode_extend_payload-encode_extend_payload}
use anon_guard.Onion.Replay
use anon_guard.Onion.Replay.{ReplayWindow, check_and_advance}
use anon_guard.Onion.Replay.Window.{
  Judged, Distinct, accepted, fresh-Tracks, check_and_advance-Judged, accepted-Distinct,
}

-- The window.
abbrev events : List Credit.Event
events = Credit.cell ∷ Credit.cell ∷ Credit.ack (be32 1) ∷ Credit.ack (be32 9) ∷ []

run-IsWindow_example : IsWindow (run Flow.fresh events)
run-IsWindow_example =
    run-IsWindow Flow.fresh events
      (record { behind = omega arith; in_flight = omega arith; fits = omega arith })

abbrev three_sent : SendWindow
three_sent = record { sent = 3; acked = 1 }

abbrev two_acked : SendWindow
two_acked = record { sent = 3; acked = 2 }

acknowledge-exact_example : (acknowledge three_sent (be32 2) ≡ ok two_acked) ↔ (
    (length (be32 2) ≡ 4)
    × (three_sent.acked < from_be (be32 2))
    × (from_be (be32 2) ≤ three_sent.sent)
    × (two_acked ≡ record three_sent { acked = from_be (be32 2) })
    × (acknowledge two_acked (be32 2) ≡ err invalid_ack))
acknowledge-exact_example = acknowledge-exact three_sent two_acked (be32 2)

-- The pacing.
next_deadline-bounds_example :
    (1000 < next_deadline 0 1000 300) × (next_deadline 0 1000 300 ≤ max 0 1000 + 300)
next_deadline-bounds_example = next_deadline-bounds 0 1000 300 (omega arith)

next_deadline-phase_example : (k : ℕ) × (next_deadline 0 1000 300 ≡ 0 + 300 * k)
next_deadline-phase_example =
    next_deadline-phase 0 1000 300 (omega arith) (omega arith) (omega arith)

-- The reassembler: the second packet comes first.
abbrev numbers : ℕ → List ℕ
numbers k = k ∷ []

abbrev arrivals : List Order.Event
arrivals = Order.packet (be64 1 ++ 1 ∷ []) ∷ Order.packet (be64 0 ++ 0 ∷ []) ∷ Order.pop ∷ []

output-InOrder_example : (k : ℕ) × InOrder numbers new_reassembler arrivals k
output-InOrder_example =
    output-InOrder numbers new_reassembler arrivals (record { genuine = tt; bounded = omega arith })
      (refl, (refl, (tt, tt)))

-- The replay window.
check_and_advance-Judged_example :
    Judged Replay.fresh (λ c. false) 5 (check_and_advance Replay.fresh 5)
check_and_advance-Judged_example = check_and_advance-Judged Replay.fresh (λ c. false) 5 fresh-Tracks

accepted-Distinct_example : Distinct (accepted Replay.fresh (1 ∷ 1 ∷ 3 ∷ 2 ∷ 3 ∷ []))
accepted-Distinct_example = accepted-Distinct (1 ∷ 1 ∷ 3 ∷ 2 ∷ 3 ∷ [])

-- The payloads. Any bytes pass as text.
abbrev any_text : List ℕ → Bool
any_text bytes = true

abbrev extend : Extend
extend = record {
  host = codes "relay.example";
  port = 9001;
  client_pub = replicate 32 7;
  client_mlkem_pub = replicate 1184 0;
  hop_index = 1;
}

extend-IsExtend : IsExtend any_text extend
unfolding mlkem768_public_is_canonical
extend-IsExtend = record {
  hop_fits = omega arith;
  host_fits = omega arith;
  port_fits = omega arith;
  pub_size = refl;
  mlkem_size = refl;
  text = refl;
  canonical = refl;
}

decode_extend_payload-encode_extend_payload_example :
    (payload : List ℕ) × (encode_extend_payload extend ≡ ok payload)
    × (decode_extend_payload any_text payload ≡ ok extend)
decode_extend_payload-encode_extend_payload_example =
    decode_extend_payload-encode_extend_payload any_text extend extend-IsExtend

-- The slicer, into a buffer of sixteen bytes.
abbrev slicer : MultiPathSlicer
slicer = record { next_seq = 300 }

abbrev sliced : List ℕ
sliced = be64 300 ++ (1 ∷ 2 ∷ replicate 6 0)

slices : slice slicer (1 ∷ 2 ∷ []) (replicate 16 0) ≡ ok (record { next_seq = 301 }, sliced, 10)
unfolding slice
slices = refl

slice-packet_example :
    (from_be (take 8 (take 10 sliced)) ≡ 300)
    × (drop 8 (take 10 sliced) ≡ 1 ∷ 2 ∷ [])
    × (301 ≡ 300 + 1)
    × (300 < u64_max)
slice-packet_example =
    slice-packet slicer (record { next_seq = 301 }) (1 ∷ 2 ∷ []) (replicate 16 0) sliced 10
      (omega arith) slices

-- A packet at a tenth of a second; the first cell is planned for 200 ms after the gap is noticed.
abbrev traffic : List Event
traffic = packet 100000000 ∷ question 700000000 200000000 1 ∷ []

pads :
    (should_send_padding (Quiet.run (Padding.new 500000000 150000000 0) traffic) 900000000 5 7).1
    ≡ true
unfolding Padding.new record_real_packet should_send_padding
pads = refl

run-quiet_example : last_packet 0 traffic + min 500000000 day ≤ 900000000
run-quiet_example =
    run-quiet 500000000 150000000 0 900000000 5 7 traffic (omega arith, (omega arith, omega arith))
      pads
