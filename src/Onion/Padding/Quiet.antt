-- ===== src/Onion/Padding/Quiet.antt =====
-- Histories of the scheduler of src/onion/padding.rs: when it pads, and how long it waits.
use anon_guard.Base.{
  ℕ, ◌+◌, ◌-◌, ◌≤◌, ◌≡◌, refl, inl, inr, true, Option, none, some, List, [], ◌∷◌, arith, leb,
  leb→le, Bool-cases, some_inj, min, max,
}
use anon_guard.Onion.Padding.{
  WtfPadState, burst, gap, AdaptivePaddingEngine, day, millisecond, new, real_packet,
  record_real_packet, to_gap, due, should_send_padding, delay_of, next_event_delay,
}

-- A real packet at a time, or a question whether to pad at a time with its samples.
pub data Event : Type 0 where
  packet : ℕ → Event
  question : ℕ → ℕ → ℕ → Event

abbrev time_of : Event → ℕ
time_of (packet now) = now
time_of (question now first second) = now

abbrev on_event : AdaptivePaddingEngine → Event → AdaptivePaddingEngine
on_event e (packet now) = record_real_packet e now
on_event e (question now first second) = (should_send_padding e now first second).0

abbrev pub run : AdaptivePaddingEngine → List Event → AdaptivePaddingEngine
run e [] = e
run e (x ∷ xs) = run (on_event e x) xs

-- The clock does not go back, from a time to a time.
abbrev pub Ordered : ℕ → List Event → ℕ → Type 0
Ordered from [] to = from ≤ to
Ordered from (x ∷ xs) to = (from ≤ time_of x) × Ordered (time_of x) xs to

-- The time of the last real packet, or of the start.
abbrev pub last_packet : ℕ → List Event → ℕ
last_packet start [] = start
last_packet start (packet now ∷ xs) = last_packet now xs
last_packet start (question now first second ∷ xs) = last_packet start xs

-- In a gap a cell is planned, for a time after the timeout and at most a day ahead.
abbrev Planned : WtfPadState → Option ℕ → ℕ → ℕ → Type 0
Planned burst next quiet now = next ≡ none
Planned gap next quiet now =
    (target : ℕ) × (next ≡ some target) × (quiet ≤ target) × (target ≤ now + day)

record IsEngine (last timeout now : ℕ) (e : AdaptivePaddingEngine) : Type 0 where
  pub last_real : e.last_real_packet_time ≡ last
  pub timeout_kept : e.burst_timeout ≡ timeout
  pub at_most : timeout ≤ day
  pub past : last ≤ now
  pub planned : Planned e.state e.next_padding_time (last + timeout) now

Planned-later :
    (s : WtfPadState) (next : Option ℕ) (quiet now later : ℕ)
    → now ≤ later
    → Planned s next quiet now
    → Planned s next quiet later
Planned-later burst next quiet now later h p = p
Planned-later gap next quiet now later h (target, e, q, l) = (target, e, q, omega arith)

real_packet-IsEngine :
    (last timeout before now : ℕ) (e : AdaptivePaddingEngine) (s : WtfPadState)
    → e.state ≡ s
    → IsEngine last timeout before e
    → IsEngine now timeout now (real_packet e s now)
real_packet-IsEngine last timeout before now e burst same v = record {
  last_real = refl;
  timeout_kept = v.timeout_kept;
  at_most = v.at_most;
  past = omega arith;
  planned = rw same (rw same at v.planned);
}
real_packet-IsEngine last timeout before now e gap same v = record {
  last_real = refl;
  timeout_kept = v.timeout_kept;
  at_most = v.at_most;
  past = omega arith;
  planned = refl;
}

to_gap-IsEngine :
    (last timeout before now sample : ℕ) (e : AdaptivePaddingEngine) (s : WtfPadState)
    → e.state ≡ s
    → before ≤ now
    → IsEngine last timeout before e
    → IsEngine last timeout now (to_gap e s now sample)
to_gap-IsEngine last timeout before now sample e gap same h v = record {
  last_real = v.last_real;
  timeout_kept = v.timeout_kept;
  at_most = v.at_most;
  past = omega (arith, v.past);
  planned = Planned-later e.state e.next_padding_time (last + timeout) before now h v.planned;
}
to_gap-IsEngine last timeout before now sample e burst same h v =
    elim (Bool-cases (leb e.burst_timeout (now - e.last_real_packet_time))) [
      | inl over ↦
          let passed = leb→le e.burst_timeout (now - e.last_real_packet_time) over in
          rw over record {
            last_real = v.last_real;
            timeout_kept = v.timeout_kept;
            at_most = v.at_most;
            past = omega (arith, v.past);
            planned = (
              now + min (max sample millisecond) day,
              refl,
              omega (arith, passed, v.last_real, v.timeout_kept, v.past),
              omega arith,
            );
          }
      | inr early ↦ rw early record {
        last_real = v.last_real;
        timeout_kept = v.timeout_kept;
        at_most = v.at_most;
        past = omega (arith, v.past);
        planned = Planned-later e.state e.next_padding_time (last + timeout) before now h v.planned;
      }
    ]

-- A cell that is due comes after the timeout, and the next one is planned.
due-IsEngine :
    (last timeout now sample : ℕ) (e : AdaptivePaddingEngine) (s : WtfPadState) (next : Option ℕ)
    → e.state ≡ s
    → e.next_padding_time ≡ next
    → IsEngine last timeout now e
    → IsEngine last timeout now (due e s next now sample).0
due-IsEngine last timeout now sample e burst next same at_next v = v
due-IsEngine last timeout now sample e gap none same at_next v = v
due-IsEngine last timeout now sample e gap (some target) same at_next v =
    elim (Bool-cases (leb target now)) [
      | inr early ↦ rw early v
      | inl over ↦
          let (t, f, q, l) = rw (same, at_next) at v.planned in
          let reached = leb→le target now over in
          let one = some_inj target t f in
          rw over record {
            last_real = v.last_real;
            timeout_kept = v.timeout_kept;
            at_most = v.at_most;
            past = v.past;
            planned = rw same (
              now + min (max sample millisecond) day,
              refl,
              omega (arith, one, reached, q),
              omega arith,
            );
          }
    ]

due-quiet :
    (last timeout now sample : ℕ) (e : AdaptivePaddingEngine) (s : WtfPadState) (next : Option ℕ)
    → e.state ≡ s
    → e.next_padding_time ≡ next
    → IsEngine last timeout now e
    → (due e s next now sample).1 ≡ true
    → last + timeout ≤ now
due-quiet last timeout now sample e burst next same at_next v sent = cc
due-quiet last timeout now sample e gap none same at_next v sent = cc
due-quiet last timeout now sample e gap (some target) same at_next v sent =
    elim (Bool-cases (leb target now)) [
      | inr early ↦ let no = rw early at sent in cc
      | inl over ↦
          let (t, f, q, l) = rw (same, at_next) at v.planned in
          omega (arith, some_inj target t f, leb→le target now over, q)
    ]

-- The time of the last real packet after an event.
abbrev after : ℕ → Event → ℕ
after last (packet now) = now
after last (question now first second) = last

on_event-IsEngine :
    (last timeout before : ℕ) (e : AdaptivePaddingEngine) (x : Event)
    → before ≤ time_of x
    → IsEngine last timeout before e
    → IsEngine (after last x) timeout (time_of x) (on_event e x)
unfolding record_real_packet should_send_padding
on_event-IsEngine last timeout before e (packet now) h v =
    real_packet-IsEngine last timeout before now e e.state refl v
on_event-IsEngine last timeout before e (question now first second) h v =
    let g = to_gap e e.state now first in
    due-IsEngine last timeout now second g g.state g.next_padding_time refl refl
      (to_gap-IsEngine last timeout before now first e e.state refl h v)

from-IsEngine :
    (last timeout before now : ℕ) (e : AdaptivePaddingEngine) (xs : List Event)
    → Ordered before xs now
    → IsEngine last timeout before e
    → IsEngine (last_packet last xs) timeout now (run e xs)
from-IsEngine last timeout before now e [] h v = record {
  last_real = v.last_real;
  timeout_kept = v.timeout_kept;
  at_most = v.at_most;
  past = omega (arith, v.past);
  planned = Planned-later e.state e.next_padding_time (last + timeout) before now h v.planned;
}
from-IsEngine last timeout before now e (packet t ∷ xs) (h, hs) v =
    from-IsEngine t timeout t now (on_event e (packet t)) xs hs
      (on_event-IsEngine last timeout before e (packet t) h v)
from-IsEngine last timeout before now e (question t first second ∷ xs) (h, hs) v =
    from-IsEngine last timeout t now (on_event e (question t first second)) xs hs
      (on_event-IsEngine last timeout before e (question t first second) h v)

new-IsEngine :
    (burst_timeout gap_mean start : ℕ)
    → IsEngine start (min burst_timeout day) start (new burst_timeout gap_mean start)
unfolding new
new-IsEngine burst_timeout gap_mean start = record {
  last_real = refl;
  timeout_kept = refl;
  at_most = omega arith;
  past = omega arith;
  planned = refl;
}

delay-bounded :
    (last timeout now : ℕ) (e : AdaptivePaddingEngine) (s : WtfPadState) (next : Option ℕ)
    → e.state ≡ s
    → e.next_padding_time ≡ next
    → IsEngine last timeout now e
    → delay_of e s next now ≤ day
delay-bounded last timeout now e burst next same at_next v =
    omega (arith, v.last_real, v.timeout_kept, v.at_most, v.past)
delay-bounded last timeout now e gap none same at_next v = omega arith
delay-bounded last timeout now e gap (some target) same at_next v =
    let (t, f, q, l) = rw (same, at_next) at v.planned in omega (arith, some_inj target t f, l)

-- Whatever the configuration, the traffic and the samples are, a padding cell is sent only when
-- the burst timeout, which is at most a day, has passed since the last real packet, if the clock
-- does not go back.
pub run-quiet :
    (burst_timeout gap_mean start now first second : ℕ) (xs : List Event)
    → Ordered start xs now
    → (should_send_padding (run (new burst_timeout gap_mean start) xs) now first second).1 ≡ true
    → last_packet start xs + min burst_timeout day ≤ now
unfolding should_send_padding
run-quiet burst_timeout gap_mean start now first second xs h sent =
    let e = run (new burst_timeout gap_mean start) xs in
    let last = last_packet start xs in
    let timeout = min burst_timeout day in
    let v =
      from-IsEngine start timeout start now (new burst_timeout gap_mean start) xs h
        (new-IsEngine burst_timeout gap_mean start) in
    let g = to_gap e e.state now first in
    due-quiet last timeout now second g g.state g.next_padding_time refl refl
      (to_gap-IsEngine last timeout now now first e e.state refl (omega arith) v) sent

-- A caller waits for the next event at most a day, in every state that the engine reaches.
run-soon :
    (burst_timeout gap_mean start now : ℕ) (xs : List Event)
    → Ordered start xs now
    → next_event_delay (run (new burst_timeout gap_mean start) xs) now ≤ day
unfolding next_event_delay
run-soon burst_timeout gap_mean start now xs h =
    let e = run (new burst_timeout gap_mean start) xs in
    delay-bounded (last_packet start xs) (min burst_timeout day) now e e.state e.next_padding_time
      refl refl
      (from-IsEngine start (min burst_timeout day) start now (new burst_timeout gap_mean start) xs h
        (new-IsEngine burst_timeout gap_mean start))
