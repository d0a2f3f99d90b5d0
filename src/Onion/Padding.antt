-- ===== src/Onion/Padding.antt =====
-- src/onion/padding.rs: the scheduler of padding cells between bursts of traffic. Instants and
-- durations are nanoseconds; the clock and the sample of the exponential distribution, whose rate
-- is a number of floating point, are arguments.
pub mod Quiet
use anon_guard.Base.{
  ℕ, ◌+◌, ◌-◌, Bool, true, false, Option, none, some, leb, if◌then◌else◌, min, max,
}

pub data WtfPadState : Type 0 where
  burst gap : WtfPadState

pub record AdaptivePaddingEngine : Type 0 where
  pub state : WtfPadState
  pub last_real_packet_time : ℕ
  pub next_padding_time : Option ℕ
  pub burst_timeout : ℕ
  pub gap_mean_iat : ℕ

abbrev pub day : ℕ
day = 86400000000000

abbrev pub millisecond : ℕ
millisecond = 1000000

unfoldable pub new : ℕ → ℕ → ℕ → AdaptivePaddingEngine
new burst_timeout gap_mean_iat now = record {
  state = burst;
  last_real_packet_time = now;
  next_padding_time = none;
  burst_timeout = min burst_timeout day;
  gap_mean_iat = min (max gap_mean_iat millisecond) day;
}

unfoldable pub default_config : ℕ → AdaptivePaddingEngine
default_config now = new 500000000 150000000 now

abbrev pub real_packet : AdaptivePaddingEngine → WtfPadState → ℕ → AdaptivePaddingEngine
real_packet e burst now = record e { last_real_packet_time = now }
real_packet e gap now = record e {
  state = burst;
  last_real_packet_time = now;
  next_padding_time = none;
}

unfoldable pub record_real_packet : AdaptivePaddingEngine → ℕ → AdaptivePaddingEngine
record_real_packet e now = real_packet e e.state now

-- `sample` is what is drawn at the mean of the engine.
abbrev pub schedule_next_padding : AdaptivePaddingEngine → ℕ → ℕ → AdaptivePaddingEngine
schedule_next_padding e now sample =
    let delay = min (max sample millisecond) day in
    record e { next_padding_time = some (now + delay) }

abbrev pub to_gap : AdaptivePaddingEngine → WtfPadState → ℕ → ℕ → AdaptivePaddingEngine
to_gap e gap now sample = e
to_gap e burst now sample =
    if leb e.burst_timeout (now - e.last_real_packet_time)
    then schedule_next_padding (record e { state = gap }) now sample
    else e

abbrev pub due :
    AdaptivePaddingEngine → WtfPadState → Option ℕ → ℕ → ℕ → AdaptivePaddingEngine × Bool
due e burst next now sample = (e, false)
due e gap none now sample = (e, false)
due e gap (some target) now sample =
    if leb target now then (schedule_next_padding e now sample, true) else (e, false)

-- The first sample is for the change to a gap, the second for the cell that follows.
unfoldable pub should_send_padding :
    AdaptivePaddingEngine → ℕ → ℕ → ℕ → AdaptivePaddingEngine × Bool
should_send_padding e now first second =
    let g = to_gap e e.state now first in due g g.state g.next_padding_time now second

abbrev pub delay_of : AdaptivePaddingEngine → WtfPadState → Option ℕ → ℕ → ℕ
delay_of e burst next now = e.last_real_packet_time + e.burst_timeout - now
delay_of e gap (some target) now = target - now
delay_of e gap none now = day

unfoldable pub next_event_delay : AdaptivePaddingEngine → ℕ → ℕ
next_event_delay e now = delay_of e e.state e.next_padding_time now
