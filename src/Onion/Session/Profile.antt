-- ===== src/Onion/Session/Profile.antt =====
-- `Profile` of src/onion/session.rs. Durations are nanoseconds.
pub mod Finish
use anon_guard.Base.{
  ℕ, ◌+◌, ◌-◌, ◌*◌, ◌/◌, ◌%◌, max, Bool, ◌&&◌, List, [], ◌∷◌, leb, ◌==◌, if◌then◌else◌, codes,
  bytes_eq, Result, ok, err,
}

pub data Profile : Type 0 where
  balanced long_tail fixed_window strict rmt poisson : Profile

pub data ProfileError : Type 0 where
  unknown_profile unsupported_profile : ProfileError

unfoldable pub parse : List ℕ → Result Profile ProfileError
parse value =
    if bytes_eq value (codes "balanced")
    then ok balanced
    else if bytes_eq value (codes "balanced-longtail")
    then ok long_tail
    else if bytes_eq value (codes "fixed-window")
    then ok fixed_window
    else if bytes_eq value (codes "strict")
    then ok strict
    else if bytes_eq value (codes "research-rmt")
    then ok rmt
    else if bytes_eq value (codes "research-poisson")
    then ok poisson
    else err unknown_profile

abbrev number : Profile → ℕ
number balanced = 1
number strict = 2
number rmt = 3
number poisson = 4
number long_tail = 5
number fixed_window = 6

pub encode : Profile → List ℕ
encode p = 1 ∷ number p ∷ []

unfoldable pub decode : List ℕ → Result Profile ProfileError
decode value =
    if bytes_eq value (1 ∷ 1 ∷ [])
    then ok balanced
    else if bytes_eq value (1 ∷ 2 ∷ [])
    then ok strict
    else if bytes_eq value (1 ∷ 3 ∷ [])
    then ok rmt
    else if bytes_eq value (1 ∷ 4 ∷ [])
    then ok poisson
    else if bytes_eq value (1 ∷ 5 ∷ [])
    then ok long_tail
    else if bytes_eq value (1 ∷ 6 ∷ [])
    then ok fixed_window
    else err unsupported_profile

abbrev pub from_secs : ℕ → ℕ
from_secs n = n * 1000000000

abbrev bucket : ℕ
bucket = 64

-- The quantum and the least idle time, in seconds.
abbrev pace : Profile → ℕ × ℕ
pace long_tail = (60, 20)
pace _ = (30, 10)

abbrev can_finish_idle : ℕ → ℕ → ℕ → ℕ → ℕ → Bool
can_finish_idle quantum minimum_idle age idle cells =
    let last_activity = (age - idle) / 1000000000 in
    leb
      (from_secs (max ((last_activity + minimum_idle + (quantum - 1)) / quantum * quantum) quantum))
      age
    && (leb (from_secs minimum_idle) idle && ((cells + 1) % bucket == 0))

unfoldable pub can_finish : Profile → ℕ → ℕ → ℕ → Bool
can_finish fixed_window age idle cells = leb (from_secs 120) age && ((cells + 1) % 6000 == 0)
can_finish long_tail age idle cells = can_finish_idle 60 20 age idle cells
can_finish _ age idle cells = can_finish_idle 30 10 age idle cells
