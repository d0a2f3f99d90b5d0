-- ===== src/Onion/Session/Profile/Finish.antt =====
-- When a session of src/onion/session.rs may finish, and the two-byte code of a profile.
use anon_guard.Base.{ℕ, ◌+◌, ◌-◌, ◌%◌, ◌≤◌, ◌<◌, ◌≡◌, refl, true, ◌&&◌, arith, leb, ◌==◌, ok}
use anon_guard.Onion.Session.Profile.{
  Profile, balanced, long_tail, fixed_window, strict, rmt, poisson, encode, decode, from_secs,
  can_finish, can_finish_idle,
}

-- How many cells are sent between two points at which a session may finish.
abbrev pub volume : Profile → ℕ
volume fixed_window = 6000
volume _ = 64

-- The longest wait after the last activity.
abbrev pub patience : Profile → ℕ
patience fixed_window = from_secs 120
patience long_tail = from_secs 80
patience _ = from_secs 40

next_64 : (cells : ℕ) → (i : ℕ) × (i < 64) × ((cells + i + 1) % 64 ≡ 0)
next_64 cells = (63 - cells % 64, omega arith, omega arith)

next_6000 : (cells : ℕ) → (i : ℕ) × (i < 6000) × ((cells + i + 1) % 6000 ≡ 0)
next_6000 cells = (5999 - cells % 6000, omega arith, omega arith)

idle_30 :
    (last age cells : ℕ)
    → last + from_secs 40 ≤ age
    → (cells + 1) % 64 ≡ 0
    → can_finish_idle 30 10 age (age - last) cells ≡ true
idle_30 last age cells old c = ground arith

idle_60 :
    (last age cells : ℕ)
    → last + from_secs 80 ≤ age
    → (cells + 1) % 64 ≡ 0
    → can_finish_idle 60 20 age (age - last) cells ≡ true
idle_60 last age cells old c = ground arith

soon_30 :
    (cells last : ℕ)
    → (i : ℕ) × (i < 64)
      × ((age : ℕ)
          → last + from_secs 40 ≤ age
          → can_finish_idle 30 10 age (age - last) (cells + i) ≡ true)
soon_30 cells last =
    let (i, below, c) = next_64 cells in (i, below, λ age old. idle_30 last age (cells + i) old c)

soon_60 :
    (cells last : ℕ)
    → (i : ℕ) × (i < 64)
      × ((age : ℕ)
          → last + from_secs 80 ≤ age
          → can_finish_idle 60 20 age (age - last) (cells + i) ≡ true)
soon_60 cells last =
    let (i, below, c) = next_64 cells in (i, below, λ age old. idle_60 last age (cells + i) old c)

soon_fixed :
    (cells last : ℕ)
    → (i : ℕ) × (i < 6000)
      × ((age : ℕ)
          → last + from_secs 120 ≤ age
          → can_finish fixed_window age (age - last) (cells + i) ≡ true)
unfolding can_finish
soon_fixed cells last =
    let (i, below, c) = next_6000 cells in
    (i, below, λ age old. at_end age (cells + i) (omega arith) c)
  where
    at_end :
        (age n : ℕ)
        → from_secs 120 ≤ age
        → (n + 1) % 6000 ≡ 0
        → (leb (from_secs 120) age && ((n + 1) % 6000 == 0)) ≡ true
    at_end age n old c = ground arith

-- A session whose last activity is long enough ago, 40, 80 or 120 seconds by profile, may finish
-- at one of the next 64 cells, or 6000 for the fixed window; which one does not depend on its age.
pub can_finish-soon :
    (p : Profile) (cells last : ℕ)
    → (i : ℕ) × (i < volume p)
      × ((age : ℕ) → last + patience p ≤ age → can_finish p age (age - last) (cells + i) ≡ true)
unfolding can_finish
can_finish-soon balanced cells last = soon_30 cells last
can_finish-soon long_tail cells last = soon_60 cells last
can_finish-soon fixed_window cells last = soon_fixed cells last
can_finish-soon strict cells last = soon_30 cells last
can_finish-soon rmt cells last = soon_30 cells last
can_finish-soon poisson cells last = soon_30 cells last

-- A code stands for one profile, and no other code is taken.
decode-encode : (p : Profile) → decode (encode p) ≡ ok p
unfolding decode encode
decode-encode balanced = refl
decode-encode long_tail = refl
decode-encode fixed_window = refl
decode-encode strict = refl
decode-encode rmt = refl
decode-encode poisson = refl
