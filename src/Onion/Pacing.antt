-- ===== src/Onion/Pacing.antt =====
-- src/onion/pacing.rs: the next transmission slot. Instants and durations are nanoseconds.
use anon_guard.Base.{
  ℕ, ◌+◌, ◌-◌, ◌*◌, ◌/◌, ◌^◌, ◌≤◌, ◌<◌, max, ◌≡◌, inl, inr, Option, none, some, arith, ltb,
  if◌then◌else◌, Bool-cases, u32_max,
}

-- `Duration::checked_mul` by a u32: a duration holds less than 2^64 seconds.
abbrev duration_limit : ℕ
duration_limit = 2 ^ 64 * 1000000000

abbrev checked_mul : ℕ → ℕ → Option ℕ
checked_mul interval n =
    if ltb u32_max n
    then none
    else if ltb (interval * n) duration_limit
    then some (interval * n)
    else none

abbrev rebase : ℕ → ℕ → ℕ → Option ℕ → ℕ
rebase nominal now interval none = now + interval
rebase nominal now interval (some delay) = nominal + delay

-- The assertion that the interval is not zero is a hypothesis of the theorems.
pub next_deadline : ℕ → ℕ → ℕ → ℕ
next_deadline previous now interval =
    let nominal = previous + interval in
    let skipped = (now - nominal) / interval + 1 in
    if ltb now nominal then nominal else rebase nominal now interval (checked_mul interval skipped)

-- The next slot lies after now, and at most one interval after now or after the slot before,
-- whichever is later: lateness never builds up a burst.
pub next_deadline-bounds :
    (previous now interval : ℕ)
    → 0 < interval
    → (now < next_deadline previous now interval)
      × (next_deadline previous now interval ≤ max previous now + interval)
unfolding next_deadline
next_deadline-bounds previous now interval h = (ground arith, grind arith)

checked_mul-some :
    (interval n : ℕ)
    → n ≤ u32_max
    → interval * u32_max < duration_limit
    → checked_mul interval n ≡ some (interval * n)
checked_mul-some interval n h s =
    let m : interval * n ≤ interval * u32_max = grind arith in ground (arith, m)

skipped-le :
    (late interval : ℕ)
    → 0 < interval
    → late < interval * (u32_max - 1)
    → late / interval + 1 ≤ u32_max
skipped-le late interval h r = grind arith

-- Within the range of the 32-bit multiplier, the slot keeps the phase of the schedule.
pub next_deadline-phase :
    (previous now interval : ℕ)
    → 0 < interval
    → now < previous + interval * u32_max
    → interval * u32_max < duration_limit
    → (k : ℕ) × (next_deadline previous now interval ≡ previous + interval * k)
unfolding next_deadline
next_deadline-phase previous now interval h r s =
    elim (Bool-cases (ltb now (previous + interval))) [
      | inl early ↦ rw early (1, omega arith)
      | inr late ↦ rw late (
        (now - (previous + interval)) / interval + 2,
        rw
            (checked_mul-some interval ((now - (previous + interval)) / interval + 1)
              (skipped-le (now - (previous + interval)) interval h (ground arith)) s)
            (omega arith),
      )
    ]
