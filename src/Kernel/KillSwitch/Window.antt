-- ===== src/Kernel/KillSwitch/Window.antt =====
-- The controller of src/kernel/killswitch.rs against a count over all failures since the reset.
use anon_guard.Base.{
  ℕ, ◌+◌, ◌-◌, ◌≤◌, ◌≡◌, Bool, false, ◌||◌, List, [], ◌∷◌, ◌++◌, ltb, leb, if◌then◌else◌, retain,
}
use anon_guard.Kernel.KillSwitch.{KillSwitchController, trip, reset}

-- A failure at a time, or a reset.
pub data Event : Type 0 where
  failure : ℕ → Event
  cleared : Event

abbrev on_event : KillSwitchController → Event → KillSwitchController
on_event k (failure now) = trip k now
on_event k cleared = reset k

abbrev pub run : KillSwitchController → List Event → KillSwitchController
run k [] = k
run k (e ∷ es) = run (on_event k e) es

-- The clock does not go back.
abbrev pub Ordered : ℕ → List Event → Type 0
Ordered from [] = Unit {0}
Ordered from (failure now ∷ es) = (from ≤ now) × Ordered now es
Ordered from (cleared ∷ es) = Ordered from es

-- How many of the times lie less than a window before now.
abbrev pub recent : ℕ → ℕ → List ℕ → ℕ
recent window now [] = 0
recent window now (t ∷ ts) = (if ltb (now - t) window then 1 else 0) + recent window now ts

-- Whether since the last reset there was a failure that was, with those less than a window before
-- it, at least the threshold. `past` holds all failures since then, whatever their age.
abbrev pub tripped_by : ℕ → ℕ → List ℕ → Bool → List Event → Bool
tripped_by threshold window past flag [] = flag
tripped_by threshold window past flag (cleared ∷ es) = tripped_by threshold window [] false es
tripped_by threshold window past flag (failure now ∷ es) =
    tripped_by threshold window (now ∷ past) (flag || leb threshold (1 + recent window now past)) es

abbrev state : ℕ → ℕ → Bool → List ℕ → KillSwitchController
state threshold window flag failures = record {
  tripped = flag;
  notified = flag;
  failures = failures;
  trip_threshold = threshold;
  window = window;
}

abbrev next_failures : ℕ → ℕ → List ℕ → List ℕ
next_failures window now ts = retain (λ t. ltb (now - t) window) ts ++ now ∷ []

-- The failures that are kept count as all of them do, from a time on.
abbrev Counts : ℕ → ℕ → List ℕ → List ℕ → Type 0
Counts window now ts past =
    (later : ℕ) → now ≤ later → recent window later ts ≡ recent window later past
