-- ===== src/Kernel/KillSwitch.antt =====
-- `KillSwitchController` of src/kernel/killswitch.rs: the flag is set when enough failures come
-- within a window. Instants are nanoseconds; the clock is read under the lock, and is an argument.
pub mod Window
use anon_guard.Base.{
  ℕ, ◌-◌, Bool, true, false, List, [], ◌∷◌, ◌++◌, ltb, leb, if◌then◌else◌, length, retain,
}

-- `notified` is the value that subscribers see.
pub record KillSwitchController : Type 0 where
  pub tripped : Bool
  pub notified : Bool
  pub failures : List ℕ
  pub trip_threshold : ℕ
  pub window : ℕ

unfoldable pub with_threshold : ℕ → ℕ → KillSwitchController
with_threshold trip_threshold window = record {
  tripped = false;
  notified = false;
  failures = [];
  trip_threshold = trip_threshold;
  window = window;
}

unfoldable pub new : KillSwitchController
new = with_threshold 5 1000000000

-- `swap`: only the call that sets the flag notifies.
abbrev pub set_flag : KillSwitchController → KillSwitchController
set_flag k = if k.tripped then k else record k { tripped = true; notified = true }

unfoldable pub trip : KillSwitchController → ℕ → KillSwitchController
trip k now =
    let failures = retain (λ t. ltb (now - t) k.window) k.failures ++ now ∷ [] in
    let kept = record k { failures = failures } in
    if leb k.trip_threshold (length failures) then set_flag kept else kept

unfoldable pub reset : KillSwitchController → KillSwitchController
reset k = record k { tripped = false; failures = []; notified = false }
