-- ===== src/Kernel/Examples.antt =====
-- Tests of the modules of src/kernel at concrete inputs.
use anon_guard.Base.{
  ℕ, ◌≡◌, refl, true, false, not, ◌&&◌, Option, none, List, [], ◌∷◌, arith, any, codes, ok, err,
}
use anon_guard.Kernel.Ip.{Ipv4Addr, IsIpv4, IpAddr, v4, SocketAddr}
use anon_guard.Kernel.KillSwitch.{with_threshold, trip, reset}
use anon_guard.Kernel.KillSwitch.Window.{Event, failure, cleared, run}
use anon_guard.Kernel.ExitPolicy.{
  default_policy, Attempt, connected, permission_denied, is_ip_permitted, v4_permitted,
  resolve_and_connect,
}
use anon_guard.Kernel.ExitPolicy.Blocks.{
  in_block, number, blocked, mapped, compatible, nat64, six_to_four, v4_permitted-blocked,
  local_nat64, teredo, is_ip_permitted-embedded,
}
use anon_guard.Kernel.ExitPolicy.Connect.{
  Reachable, Tried, resolve_and_connect-Tried, resolve_and_connect-rebinding,
}

abbrev metadata : Ipv4Addr
metadata = record { a = 169; b = 254; c = 169; d = 254 }

metadata-IsIpv4 : IsIpv4 metadata
metadata-IsIpv4 = record {
  a_byte = omega arith;
  b_byte = omega arith;
  c_byte = omega arith;
  d_byte = omega arith;
}

v4_permitted-blocked_example :
    v4_permitted metadata ≡ not (any (in_block (number metadata)) blocked)
v4_permitted-blocked_example = v4_permitted-blocked metadata metadata-IsIpv4

is_ip_permitted-embedded_example :
    (is_ip_permitted default_policy (mapped metadata)
      ≡ is_ip_permitted default_policy (v4 metadata))
    × (is_ip_permitted default_policy (nat64 metadata)
        ≡ is_ip_permitted default_policy (v4 metadata))
    × (is_ip_permitted default_policy (six_to_four metadata 0 0 0 0 1)
        ≡ is_ip_permitted default_policy (v4 metadata))
    × ((is_ip_permitted default_policy (compatible metadata)
          && not (is_ip_permitted default_policy (v4 metadata)))
        ≡ false)
    × (is_ip_permitted default_policy (local_nat64 0 0 0 0 1) ≡ false)
    × (is_ip_permitted default_policy (teredo 0 0 0 0 0 1) ≡ false)
is_ip_permitted-embedded_example =
    is_ip_permitted-embedded default_policy metadata 0 0 0 0 0 1 metadata-IsIpv4

abbrev no_literal : List ℕ → Option IpAddr
no_literal host = none

abbrev always : SocketAddr → Attempt
always a = connected

abbrev public_addr : SocketAddr
public_addr = record { ip = v4 (record { a = 9; b = 9; c = 9; d = 9 }); port = 443 }

abbrev metadata_addr : SocketAddr
metadata_addr = record { ip = v4 metadata; port = 443 }

resolve_and_connect-Tried_example : Tried (Reachable default_policy) (
    resolve_and_connect no_literal default_policy
      (ok (public_addr ∷ []))
      always
      (codes "a.example")
      443)
resolve_and_connect-Tried_example =
    resolve_and_connect-Tried no_literal default_policy always (ok (public_addr ∷ []))
      (codes "a.example") 443

abbrev rebound : List SocketAddr
rebound = public_addr ∷ metadata_addr ∷ []

forbidden_among : any (λ a. not (is_ip_permitted default_policy a.ip)) rebound ≡ true
unfolding is_ip_permitted v4_permitted
forbidden_among = refl

resolve_and_connect-rebinding_example :
    resolve_and_connect no_literal default_policy (ok rebound) always (codes "a.example") 443
    ≡ ([], err permission_denied)
resolve_and_connect-rebinding_example =
    resolve_and_connect-rebinding no_literal default_policy always rebound (codes "a.example") 443
      forbidden_among

-- Two failures within ten trip a switch of threshold two; a reset and an old failure do not count.
abbrev incidents : List Event
incidents = failure 5 ∷ cleared ∷ failure 6 ∷ failure 20 ∷ failure 25 ∷ []

trips : (run (with_threshold 2 10) incidents).tripped ≡ true
unfolding with_threshold trip reset
trips = refl

trips_not :
    (run (with_threshold 2 10) (failure 5 ∷ cleared ∷ failure 6 ∷ failure 20 ∷ [])).tripped ≡ false
unfolding with_threshold trip reset
trips_not = refl
