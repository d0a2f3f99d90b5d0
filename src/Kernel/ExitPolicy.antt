-- ===== src/Kernel/ExitPolicy.antt =====
-- src/kernel/exit_policy.rs: which targets an exit relay may connect to. Hosts are ASCII bytes.
-- `host.parse::<IpAddr>()` is the parameter `parse_ip`; name resolution and the connection
-- attempts are the arguments `resolved` and `connect` of what uses them.
pub mod Blocks
pub mod Connect
use anon_guard.Base.{
  ℕ, ◌+◌, ◌-◌, ◌*◌, ◌/◌, Bool, true, false, not, ◌&&◌, ◌||◌, Option, none, some, List, [], ◌∷◌, map,
  leb, ◌==◌, if◌then◌else◌, length, drop, contains, codes, bytes_eq, Result, ok, err,
}
use mathlib.Core.List.{reverse}
use anon_guard.Kernel.Ip.{Ipv4Addr, Ipv6Addr, IpAddr, v4, v6, SocketAddr, v4_of_segments, to_ipv4}

-- `connect_timeout` is in nanoseconds.
pub record ExitPolicy : Type 0 where
  pub allow_private_networks : Bool
  pub blocked_ports : List ℕ
  pub connect_timeout : ℕ

abbrev default_connect_timeout : ℕ
default_connect_timeout = 10000000000

abbrev pub default_policy : ExitPolicy
default_policy = record {
  allow_private_networks = false;
  blocked_ports =
      25 ∷ 135 ∷ 137 ∷ 138 ∷ 139 ∷ 445 ∷ 22 ∷ 2375 ∷ 2376 ∷ 3306 ∷ 5432 ∷ 6379 ∷ 9200 ∷ 11211
      ∷ 27017 ∷ [];
  connect_timeout = default_connect_timeout;
}

abbrev new_policy : Bool → ExitPolicy
new_policy allow = record default_policy { allow_private_networks = allow }

abbrev with_timeout : Bool → ℕ → ExitPolicy
with_timeout allow timeout = record default_policy {
  allow_private_networks = allow;
  connect_timeout = timeout;
}

-- The IPv4 half of `is_ip_permitted`, test by test. `x & 0xf0` and `x & 0xfe` drop low bits.
unfoldable pub v4_permitted : Ipv4Addr → Bool
v4_permitted x =
    if (x.a == 127) || (x.a == 127)
    then false
    else if ((x.a == 0) && ((x.b == 0) && ((x.c == 0) && (x.d == 0)))) || (x.a == 0)
    then false
    else if ((x.a == 169) && (x.b == 254)) || ((x.a == 169) && (x.b == 254))
    then false
    else if x.a == 10
    then false
    else if (x.a == 172) && (leb 16 x.b && leb x.b 31)
    then false
    else if (x.a == 192) && (x.b == 168)
    then false
    else if (leb 224 x.a && leb x.a 239) || (leb 224 x.a && leb x.a 239)
    then false
    else if (x.a == 255) && ((x.b == 255) && ((x.c == 255) && (x.d == 255)))
    then false
    else if (x.a == 100) && (leb 64 x.b && leb x.b 127)
    then false
    else if (x.a == 192) && ((x.b == 0) && (x.c == 2))
    then false
    else if (x.a == 198) && ((x.b == 51) && (x.c == 100))
    then false
    else if (x.a == 203) && ((x.b == 0) && (x.c == 113))
    then false
    else if x.a / 16 * 16 == 240
    then false
    else if (x.a == 192) && ((x.b == 0) && (x.c == 0))
    then false
    else if (x.a == 198) && (x.b / 2 * 2 == 18)
    then false
    else true

-- The tests that follow `to_ipv4`; `x & 0xfff0` drops four bits.
pub v6_native_permitted : Ipv6Addr → Bool
v6_native_permitted x =
    if (x.s0 == 0x64)
      && ((x.s1 == 0xff9b) && ((x.s2 == 0) && ((x.s3 == 0) && ((x.s4 == 0) && (x.s5 == 0)))))
    then v4_permitted (v4_of_segments x.s6 x.s7)
    else if (x.s0 == 0x64) && ((x.s1 == 0xff9b) && (x.s2 == 1))
    then false
    else if x.s0 == 0x2002
    then v4_permitted (v4_of_segments x.s1 x.s2)
    else if (x.s0 == 0x2001) && (x.s1 == 0)
    then false
    else if (x.s0 == 0x2001) && (x.s1 == 0x0db8)
    then false
    else if (x.s0 == 0x2001) && (x.s1 / 16 * 16 == 0x20)
    then false
    else if (x.s0 == 0x0100) && ((x.s1 == 0) && ((x.s2 == 0) && (x.s3 == 0)))
    then false
    else true

abbrev v6_translated : Option Ipv4Addr → Bool → Bool
v6_translated (some x) native = v4_permitted x
v6_translated none native = native

abbrev is_loopback_v6 : Ipv6Addr → Bool
is_loopback_v6 x =
    (x.s0 == 0)
    && ((x.s1 == 0)
        && ((x.s2 == 0)
            && ((x.s3 == 0) && ((x.s4 == 0) && ((x.s5 == 0) && ((x.s6 == 0) && (x.s7 == 1)))))))

abbrev is_unspecified_v6 : Ipv6Addr → Bool
is_unspecified_v6 x =
    (x.s0 == 0)
    && ((x.s1 == 0)
        && ((x.s2 == 0)
            && ((x.s3 == 0) && ((x.s4 == 0) && ((x.s5 == 0) && ((x.s6 == 0) && (x.s7 == 0)))))))

-- `s & 0xffc0` and `s & 0xfe00` drop six and nine bits; multicast is ff00::/8.
pub v6_permitted : Ipv6Addr → Bool
unfolding v6_native_permitted to_ipv4
v6_permitted x =
    if is_loopback_v6 x
    then false
    else if is_unspecified_v6 x
    then false
    else if x.s0 / 256 == 0xff
    then false
    else if x.s0 / 64 * 64 == 0xfe80
    then false
    else if x.s0 / 512 * 512 == 0xfc00
    then false
    else v6_translated (to_ipv4 x) (v6_native_permitted x)

abbrev ip_permitted : IpAddr → Bool
ip_permitted (v4 x) = v4_permitted x
ip_permitted (v6 x) = v6_permitted x

unfoldable pub is_ip_permitted : ExitPolicy → IpAddr → Bool
is_ip_permitted p ip = if p.allow_private_networks then true else ip_permitted ip

-- `trim` and `to_lowercase` on ASCII.
abbrev is_space : ℕ → Bool
is_space c = (c == 32) || (leb 9 c && leb c 13)

trim_start : List ℕ → List ℕ
trim_start [] = []
trim_start (c ∷ cs) = let rest = trim_start cs in if is_space c then rest else c ∷ cs

unfoldable pub trim : List ℕ → List ℕ
unfolding trim_start
trim s = reverse (trim_start (reverse (trim_start s)))

abbrev to_lowercase : List ℕ → List ℕ
to_lowercase = map λ c. if leb b'A' c && leb c b'Z' then c + 32 else c

ends_with : List ℕ → List ℕ → Bool
ends_with s suffix =
    leb (length suffix) (length s) && bytes_eq (drop (length s - length suffix) s) suffix

-- Names of the relay's own host and of cloud metadata.
is_internal_name : List ℕ → Bool
unfolding ends_with
is_internal_name lower =
    bytes_eq lower (codes "localhost")
    || (ends_with lower (codes ".localhost")
        || (ends_with lower (codes ".local")
            || (ends_with lower (codes ".internal")
                || (ends_with lower (codes ".onion")
                    || (bytes_eq lower (codes "metadata.google.internal")
                        || bytes_eq lower (codes "instance-data"))))))

pub data IoError : Type 0 where
  permission_denied timed_out not_found lookup_failed connect_failed : IoError

pub validate_resolved_ips : ExitPolicy → List IpAddr → Result (Unit {0}) IoError
validate_resolved_ips p [] = ok tt
validate_resolved_ips p (ip ∷ ips) =
    let rest = validate_resolved_ips p ips in
    if not (is_ip_permitted p ip) then err permission_denied else rest

-- What `timeout_at(deadline, TcpStream::connect(addr))` ends in.
pub data Attempt : Type 0 where
  connected failed deadline_passed : Attempt

-- The addresses that are tried, and the address that is connected to or the error.
abbrev pub Connection : Type 0
Connection = List SocketAddr × Result SocketAddr IoError

abbrev pub after_attempt : SocketAddr → Connection → Attempt → Connection
after_attempt addr rest connected = (addr ∷ [], ok addr)
after_attempt addr (tried, r) failed = (addr ∷ tried, r)
after_attempt addr rest deadline_passed = (addr ∷ [], err timed_out)

pub try_each : (SocketAddr → Attempt) → IoError → List SocketAddr → Connection
try_each connect last [] = ([], err last)
try_each connect last (addr ∷ addrs) =
    after_attempt addr (try_each connect connect_failed addrs) (connect addr)

abbrev when_valid :
    (SocketAddr → Attempt) → List SocketAddr → Result (Unit {0}) IoError → Connection
when_valid connect addrs (ok u) = try_each connect not_found addrs
when_valid connect addrs (err e) = ([], err e)

pub connect_resolved : ExitPolicy → (SocketAddr → Attempt) → List SocketAddr → Connection
unfolding validate_resolved_ips try_each
connect_resolved p connect addrs =
    when_valid connect addrs (validate_resolved_ips p (map (λ a. a.ip) addrs))

abbrev when_resolved :
    ExitPolicy → (SocketAddr → Attempt) → Result (List SocketAddr) IoError → Connection
when_resolved p connect (ok addrs) = connect_resolved p connect addrs
when_resolved p connect (err e) = ([], err e)

module _ (parse_ip : List ℕ → Option IpAddr) where
  abbrev literal_permitted : ExitPolicy → Option IpAddr → Bool
  literal_permitted p (some ip) = is_ip_permitted p ip
  literal_permitted p none = true

  pub is_permitted : ExitPolicy → List ℕ → ℕ → Bool
  unfolding is_internal_name ends_with
  is_permitted p host port =
      let lower = to_lowercase (trim host) in
      if contains p.blocked_ports port
      then false
      else if ends_with lower (codes ".onion")
      then false
      else if p.allow_private_networks
      then true
      else if is_internal_name lower
      then false
      else literal_permitted p (parse_ip host)

  -- `resolved` is the outcome of `lookup_host` under the deadline.
  pub resolve_and_connect :
      ExitPolicy
      → Result (List SocketAddr) IoError
      → (SocketAddr → Attempt)
      → List ℕ
      → ℕ
      → Connection
  unfolding connect_resolved
  resolve_and_connect p resolved connect host port =
      if not (is_permitted p host port)
      then ([], err permission_denied)
      else when_resolved p connect resolved

  unfoldable pub is_exit_target_permitted : List ℕ → ℕ → Bool
  unfolding is_permitted
  is_exit_target_permitted host port = is_permitted default_policy host port
