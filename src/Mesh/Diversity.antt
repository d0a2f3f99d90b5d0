-- ===== src/Mesh/Diversity.antt =====
-- `validate_circuit_diversity` of src/mesh/sybil.rs. `parse::<IpAddr>()` is the parameter
-- `parse_ip`. A subnet is the list of its bytes: two for IPv4, four for IPv6.
pub mod Distinct
pub mod Forms
pub mod Subnets
use anon_guard.Base.{
  ℕ, ◌-◌, ◌/◌, ◌%◌, ◌&&◌, Option, none, some, List, [], ◌∷◌, ◌==◌, if◌then◌else◌, member, Result,
  ok, err, ◌>>=◌,
}
use mathlib.Core.List.{reverse}
use anon_guard.Kernel.Ip.{Ipv4Addr, Ipv6Addr, IpAddr, v4, v6, to_ipv4_mapped, to_ipv4}

pub data SybilError : Type 0 where
  subnet_collision ipv6_subnet_collision duplicate_node unresolvable_host : List ℕ → SybilError

-- The set that a subnet is held in, and its bytes.
pub data Prefix : Type 0 where
  prefix4 prefix6 : List ℕ → Prefix

abbrev prefix_v4 : Ipv4Addr → List ℕ
prefix_v4 x = x.a ∷ x.b ∷ []

-- `octets[i]` of the address, two to a segment.
abbrev high_byte : ℕ → ℕ
high_byte s = s / 256

abbrev low_byte : ℕ → ℕ
low_byte s = s % 256

-- The tests after those for an embedded IPv4 address: 6to4, Teredo, NAT64, plain.
-- `octets[12] ^ 0xFF` of a byte is 255 less the byte.
unfoldable pub native_prefix : Ipv6Addr → Prefix
native_prefix x =
    if (high_byte x.s0 == 0x20) && (low_byte x.s0 == 0x02)
    then prefix4 (high_byte x.s1 ∷ low_byte x.s1 ∷ [])
    else if (high_byte x.s0 == 0x20)
        && ((low_byte x.s0 == 0x01) && ((high_byte x.s1 == 0) && (low_byte x.s1 == 0)))
    then prefix4 ((255 - high_byte x.s6) ∷ (255 - low_byte x.s6) ∷ [])
    else if (x.s0 == 0x64)
        && ((x.s1 == 0xff9b) && ((x.s2 == 0) && ((x.s3 == 0) && ((x.s4 == 0) && (x.s5 == 0)))))
    then prefix4 (high_byte x.s6 ∷ low_byte x.s6 ∷ [])
    else prefix6 (high_byte x.s0 ∷ low_byte x.s0 ∷ high_byte x.s1 ∷ low_byte x.s1 ∷ [])

abbrev pub first_v4 : Option Ipv4Addr → Prefix → Prefix
first_v4 (some a) p = prefix4 (prefix_v4 a)
first_v4 none p = p

unfoldable pub prefix_of : IpAddr → Prefix
unfolding native_prefix to_ipv4 to_ipv4_mapped
prefix_of (v4 a) = prefix4 (prefix_v4 a)
prefix_of (v6 x) = first_v4 (to_ipv4_mapped x) (first_v4 (to_ipv4 x) (native_prefix x))

-- `trim_start_matches('[')` and `trim_end_matches(']')`
abbrev strip_all : ℕ → List ℕ → List ℕ
strip_all b [] = []
strip_all b (c ∷ cs) = let rest = strip_all b cs in if c == b then rest else c ∷ cs

abbrev pub unbracketed : List ℕ → List ℕ
unbracketed host = reverse (strip_all b']' (reverse (strip_all b'[' host)))

-- The three lists of the loop.
pub record Seen : Type 0 where
  pub ipv4 : List (List ℕ)
  pub ipv6 : List (List ℕ)
  pub hosts : List (List ℕ)

abbrev pub nothing_seen : Seen
nothing_seen = record { ipv4 = []; ipv6 = []; hosts = [] }

unfoldable pub see_prefix : Seen → Prefix → Result Seen SybilError
see_prefix s (prefix4 p) =
    if member s.ipv4 p then err (subnet_collision p) else ok (record s { ipv4 = p ∷ s.ipv4 })
see_prefix s (prefix6 p) =
    if member s.ipv6 p then err (ipv6_subnet_collision p) else ok (record s { ipv6 = p ∷ s.ipv6 })

module _ (parse_ip : List ℕ → Option IpAddr) where
  abbrev pub see_address : Seen → List ℕ → Option IpAddr → Result Seen SybilError
  see_address s host none = err (unresolvable_host host)
  see_address s host (some ip) = see_prefix s (prefix_of ip)

  -- One round of the loop.
  unfoldable pub see : Seen → List ℕ → Result Seen SybilError
  unfolding see_prefix
  see s host =
      if member s.hosts host
      then err (duplicate_node host)
      else see_address (record s { hosts = host ∷ s.hosts }) host (parse_ip (unbracketed host))

  unfoldable pub validate_from : Seen → List (List ℕ) → Result (Unit {0}) SybilError
  validate_from s [] = ok tt
  validate_from s (host ∷ hosts) = do t ← see s host; validate_from t hosts

  unfoldable pub validate_circuit_diversity : List (List ℕ) → Result (Unit {0}) SybilError
  unfolding validate_from
  validate_circuit_diversity hosts = validate_from nothing_seen hosts
