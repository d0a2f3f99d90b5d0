-- ===== src/Kernel/ExitPolicy/Blocks.antt =====
-- The octet tests of src/kernel/exit_policy.rs against the address blocks that they stand for,
-- each a network number and a prefix length.
use anon_guard.Base.{
  ℕ, ◌+◌, ◌-◌, ◌*◌, ◌/◌, ◌^◌, ◌≡◌, refl, ap, Bool, true, false, not, ◌&&◌, ◌||◌, List, [], ◌∷◌,
  arith, leb, ◌==◌, if◌then◌else◌, any,
}
use anon_guard.Kernel.Ip.{Ipv4Addr, Ipv6Addr, IpAddr, v4, v6, IsIpv4, v4_of_segments, to_ipv4}
use anon_guard.Kernel.ExitPolicy.{
  ExitPolicy, v4_permitted, v6_permitted, v6_native_permitted, is_ip_permitted,
}

-- The address as a number of 32 bits.
abbrev pub number : Ipv4Addr → ℕ
number x = x.a * 16777216 + x.b * 65536 + x.c * 256 + x.d

-- a.b.c.d/len
pub record Block : Type 0 where
  pub network : Ipv4Addr
  pub len : ℕ

abbrev block : ℕ → ℕ → ℕ → ℕ → ℕ → Block
block a b c d len = record { network = record { a = a; b = b; c = c; d = d }; len = len }

abbrev pub in_block : ℕ → Block → Bool
in_block n k = n / 2 ^ (32 - k.len) == number k.network / 2 ^ (32 - k.len)

-- The special-purpose blocks, in the order of the source.
abbrev pub blocked : List Block
blocked =
    block 127 0 0 0 8
    ∷ block 0 0 0 0 8
    ∷ block 169 254 0 0 16
    ∷ block 10 0 0 0 8
    ∷ block 172 16 0 0 12
    ∷ block 192 168 0 0 16
    ∷ block 224 0 0 0 4
    ∷ block 255 255 255 255 32
    ∷ block 100 64 0 0 10
    ∷ block 192 0 2 0 24
    ∷ block 198 51 100 0 24
    ∷ block 203 0 113 0 24
    ∷ block 240 0 0 0 4
    ∷ block 192 0 0 0 24
    ∷ block 198 18 0 0 15
    ∷ []

deny : (t b d rest : Bool) → t ≡ d → rest ≡ not b → (if t then false else rest) ≡ not (d || b)
deny t b d rest e f = ground arith

module _ (x : Ipv4Addr) (w : IsIpv4 x) where
  loopback : ((x.a == 127) || (x.a == 127)) ≡ in_block (number x) (block 127 0 0 0 8)
  loopback = ground arith

  this_network :
      (((x.a == 0) && ((x.b == 0) && ((x.c == 0) && (x.d == 0)))) || (x.a == 0))
      ≡ in_block (number x) (block 0 0 0 0 8)
  this_network = ground arith

  link_local :
      (((x.a == 169) && (x.b == 254)) || ((x.a == 169) && (x.b == 254)))
      ≡ in_block (number x) (block 169 254 0 0 16)
  link_local = ground arith

  private_a : (x.a == 10) ≡ in_block (number x) (block 10 0 0 0 8)
  private_a = ground arith

  private_b :
      ((x.a == 172) && (leb 16 x.b && leb x.b 31)) ≡ in_block (number x) (block 172 16 0 0 12)
  private_b = ground arith

  private_c : ((x.a == 192) && (x.b == 168)) ≡ in_block (number x) (block 192 168 0 0 16)
  private_c = ground arith

  multicast :
      ((leb 224 x.a && leb x.a 239) || (leb 224 x.a && leb x.a 239))
      ≡ in_block (number x) (block 224 0 0 0 4)
  multicast = ground arith

  broadcast :
      ((x.a == 255) && ((x.b == 255) && ((x.c == 255) && (x.d == 255))))
      ≡ in_block (number x) (block 255 255 255 255 32)
  broadcast = ground arith

  carrier :
      ((x.a == 100) && (leb 64 x.b && leb x.b 127)) ≡ in_block (number x) (block 100 64 0 0 10)
  carrier = ground arith

  test_one : ((x.a == 192) && ((x.b == 0) && (x.c == 2))) ≡ in_block (number x) (block 192 0 2 0 24)
  test_one = ground arith

  test_two :
      ((x.a == 198) && ((x.b == 51) && (x.c == 100))) ≡ in_block (number x) (block 198 51 100 0 24)
  test_two = ground arith

  test_three :
      ((x.a == 203) && ((x.b == 0) && (x.c == 113))) ≡ in_block (number x) (block 203 0 113 0 24)
  test_three = ground arith

  future : (x.a / 16 * 16 == 240) ≡ in_block (number x) (block 240 0 0 0 4)
  future = ground arith

  assignments :
      ((x.a == 192) && ((x.b == 0) && (x.c == 0))) ≡ in_block (number x) (block 192 0 0 0 24)
  assignments = ground arith

  benchmark : ((x.a == 198) && (x.b / 2 * 2 == 18)) ≡ in_block (number x) (block 198 18 0 0 15)
  benchmark = ground arith

-- An IPv4 address is permitted exactly when it lies in none of the special-purpose blocks.
pub v4_permitted-blocked :
    (x : Ipv4Addr) → IsIpv4 x → v4_permitted x ≡ not (any (in_block (number x)) blocked)
unfolding v4_permitted
v4_permitted-blocked x w = deny _ _ _ _ (loopback x w) (
    deny _ _ _ _ (this_network x w) (
      deny _ _ _ _ (link_local x w) (
        deny _ _ _ _ (private_a x w) (
          deny _ _ _ _ (private_b x w) (
            deny _ _ _ _ (private_c x w) (
              deny _ _ _ _ (multicast x w) (
                deny _ _ _ _ (broadcast x w) (
                  deny _ _ _ _ (carrier x w) (
                    deny _ _ _ _ (test_one x w) (
                      deny _ _ _ _ (test_two x w) (
                        deny _ _ _ _ (test_three x w) (
                          deny _ _ _ _ (future x w) (
                            deny _ _ _ _ (assignments x w)
                              (deny _ _ _ _ (benchmark x w) refl))))))))))))))

-- x.x.x.x as the two segments that hold it.
abbrev high : Ipv4Addr → ℕ
high x = x.a * 256 + x.b

abbrev low : Ipv4Addr → ℕ
low x = x.c * 256 + x.d

segments_of : (x : Ipv4Addr) → IsIpv4 x → v4_of_segments (high x) (low x) ≡ x
segments_of x w = ground arith

abbrev six_words : ℕ → ℕ → ℕ → ℕ → ℕ → ℕ → ℕ → ℕ → Ipv6Addr
six_words s0 s1 s2 s3 s4 s5 s6 s7 = record {
  s0 = s0;
  s1 = s1;
  s2 = s2;
  s3 = s3;
  s4 = s4;
  s5 = s5;
  s6 = s6;
  s7 = s7;
}

-- The IPv6 forms that carry an IPv4 address: ::ffff:x, ::x, 64:ff9b::x and 2002:x::/48.
abbrev pub mapped : Ipv4Addr → IpAddr
mapped x = v6 (six_words 0 0 0 0 0 65535 (high x) (low x))

abbrev pub compatible : Ipv4Addr → IpAddr
compatible x = v6 (six_words 0 0 0 0 0 0 (high x) (low x))

abbrev pub nat64 : Ipv4Addr → IpAddr
nat64 x = v6 (six_words 0x64 0xff9b 0 0 0 0 (high x) (low x))

abbrev pub six_to_four : Ipv4Addr → ℕ → ℕ → ℕ → ℕ → ℕ → IpAddr
six_to_four x s3 s4 s5 s6 s7 = v6 (six_words 0x2002 (high x) (low x) s3 s4 s5 s6 s7)

compatible_permitted :
    (p : ExitPolicy) (x : Ipv4Addr)
    → IsIpv4 x
    → (is_ip_permitted p (compatible x) && not (is_ip_permitted p (v4 x))) ≡ false
unfolding is_ip_permitted v6_permitted to_ipv4
compatible_permitted p x w = ground (arith, ap v4_permitted (segments_of x w))

-- The forms that carry one in another place: 64:ff9b:1::/48, where its place depends on the
-- translator, and Teredo, 2001::/32, where it is inverted.
abbrev pub local_nat64 : ℕ → ℕ → ℕ → ℕ → ℕ → IpAddr
local_nat64 s3 s4 s5 s6 s7 = v6 (six_words 0x64 0xff9b 1 s3 s4 s5 s6 s7)

abbrev pub teredo : ℕ → ℕ → ℕ → ℕ → ℕ → ℕ → IpAddr
teredo s2 s3 s4 s5 s6 s7 = v6 (six_words 0x2001 0 s2 s3 s4 s5 s6 s7)

when_allowed : (allow : Bool) → (if allow then true else false) ≡ allow
when_allowed true = refl
when_allowed false = refl

-- Under any policy an address of the form ::ffff:x, 64:ff9b::x or 2002:x::/48 is permitted
-- exactly when the IPv4 address x is, and one of the form ::x only if x is. An address in
-- 64:ff9b:1::/48 or in 2001::/32, whatever it carries, is permitted only by a policy that allows
-- private networks.
pub is_ip_permitted-embedded :
    (p : ExitPolicy) (x : Ipv4Addr) (s2 s3 s4 s5 s6 s7 : ℕ)
    → IsIpv4 x
    → (is_ip_permitted p (mapped x) ≡ is_ip_permitted p (v4 x))
      × (is_ip_permitted p (nat64 x) ≡ is_ip_permitted p (v4 x))
      × (is_ip_permitted p (six_to_four x s3 s4 s5 s6 s7) ≡ is_ip_permitted p (v4 x))
      × ((is_ip_permitted p (compatible x) && not (is_ip_permitted p (v4 x))) ≡ false)
      × (is_ip_permitted p (local_nat64 s3 s4 s5 s6 s7) ≡ p.allow_private_networks)
      × (is_ip_permitted p (teredo s2 s3 s4 s5 s6 s7) ≡ p.allow_private_networks)
unfolding is_ip_permitted v6_permitted v6_native_permitted to_ipv4
is_ip_permitted-embedded p x s2 s3 s4 s5 s6 s7 w =
    let carried = λ (a : Ipv4Addr). if p.allow_private_networks then true else v4_permitted a in
    let same = ap carried (segments_of x w) in
    let refused = when_allowed p.allow_private_networks in
    (same, same, same, compatible_permitted p x w, refused, refused)
