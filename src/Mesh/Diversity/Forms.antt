-- ===== src/Mesh/Diversity/Forms.antt =====
-- The prefixes of src/mesh/sybil.rs against a table of the IPv6 forms that carry an IPv4 address.
use anon_guard.Base.{
  ℕ, zero, suc, ◌+◌, ◌-◌, ◌*◌, ◌/◌, ◌%◌, ◌<◌, ◌≡◌, refl, ap, ◌∙◌, Bool, true, false, ◌&&◌, ◌||◌,
  none, some, List, [], ◌∷◌, arith, ◌==◌, if◌then◌else◌,
}
use anon_guard.Kernel.Ip.{
  Ipv4Addr, Ipv6Addr, IpAddr, v4, v6, IsIpv4, v4_of_segments, to_ipv4, to_ipv4_mapped,
}
use anon_guard.Mesh.Diversity.{Prefix, prefix4, prefix6, native_prefix, first_v4, prefix_of}

-- The first sixteen bits of an IPv4 address, or the first two segments of an IPv6 address.
pub data Subnet : Type 0 where
  net4 : ℕ → Subnet
  net6 : ℕ → ℕ → Subnet

-- A form: the segments that it starts with, the place of the segment that holds the first half of
-- the IPv4 address, and whether its bits are inverted.
pub record Form : Type 0 where
  pub head : List ℕ
  pub place : ℕ
  pub inverted : Bool

-- ::ffff:0:0/96, ::/96, 2002::/16, 2001::/32 and 64:ff9b::/96
abbrev pub forms : List Form
forms =
    record { head = 0 ∷ 0 ∷ 0 ∷ 0 ∷ 0 ∷ 0xffff ∷ []; place = 6; inverted = false }
    ∷ record { head = 0 ∷ 0 ∷ 0 ∷ 0 ∷ 0 ∷ 0 ∷ []; place = 6; inverted = false }
    ∷ record { head = 0x2002 ∷ []; place = 1; inverted = false }
    ∷ record { head = 0x2001 ∷ 0 ∷ []; place = 6; inverted = true }
    ∷ record { head = 0x64 ∷ 0xff9b ∷ 0 ∷ 0 ∷ 0 ∷ 0 ∷ []; place = 6; inverted = false }
    ∷ []

abbrev segments : Ipv6Addr → List ℕ
segments x = x.s0 ∷ x.s1 ∷ x.s2 ∷ x.s3 ∷ x.s4 ∷ x.s5 ∷ x.s6 ∷ x.s7 ∷ []

abbrev starts : List ℕ → List ℕ → Bool
starts [] ss = true
starts (h ∷ hs) [] = false
starts (h ∷ hs) (s ∷ ss) = (s == h) && starts hs ss

abbrev segment_at : List ℕ → ℕ → ℕ
segment_at [] n = 0
segment_at (s ∷ ss) zero = s
segment_at (s ∷ ss) (suc n) = segment_at ss n

abbrev carried : Form → List ℕ → ℕ
carried f ss = let s = segment_at ss f.place in if f.inverted then 0xffff - s else s

-- The subnet that the first form of the table that fits gives.
abbrev subnet6 : List Form → Ipv6Addr → Subnet
subnet6 [] x = net6 x.s0 x.s1
subnet6 (f ∷ fs) x =
    let rest = subnet6 fs x in
    if starts f.head (segments x) then net4 (carried f (segments x)) else rest

pub subnet_of : IpAddr → Subnet
subnet_of (v4 x) = net4 (x.a * 256 + x.b)
subnet_of (v6 x) = subnet6 forms x

pub record IsIpv6 (x : Ipv6Addr) : Type 0 where
  pub w0 : x.s0 < 65536
  pub w1 : x.s1 < 65536
  pub w2 : x.s2 < 65536
  pub w3 : x.s3 < 65536
  pub w4 : x.s4 < 65536
  pub w5 : x.s5 < 65536
  pub w6 : x.s6 < 65536
  pub w7 : x.s7 < 65536

abbrev pub IsIp : IpAddr → Type 0
IsIp (v4 x) = IsIpv4 x
IsIp (v6 x) = IsIpv6 x

-- The bytes of a subnet, as the code keeps them.
abbrev pub bytes_of : Subnet → Prefix
bytes_of (net4 n) = prefix4 (n / 256 ∷ n % 256 ∷ [])
bytes_of (net6 s t) = prefix6 (s / 256 ∷ s % 256 ∷ t / 256 ∷ t % 256 ∷ [])

prefix_of-v4 : (x : Ipv4Addr) → IsIpv4 x → prefix_of (v4 x) ≡ bytes_of (subnet_of (v4 x))
unfolding prefix_of subnet_of
prefix_of-v4 x w = ground arith

-- One test of the code against one row of the table.
choose :
    (t d : Bool) (a p : Prefix) (b q : Subnet)
    → t ≡ d
    → (d ≡ true → a ≡ bytes_of b)
    → (d ≡ false → p ≡ bytes_of q)
    → (if t then a else p) ≡ bytes_of (if d then b else q)
choose t true a p b q e f g = rw e (f refl)
choose t false a p b q e f g = rw e (g refl)

first_v4-if :
    (t : Bool) (a : Ipv4Addr) (p : Prefix)
    → first_v4 (if t then some a else none) p ≡ (if t then first_v4 (some a) p else p)
first_v4-if true a p = refl
first_v4-if false a p = refl

prefix4_eq : (a b c d : ℕ) → a ≡ c → b ≡ d → prefix4 (a ∷ b ∷ []) ≡ prefix4 (c ∷ d ∷ [])
prefix4_eq a b c d e f = cc

module _ (x : Ipv6Addr) (w : IsIpv6 x) where
  -- The table without its first rows.
  abbrev native_forms : List Form
  native_forms =
      record { head = 0x2002 ∷ []; place = 1; inverted = false }
      ∷ record { head = 0x2001 ∷ 0 ∷ []; place = 6; inverted = true }
      ∷ record { head = 0x64 ∷ 0xff9b ∷ 0 ∷ 0 ∷ 0 ∷ 0 ∷ []; place = 6; inverted = false }
      ∷ []

  teredo_test :
      ((x.s0 / 256 == 0x20) && ((x.s0 % 256 == 0x01) && ((x.s1 / 256 == 0) && (x.s1 % 256 == 0))))
      ≡ starts (0x2001 ∷ 0 ∷ []) (segments x)
  teredo_test = ground (arith, w.w0, w.w1)

  six_to_four_test :
      ((x.s0 / 256 == 0x20) && (x.s0 % 256 == 0x02)) ≡ starts (0x2002 ∷ []) (segments x)
  six_to_four_test = ground (arith, w.w0)

  nat64_test :
      ((x.s0 == 0x64)
        && ((x.s1 == 0xff9b) && ((x.s2 == 0) && ((x.s3 == 0) && ((x.s4 == 0) && (x.s5 == 0))))))
      ≡ starts (0x64 ∷ 0xff9b ∷ 0 ∷ 0 ∷ 0 ∷ 0 ∷ []) (segments x)
  nat64_test = ground arith

  native_prefix-table : native_prefix x ≡ bytes_of (subnet6 native_forms x)
  unfolding native_prefix
  native_prefix-table =
      choose _ _ _ _ _ _ six_to_four_test (λ h. refl)
        (λ h.
          choose _ _ _ _ _ _ teredo_test
            (λ h. prefix4_eq _ _ _ _ (omega (arith, w.w6)) (omega (arith, w.w6)))
            (λ h. choose _ _ _ _ _ _ nat64_test (λ h. refl) (λ h. refl)))

  abbrev is_mapped : Bool
  is_mapped =
      (x.s0 == 0)
      && ((x.s1 == 0) && ((x.s2 == 0) && ((x.s3 == 0) && ((x.s4 == 0) && (x.s5 == 65535)))))

  abbrev is_either : Bool
  is_either =
      (x.s0 == 0)
      && ((x.s1 == 0)
          && ((x.s2 == 0) && ((x.s3 == 0) && ((x.s4 == 0) && ((x.s5 == 0) || (x.s5 == 65535))))))

  mapped_test : is_mapped ≡ starts (0 ∷ 0 ∷ 0 ∷ 0 ∷ 0 ∷ 0xffff ∷ []) (segments x)
  mapped_test = ground arith

  compatible_test :
      starts (0 ∷ 0 ∷ 0 ∷ 0 ∷ 0 ∷ 0xffff ∷ []) (segments x) ≡ false
      → is_either ≡ starts (0 ∷ 0 ∷ 0 ∷ 0 ∷ 0 ∷ 0 ∷ []) (segments x)
  compatible_test h = ground arith

  low_part : prefix4 (x.s6 / 256 % 256 ∷ x.s6 % 256 ∷ []) ≡ bytes_of (net4 x.s6)
  low_part = prefix4_eq _ _ _ _ (omega (arith, w.w6)) refl

  prefix_of-v6 : prefix_of (v6 x) ≡ bytes_of (subnet_of (v6 x))
  unfolding prefix_of subnet_of to_ipv4 to_ipv4_mapped
  prefix_of-v6 =
      let a = v4_of_segments x.s6 x.s7 in
      let rest = first_v4 (to_ipv4 x) (native_prefix x) in
      first_v4-if is_mapped a rest
      ∙ choose is_mapped _ _ rest _ _ mapped_test (λ h. low_part)
          (λ h.
            first_v4-if is_either a (native_prefix x)
            ∙ choose is_either _ _ (native_prefix x) _ _ (compatible_test h) (λ k. low_part)
                (λ k. native_prefix-table))

pub prefix_of-bytes_of : (ip : IpAddr) → IsIp ip → prefix_of ip ≡ bytes_of (subnet_of ip)
prefix_of-bytes_of (v4 x) w = prefix_of-v4 x w
prefix_of-bytes_of (v6 x) w = prefix_of-v6 x w

bytes4_inj : (m n : ℕ) → bytes_of (net4 m) ≡ bytes_of (net4 n) → m ≡ n
bytes4_inj m n h =
    let high : m / 256 ≡ n / 256 = cc in let low : m % 256 ≡ n % 256 = cc in omega arith

pub bytes_of-inj : (m n : Subnet) → bytes_of m ≡ bytes_of n → m ≡ n
bytes_of-inj (net4 m) (net4 n) h = ap net4 (bytes4_inj m n h)
bytes_of-inj (net4 m) (net6 s t) h = cc
bytes_of-inj (net6 s t) (net4 n) h = cc
bytes_of-inj (net6 s t) (net6 u v) h =
    let a : s / 256 ≡ u / 256 = cc in
    let b : s % 256 ≡ u % 256 = cc in
    let c : t / 256 ≡ v / 256 = cc in
    let d : t % 256 ≡ v % 256 = cc in
    let e : s ≡ u = omega (arith, a, b) in let f : t ≡ v = omega (arith, c, d) in cc
