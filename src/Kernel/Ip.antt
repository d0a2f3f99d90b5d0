-- ===== src/Kernel/Ip.antt =====
-- `std::net` addresses as the program uses them: four octets, or eight 16-bit segments.
use anon_guard.Base.{ℕ, ◌/◌, ◌%◌, ◌<◌, ◌&&◌, ◌||◌, Option, none, some, ◌==◌, if◌then◌else◌}

pub record Ipv4Addr : Type 0 where
  pub a : ℕ
  pub b : ℕ
  pub c : ℕ
  pub d : ℕ

pub record Ipv6Addr : Type 0 where
  pub s0 : ℕ
  pub s1 : ℕ
  pub s2 : ℕ
  pub s3 : ℕ
  pub s4 : ℕ
  pub s5 : ℕ
  pub s6 : ℕ
  pub s7 : ℕ

pub data IpAddr : Type 0 where
  v4 : Ipv4Addr → IpAddr
  v6 : Ipv6Addr → IpAddr

pub record SocketAddr : Type 0 where
  pub ip : IpAddr
  pub port : ℕ

pub record IsIpv4 (x : Ipv4Addr) : Type 0 where
  pub a_byte : x.a < 256
  pub b_byte : x.b < 256
  pub c_byte : x.c < 256
  pub d_byte : x.d < 256

-- The high and the low byte of two segments, `(s >> 8) as u8` and `s as u8`.
abbrev pub v4_of_segments : ℕ → ℕ → Ipv4Addr
v4_of_segments s t = record { a = s / 256 % 256; b = s % 256; c = t / 256 % 256; d = t % 256 }

-- `Ipv6Addr::to_ipv4_mapped`: ::ffff:a.b.c.d
unfoldable pub to_ipv4_mapped : Ipv6Addr → Option Ipv4Addr
to_ipv4_mapped x =
    if (x.s0 == 0)
      && ((x.s1 == 0) && ((x.s2 == 0) && ((x.s3 == 0) && ((x.s4 == 0) && (x.s5 == 65535)))))
    then some (v4_of_segments x.s6 x.s7)
    else none

-- `Ipv6Addr::to_ipv4`: ::ffff:a.b.c.d and ::a.b.c.d
unfoldable pub to_ipv4 : Ipv6Addr → Option Ipv4Addr
to_ipv4 x =
    if (x.s0 == 0)
      && ((x.s1 == 0)
          && ((x.s2 == 0) && ((x.s3 == 0) && ((x.s4 == 0) && ((x.s5 == 0) || (x.s5 == 65535))))))
    then some (v4_of_segments x.s6 x.s7)
    else none
