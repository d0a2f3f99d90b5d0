-- ===== src/Kernel/Dns.antt =====
-- src/kernel/dns.rs: the CONNECT request of SOCKS5 with names resolved by the proxy.
use anon_guard.Base.{
  ℕ, ◌%◌, Bool, not, ◌&&◌, ◌||◌, List, ◌∷◌, ◌++◌, ltb, ◌==◌, if◌then◌else◌, length, any, be16,
  Result, ok, err, ◌>>=◌,
}

-- The kinds of `std::io::Error` that the callers tell apart, and the two reasons for `invalid_input`.
pub data SocksError : Type 0 where
  invalid_domain zero_port permission_denied refused invalid_data unsupported unexpected_eof :
      SocksError

pub data TargetAddress : Type 0 where
  ipv4 ipv6 domain : List ℕ → TargetAddress

-- `is_ascii_control` and `is_ascii_whitespace`, of an ASCII byte or not.
abbrev pub plain : ℕ → Bool
plain b = ltb 32 b && ltb b 127

unfoldable pub validate_domain : List ℕ → Result (Unit {0}) SocksError
validate_domain host =
    if (length host == 0) || (ltb 255 (length host) || any (λ b. not (plain b)) host)
    then err invalid_domain
    else ok tt

unfoldable pub address_bytes : TargetAddress → Bool → Result (List ℕ) SocksError
address_bytes (domain host) block_ipv6 =
    validate_domain host >>= λ u. ok (3 ∷ (length host % 256) ∷ host)
address_bytes (ipv4 ip) block_ipv6 = ok (1 ∷ ip)
address_bytes (ipv6 ip) block_ipv6 = if block_ipv6 then err permission_denied else ok (4 ∷ ip)

unfoldable pub build_socks5h_connect_frame : TargetAddress → ℕ → Bool → Result (List ℕ) SocksError
build_socks5h_connect_frame target port block_ipv6 =
    if port == 0
    then err zero_port
    else address_bytes target block_ipv6 >>= λ address. ok (5 ∷ 1 ∷ 0 ∷ (address ++ be16 port))
