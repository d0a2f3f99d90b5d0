-- ===== src/Gateway/Socks.antt =====
-- src/gateway/chain.rs: both ends of the SOCKS5 handshake. The bytes of a fixed header are read
-- one by one.
pub mod Handshake
use anon_guard.Base.{
  ℕ, ◌*◌, ◌+◌, ◌%◌, Bool, false, not, ◌&&◌, ◌||◌, Option, none, some, List, [], ◌∷◌, ◌++◌, ◌==◌,
  if◌then◌else◌, length, contains, codes,
}
use anon_guard.Kernel.Dns.{
  refused, invalid_data, unsupported, permission_denied, zero_port, TargetAddress, ipv4, ipv6,
  domain, validate_domain, build_socks5h_connect_frame,
}
use anon_guard.Gateway.Stream.{
  Io, ◌>>=◌, ◌>>◌, return, fail, lift, read_exact, read_u8, write_all, unless,
}

-- `FromStr` and `Display` of `Ipv4Addr` and `Ipv6Addr`, `String::from_utf8` and SHA-256.
pub record Texts : Type 0 where
  pub parse4 : List ℕ → Option (List ℕ)
  pub parse6 : List ℕ → Option (List ℕ)
  pub format4 : List ℕ → List ℕ
  pub format6 : List ℕ → List ℕ
  pub utf8 : List ℕ → Bool
  pub sha256 : List ℕ → List ℕ

pub record Request : Type 0 where
  pub host : List ℕ
  pub port : ℕ
  pub context : Option (List ℕ)

module _ (x : Texts) where
  abbrev or_domain : List ℕ → Option (List ℕ) → TargetAddress
  or_domain host none = domain host
  or_domain host (some ip) = ipv6 ip

  abbrev or_ipv6 : List ℕ → Option (List ℕ) → TargetAddress
  or_ipv6 host none = or_domain host (x.parse6 host)
  or_ipv6 host (some ip) = ipv4 ip

  unfoldable pub target_of : List ℕ → TargetAddress
  target_of host = or_ipv6 host (x.parse4 host)

  -- The bound address of a reply is read over.
  skip_bound : ℕ → Io (Unit {0})
  skip_bound kind =
      if kind == 1
      then read_exact 6 >> return tt
      else if kind == 4
      then read_exact 18 >> return tt
      else if kind == 3
      then (do
        len ← read_u8
        unless (not (len == 0)) invalid_data (read_exact (len + 2) >> return tt))
      else fail invalid_data

  pub connected : Io (Unit {0})
  unfolding skip_bound
  connected = do
    version ← read_u8
    reply ← read_u8
    reserved ← read_u8
    kind ← read_u8
    unless ((version == 5) && ((reply == 0) && (reserved == 0))) refused (skip_bound kind)

  pub socks5_connect_through : List ℕ → ℕ → Bool → Io (Unit {0})
  unfolding target_of
  socks5_connect_through host port block_ipv6 = do
    write_all (5 ∷ 1 ∷ 0 ∷ [])
    version ← read_u8
    method ← read_u8
    unless ((version == 5) && (method == 0)) refused (do
      frame ← lift (build_socks5h_connect_frame (target_of host) port block_ipv6)
      write_all frame
      connected)

  -- RFC 1929 labels: their hash is the privacy context.
  read_context : Io (Option (List ℕ))
  read_context = do
    write_all (5 ∷ 2 ∷ [])
    version ← read_u8
    len ← read_u8
    unless ((version == 1) && not (len == 0)) invalid_data (do
      username ← read_exact len
      size ← read_u8
      unless (not (size == 0)) invalid_data (do
        password ← read_exact size
        write_all (1 ∷ 0 ∷ [])
        return (
            some (
              x.sha256 (
                codes "AnonGuard-local-context-v1"
                ++ ((length username % 256 ∷ username) ++ (length password % 256 ∷ password)))))))

  pub read_host : ℕ → Io (List ℕ)
  read_host kind =
      if kind == 1
      then (do address ← read_exact 4; return (x.format4 address))
      else if kind == 4
      then (do address ← read_exact 16; return (x.format6 address))
      else if kind == 3
      then (do
        len ← read_u8
        host ← read_exact len
        unless (x.utf8 host) invalid_data (lift (validate_domain host) >> return host))
      else fail invalid_data

  pub read_target : Option (List ℕ) → Io Request
  unfolding read_host
  read_target context = do
    version ← read_u8
    command ← read_u8
    reserved ← read_u8
    kind ← read_u8
    unless ((version == 5) && ((command == 1) && (reserved == 0))) unsupported (do
      host ← read_host kind
      high ← read_u8
      low ← read_u8
      unless (not (high * 256 + low == 0)) zero_port
          (return (record { host = host; port = high * 256 + low; context = context })))

  -- The answer to the methods that the client offers.
  choose_method : Bool → List ℕ → Io Request
  unfolding read_context read_target
  choose_method context_mode methods =
      if not (contains methods 0 || (context_mode && contains methods 2))
      then (do write_all (5 ∷ 255 ∷ []); fail permission_denied)
      else if context_mode && contains methods 2
      then (do context ← read_context; read_target context)
      else (do write_all (5 ∷ 0 ∷ []); read_target none)

  pub read_socks5_request_context : Bool → Io Request
  unfolding choose_method
  read_socks5_request_context context_mode = do
    version ← read_u8
    count ← read_u8
    unless (version == 5) invalid_data
        (do methods ← read_exact count; choose_method context_mode methods)

  pub send_socks5_reply : ℕ → Io (Unit {0})
  send_socks5_reply code = write_all (5 ∷ code ∷ 0 ∷ 1 ∷ 0 ∷ 0 ∷ 0 ∷ 0 ∷ 0 ∷ 0 ∷ [])

  -- `intercept_socks5_request`: the request, answered with success.
  pub intercept_socks5_request : Io Request
  intercept_socks5_request = do
    request ← read_socks5_request_context false
    send_socks5_reply 0
    return request
