-- ===== src/Gateway/Socks/Handshake.antt =====
-- The handshake of src/gateway/chain.rs between the program's own two ends.
use anon_guard.Base.{
  ℕ, ◌+◌, ◌*◌, ◌/◌, ◌%◌, ◌<◌, ◌≡◌, ◌≢◌, refl, sym, Bool, true, false, not, ◌||◌, inl, inr, none,
  some, List, [], ◌∷◌, ◌++◌, arith, ltb, ◌==◌, ==_false, Bool-cases, Option-cases, length, any,
  be16, Result, Result-cases, ok,
}
use mathlib.Core.List.{append_assoc}
use anon_guard.Kernel.Dns.{
  SocksError, TargetAddress, ipv4, ipv6, domain, plain, validate_domain, address_bytes,
  build_socks5h_connect_frame,
}
use anon_guard.Gateway.Stream.{Stream, read_exact-front}
use anon_guard.Gateway.Socks.{
  intercept_socks5_request, Texts, target_of, connected, socks5_connect_through, read_host,
  read_target, read_socks5_request_context, send_socks5_reply,
}

abbrev stream : List ℕ → List ℕ → Stream
stream input output = record { input = input; output = output }

-- Documented behaviour: an address has its size, and its text is read back as that address; a
-- plain text is UTF-8.
pub record IsTexts (x : Texts) : Type 0 where
  pub size4 : (h ip : List ℕ) → x.parse4 h ≡ some ip → length ip ≡ 4
  pub size6 : (h ip : List ℕ) → x.parse6 h ≡ some ip → length ip ≡ 16
  pub back4 : (ip : List ℕ) → length ip ≡ 4 → x.parse4 (x.format4 ip) ≡ some ip
  pub other4 : (ip : List ℕ) → length ip ≡ 16 → x.parse4 (x.format6 ip) ≡ none
  pub back6 : (ip : List ℕ) → length ip ≡ 16 → x.parse6 (x.format6 ip) ≡ some ip
  pub plain_utf8 : (h : List ℕ) → any (λ b. not (plain b)) h ≡ false → x.utf8 h ≡ true

port_back : (port : ℕ) → port < 65536 → port / 256 % 256 * 256 + port % 256 ≡ port
port_back port h = omega arith

validate_domain-plain :
    (host : List ℕ)
    → validate_domain host ≡ ok tt
    → (length host % 256 ≡ length host) × (any (λ b. not (plain b)) host ≡ false)
unfolding validate_domain
validate_domain-plain host v =
    elim (Bool-cases
      ((length host == 0) || (ltb 255 (length host) || any (λ b. not (plain b)) host))) [
        | inl bad ↦ cc (rw bad at v)
        | inr good ↦ parts (length host) (any (λ b. not (plain b)) host) good
      ]
  where
    parts :
        (n : ℕ) (c : Bool) → ((n == 0) || (ltb 255 n || c)) ≡ false → (n % 256 ≡ n) × (c ≡ false)
    parts n c h = ground arith

module _ (x : Texts) where
  read_host-ipv4 :
      (ip rest out : List ℕ)
      → length ip ≡ 4
      → read_host x 1 (stream (ip ++ rest) out) ≡ ok (x.format4 ip, stream rest out)
  unfolding read_host
  read_host-ipv4 ip rest out h = rw (read_exact-front ip rest out 4 h) refl

  read_host-ipv6 :
      (ip rest out : List ℕ)
      → length ip ≡ 16
      → read_host x 4 (stream (ip ++ rest) out) ≡ ok (x.format6 ip, stream rest out)
  unfolding read_host
  read_host-ipv6 ip rest out h = rw (read_exact-front ip rest out 16 h) refl

  read_host-domain :
      (host rest out : List ℕ)
      → validate_domain host ≡ ok tt
      → x.utf8 host ≡ true
      → read_host x 3 (stream (length host ∷ (host ++ rest)) out) ≡ ok (host, stream rest out)
  unfolding read_host
  read_host-domain host rest out v u =
      rw (read_exact-front host rest out (length host) refl, u, v) refl

  -- The server reads the rest of the frame once it has the host.
  request_read :
      (port kind : ℕ) (body host rest : List ℕ)
      → port < 65536
      → port ≢ 0
      → read_host x kind (stream (body ++ (be16 port ++ rest)) (5 ∷ 0 ∷ []))
        ≡ ok (host, stream (be16 port ++ rest) (5 ∷ 0 ∷ []))
      → read_socks5_request_context x false
          (stream (5 ∷ 1 ∷ 0 ∷ 5 ∷ 1 ∷ 0 ∷ kind ∷ (body ++ (be16 port ++ rest))) [])
        ≡ ok (record { host = host; port = port; context = none }, stream rest (5 ∷ 0 ∷ []))
  unfolding read_socks5_request_context read_target
  request_read port kind body host rest small some_port h =
      rw (read_exact-front (0 ∷ []) (5 ∷ 1 ∷ 0 ∷ kind ∷ (body ++ (be16 port ++ rest))) [] 1 refl)
        (rw (h, port_back port small, ==_false port 0 some_port) refl)

  -- The frame of a target: its kind, what the server reads as the host, and the port.
  abbrev Framed : TargetAddress → ℕ → List ℕ → Type 0
  Framed target port frame =
      (kind : ℕ) × (body : List ℕ) × (h : List ℕ) × (frame ≡ 5 ∷ 1 ∷ 0 ∷ kind ∷ (body ++ be16 port))
      × (target_of x h ≡ target)
      × (port ≢ 0)
      × ((rest out : List ℕ)
          → read_host x kind (stream (body ++ rest) out) ≡ ok (h, stream rest out))

  ok_inj : (a b : List ℕ) → ◌≡◌ {A = Result (List ℕ) SocksError} (ok a) (ok b) → a ≡ b
  ok_inj a b h = cc

  zero_refused : (n : ℕ) → (n == 0) ≡ false → n ≢ 0
  zero_refused n h = ground arith

  module _ (law : IsTexts x) (port : ℕ) (frame : List ℕ) where
    Framed-ipv4 :
        (host ip : List ℕ) (block_ipv6 : Bool)
        → x.parse4 host ≡ some ip
        → build_socks5h_connect_frame (ipv4 ip) port block_ipv6 ≡ ok frame
        → Framed (ipv4 ip) port frame
    unfolding build_socks5h_connect_frame address_bytes target_of
    Framed-ipv4 host ip block_ipv6 p h = elim (Bool-cases (port == 0)) [
      | inl none_given ↦ cc (rw none_given at h)
      | inr given ↦
          let size = law.size4 host ip p in
          (
            1,
            ip,
            x.format4 ip,
            sym (ok_inj _ _ (rw given at h)),
            rw (law.back4 ip size) refl,
            zero_refused port given,
            λ rest out. read_host-ipv4 ip rest out size,
          )
    ]

    Framed-ipv6 :
        (host ip : List ℕ) (block_ipv6 : Bool)
        → x.parse6 host ≡ some ip
        → build_socks5h_connect_frame (ipv6 ip) port block_ipv6 ≡ ok frame
        → Framed (ipv6 ip) port frame
    unfolding build_socks5h_connect_frame address_bytes target_of
    Framed-ipv6 host ip block_ipv6 p h = elim (Bool-cases (port == 0)) [
      | inl none_given ↦ cc (rw none_given at h)
      | inr given ↦ elim (Bool-cases block_ipv6) [
        | inl shut ↦ cc (rw (given, shut) at h)
        | inr passed ↦
            let size = law.size6 host ip p in
            (
              4,
              ip,
              x.format6 ip,
              sym (ok_inj _ _ (rw (given, passed) at h)),
              rw (law.other4 ip size, law.back6 ip size) refl,
              zero_refused port given,
              λ rest out. read_host-ipv6 ip rest out size,
            )
      ]
    ]

    Framed-domain :
        (host : List ℕ) (block_ipv6 : Bool)
        → target_of x host ≡ domain host
        → build_socks5h_connect_frame (domain host) port block_ipv6 ≡ ok frame
        → Framed (domain host) port frame
    unfolding build_socks5h_connect_frame address_bytes
    Framed-domain host block_ipv6 p h = elim (Bool-cases (port == 0)) [
      | inl none_given ↦ cc (rw none_given at h)
      | inr given ↦ elim (Result-cases (validate_domain host)) [
        | inr (e, bad) ↦ cc (rw (given, bad) at h)
        | inl (tt, good) ↦
            let (short, text) = validate_domain-plain host good in
            (
              3,
              length host ∷ host,
              host,
              sym (ok_inj _ _ (rw (given, good, short) at h)),
              p,
              zero_refused port given,
              λ rest out. read_host-domain host rest out good (law.plain_utf8 host text),
            )
      ]
    ]

    Framed-target :
        (host : List ℕ) (block_ipv6 : Bool)
        → build_socks5h_connect_frame (target_of x host) port block_ipv6 ≡ ok frame
        → Framed (target_of x host) port frame
    unfolding target_of
    Framed-target host block_ipv6 h = elim (Option-cases (x.parse4 host)) [
      | inr (ip, p) ↦ rw p (Framed-ipv4 host ip block_ipv6 p (rw p at h))
      | inl n ↦ elim (Option-cases (x.parse6 host)) [
        | inr (ip, p) ↦ rw (n, p) (Framed-ipv6 host ip block_ipv6 p (rw (n, p) at h))
        | inl m ↦ rw (n, m) (Framed-domain host block_ipv6 (rw (n, m) refl) (rw (n, m) at h))
      ]
    ]

  -- The client's side, with its answers in front of what it reads.
  client_done :
      (host frame answer : List ℕ) (port : ℕ) (block_ipv6 : Bool)
      → build_socks5h_connect_frame (target_of x host) port block_ipv6 ≡ ok frame
      → socks5_connect_through x host port block_ipv6
          (stream (5 ∷ 0 ∷ 5 ∷ 0 ∷ 0 ∷ 1 ∷ 0 ∷ 0 ∷ 0 ∷ 0 ∷ 0 ∷ 0 ∷ answer) [])
        ≡ ok (tt, stream answer (5 ∷ 1 ∷ 0 ∷ frame))
  unfolding socks5_connect_through connected
  client_done host frame answer port block_ipv6 h =
      rw (h, read_exact-front (0 ∷ 0 ∷ 0 ∷ 0 ∷ 0 ∷ 0 ∷ []) answer (5 ∷ 1 ∷ 0 ∷ frame) 6 refl) refl

  server_done :
      (host frame rest : List ℕ) (port : ℕ)
      → port < 65536
      → Framed (target_of x host) port frame
      → (h : List ℕ) × (target_of x h ≡ target_of x host)
        × (intercept_socks5_request x (stream (5 ∷ 1 ∷ 0 ∷ (frame ++ rest)) [])
            ≡ ok (
              record { host = h; port = port; context = none },
              stream rest (5 ∷ 0 ∷ 5 ∷ 0 ∷ 0 ∷ 1 ∷ 0 ∷ 0 ∷ 0 ∷ 0 ∷ 0 ∷ 0 ∷ []),
            ))
  unfolding intercept_socks5_request send_socks5_reply
  server_done host frame rest port small (kind, body, h, e, same, given, reads) = (
    h,
    same,
    rw
        (
          e,
          append_assoc body (be16 port) rest,
          request_read port kind body h rest small given (reads (be16 port ++ rest) (5 ∷ 0 ∷ [])),
        )
        refl,
  )

  -- Where the client can frame the target, its handshake and that of the server complete each
  -- other: each end, fed what the other writes, succeeds and leaves the bytes behind it unread,
  -- and the server gets the port and a host that stands for the same target.
  pub socks5_connect_through-intercept_socks5_request :
      IsTexts x
      → (host frame rest answer : List ℕ) (port : ℕ) (block_ipv6 : Bool) → port < 65536
      → build_socks5h_connect_frame (target_of x host) port block_ipv6 ≡ ok frame
      → (made sent h : List ℕ) × (socks5_connect_through x host port block_ipv6
            (stream (sent ++ answer) [])
          ≡ ok (tt, stream answer made))
        × (intercept_socks5_request x (stream (made ++ rest) [])
            ≡ ok (record { host = h; port = port; context = none }, stream rest sent))
        × (target_of x h ≡ target_of x host)
  socks5_connect_through-intercept_socks5_request law host frame rest answer port block_ipv6 small
        h =
      let (host', same, server) =
        server_done host frame rest port small (Framed-target law port frame host block_ipv6 h) in
      (
        5 ∷ 1 ∷ 0 ∷ frame,
        5 ∷ 0 ∷ 5 ∷ 0 ∷ 0 ∷ 1 ∷ 0 ∷ 0 ∷ 0 ∷ 0 ∷ 0 ∷ 0 ∷ [],
        host',
        client_done host frame answer port block_ipv6 h,
        server,
        same,
      )
