-- ===== src/Mesh/Diversity/Subnets.antt =====
-- `validate_circuit_diversity` of src/mesh/sybil.rs against a description of diverse circuits.
use anon_guard.Base.{
  ℕ, ◌≡◌, refl, sym, ap, ◌∙◌, ◌≢◌, ◌↔◌, Option, none, some, some_inj, List, [], ◌∷◌, All, ok,
}
use anon_guard.Kernel.Ip.{IpAddr}
use anon_guard.Mesh.Diversity.{unbracketed, validate_circuit_diversity}
use anon_guard.Mesh.Diversity.Distinct
use anon_guard.Mesh.Diversity.Distinct.{Spread, Apart, validate_circuit_diversity-Spread}
use anon_guard.Mesh.Diversity.Forms.{
  Subnet, subnet_of, IsIp, bytes_of, prefix_of-bytes_of, bytes_of-inj,
}

module _ (parse_ip : List ℕ → Option IpAddr) where
  abbrev subnet_from : Option IpAddr → Option Subnet
  subnet_from none = none
  subnet_from (some ip) = some (subnet_of ip)

  -- The subnet of a host, if the host is an address.
  pub subnet : List ℕ → Option Subnet
  subnet host = subnet_from (parse_ip (unbracketed host))

  -- Every host is an address, and no two share the host or the subnet.
  abbrev pub Diverse : List (List ℕ) → Type 0
  Diverse [] = Unit {0}
  Diverse (host ∷ hosts) =
      (subnet host ≢ none)
      × All (λ other. (other ≢ host) × (subnet other ≢ subnet host)) hosts
      × Diverse hosts

  module _ (law : (host : List ℕ) (ip : IpAddr) → parse_ip host ≡ some ip → IsIp ip) where
    shared :
        (o p : Option IpAddr)
        → ((ip : IpAddr) → o ≡ some ip → IsIp ip)
        → ((ip : IpAddr) → p ≡ some ip → IsIp ip)
        → (subnet_from o ≡ subnet_from p)
          ↔ (Distinct.subnet_from parse_ip o ≡ Distinct.subnet_from parse_ip p)
    shared none none v w = (λ h. refl, λ h. refl)
    shared none (some q) v w = (λ h. cc, λ h. cc)
    shared (some q) none v w = (λ h. cc, λ h. cc)
    shared (some q) (some r) v w =
        let e = prefix_of-bytes_of q (v q refl) in
        let f = prefix_of-bytes_of r (w r refl) in
        (
          λ h. ap (λ x. some x) (e ∙ ap bytes_of (some_inj _ _ h) ∙ sym f),
          λ h. ap (λ x. some x) (bytes_of-inj _ _ (sym e ∙ some_inj _ _ h ∙ f)),
        )

    absent : (o : Option IpAddr) → (subnet_from o ≡ none) ↔ (Distinct.subnet_from parse_ip o ≡ none)
    absent none = (λ h. refl, λ h. refl)
    absent (some q) = (λ h. cc, λ h. cc)

    rest-Apart :
        (host : List ℕ) (hosts : List (List ℕ))
        → All (λ other. (other ≢ host) × (subnet other ≢ subnet host)) hosts
          ↔ Apart parse_ip host hosts
    unfolding subnet Distinct.subnet
    rest-Apart host [] = (λ h. tt, λ h. tt)
    rest-Apart host (other ∷ hosts) =
        let one =
          shared (parse_ip (unbracketed other)) (parse_ip (unbracketed host))
            (law (unbracketed other)) (law (unbracketed host)) in
        let rest = rest-Apart host hosts in
        (
          λ ((n, m), hs). ((n, λ e. m (one.1 e)), rest.0 hs),
          λ ((n, m), hs). ((n, λ e. m (one.0 e)), rest.1 hs),
        )

    Diverse-Spread : (hosts : List (List ℕ)) → Diverse hosts ↔ Spread parse_ip hosts
    unfolding subnet Distinct.subnet
    Diverse-Spread [] = (λ h. tt, λ h. tt)
    Diverse-Spread (host ∷ hosts) =
        let here = absent (parse_ip (unbracketed host)) in
        let apart = rest-Apart host hosts in
        let rest = Diverse-Spread hosts in
        (
          λ (n, a, d). ((λ e. n (here.1 e)), apart.0 a, rest.0 d),
          λ (n, a, d). ((λ e. n (here.0 e)), apart.1 a, rest.1 d),
        )

    -- If parsing gives addresses of octets or of 16-bit segments, a circuit passes just if every
    -- host is an address, no host occurs twice, and no two are in the same subnet: the first
    -- sixteen bits of an IPv4 address, and the first thirty-two of an IPv6 address. An address in
    -- ::ffff:0:0/96, ::/96, 2002::/16, 2001::/32 (Teredo, inverted) or 64:ff9b::/96 has the
    -- subnet of the IPv4 address in it.
    pub validate_circuit_diversity-Diverse :
        (hosts : List (List ℕ))
        → (validate_circuit_diversity parse_ip hosts ≡ ok tt) ↔ Diverse hosts
    validate_circuit_diversity-Diverse hosts =
        let spread = validate_circuit_diversity-Spread parse_ip hosts in
        let same = Diverse-Spread hosts in (λ h. same.1 (spread.0 h), λ d. spread.1 (same.0 d))
