-- ===== src/Mesh/Diversity/Distinct.antt =====
-- `validate_circuit_diversity` of src/mesh/sybil.rs: its three lists against the prefixes of the
-- hosts, whichever prefixes they are.
use anon_guard.Base.{
  ℕ, ◌≡◌, refl, sym, ap, subst, ◌≢◌, ◌↔◌, inl, inr, Bool, true, false, Option, none, some, List, [],
  ◌∷◌, arith, Bool-cases, Option-cases, some_inj, All, member, bytes_eq, bytes_eq→eq, bytes_eq_refl,
  eq→bytes_eq, ok, Result-cases,
}
use anon_guard.Kernel.Ip.{IpAddr}
use anon_guard.Mesh.Diversity.{
  Prefix, prefix4, prefix6, prefix_of, unbracketed, Seen, nothing_seen, see_prefix, see_address,
  see, validate_from, validate_circuit_diversity,
}

module _ (parse_ip : List ℕ → Option IpAddr) where
  abbrev pub subnet_from : Option IpAddr → Option Prefix
  subnet_from none = none
  subnet_from (some ip) = some (prefix_of ip)

  -- The subnet of a host, if the host is an address.
  unfoldable pub subnet : List ℕ → Option Prefix
  subnet host = subnet_from (parse_ip (unbracketed host))

  -- Apart from every host of the list.
  abbrev pub Apart : List ℕ → List (List ℕ) → Type 0
  Apart host = All λ other. (other ≢ host) × (subnet other ≢ subnet host)

  -- Every host is an address, and no two share the host or the subnet.
  abbrev pub Spread : List (List ℕ) → Type 0
  Spread [] = Unit {0}
  Spread (host ∷ hosts) = (subnet host ≢ none) × Apart host hosts × Spread hosts

abbrev seen_prefix : Seen → Prefix → Bool
seen_prefix s (prefix4 p) = member s.ipv4 p
seen_prefix s (prefix6 p) = member s.ipv6 p

abbrev added : Seen → List ℕ → Prefix → Seen
added s host (prefix4 p) = record s { ipv4 = p ∷ s.ipv4; hosts = host ∷ s.hosts }
added s host (prefix6 p) = record s { ipv6 = p ∷ s.ipv6; hosts = host ∷ s.hosts }

see_prefix_iff :
    (s t : Seen) (host : List ℕ) (p : Prefix)
    → (see_prefix (record s { hosts = host ∷ s.hosts }) p ≡ ok t)
      ↔ ((seen_prefix s p ≡ false) × (t ≡ added s host p))
unfolding see_prefix
see_prefix_iff s t host (prefix4 p) = (λ h. ground arith, λ h. ground arith)
see_prefix_iff s t host (prefix6 p) = (λ h. ground arith, λ h. ground arith)

seen_prefix-added_self :
    (s : Seen) (host : List ℕ) (p : Prefix) → seen_prefix (added s host p) p ≡ true
seen_prefix-added_self s host (prefix4 p) = ground (arith, bytes_eq_refl p)
seen_prefix-added_self s host (prefix6 p) = ground (arith, bytes_eq_refl p)

-- A subnet is in the new lists if it is the new one or was in the old lists.
seen_prefix-added :
    (s : Seen) (host : List ℕ) (p q : Prefix)
    → q ≢ p
    → seen_prefix (added s host p) q ≡ seen_prefix s q
seen_prefix-added s host (prefix4 p) (prefix4 q) n = elim (Bool-cases (bytes_eq p q)) [
  | inl e ↦ absurd (n (ap prefix4 (sym (bytes_eq→eq p q e))))
  | inr e ↦ rw e
]
seen_prefix-added s host (prefix6 p) (prefix6 q) n = elim (Bool-cases (bytes_eq p q)) [
  | inl e ↦ absurd (n (ap prefix6 (sym (bytes_eq→eq p q e))))
  | inr e ↦ rw e
]
seen_prefix-added s host (prefix4 p) (prefix6 q) n = refl
seen_prefix-added s host (prefix6 p) (prefix4 q) n = refl

hosts-added : (s : Seen) (host : List ℕ) (p : Prefix) → (added s host p).hosts ≡ host ∷ s.hosts
hosts-added s host (prefix4 p) = refl
hosts-added s host (prefix6 p) = refl

member_apart :
    (host other : List ℕ) (hosts : List (List ℕ))
    → (member (host ∷ hosts) other ≡ false) ↔ ((other ≢ host) × (member hosts other ≡ false))
member_apart host other hosts = elim (Bool-cases (bytes_eq host other)) [
  | inl e ↦ (λ h. cc (rw e at h), λ (n, _). absurd (n (sym (bytes_eq→eq host other e))))
  | inr e ↦ (λ h. (λ w. cc (eq→bytes_eq host other (sym w)), rw e at h), λ (_, h). rw e h)
]

module _ (parse_ip : List ℕ → Option IpAddr) where
  -- The host is an address, and neither it nor its subnet was seen.
  abbrev Unseen : Seen → List ℕ → Type 0
  Unseen s host =
      (p : Prefix) × (subnet parse_ip host ≡ some p)
      × (member s.hosts host ≡ false)
      × (seen_prefix s p ≡ false)

  see_address_iff :
      (s t : Seen) (host : List ℕ) (o : Option IpAddr)
      → see_address parse_ip (record s { hosts = host ∷ s.hosts }) host o ≡ ok t
      → (p : Prefix) × (subnet_from parse_ip o ≡ some p)
        × (seen_prefix s p ≡ false)
        × (t ≡ added s host p)
  see_address_iff s t host none h = cc
  see_address_iff s t host (some ip) h =
      let k = (see_prefix_iff s t host (prefix_of ip)).0 h in (prefix_of ip, refl, k.0, k.1)

  see-ok :
      (s t : Seen) (host : List ℕ)
      → see parse_ip s host ≡ ok t
      → (u : Unseen s host) × (t ≡ added s host u.0)
  unfolding see subnet
  see-ok s t host h = elim (Bool-cases (member s.hosts host)) [
    | inl old ↦ cc (rw old at h)
    | inr new ↦
        let (p, e, f, g) = see_address_iff s t host (parse_ip (unbracketed host)) (rw new at h) in
        ((p, e, new, f), g)
  ]

  see_address-added :
      (s : Seen) (host : List ℕ) (o : Option IpAddr) (p : Prefix)
      → subnet_from parse_ip o ≡ some p
      → seen_prefix s p ≡ false
      → see_address parse_ip (record s { hosts = host ∷ s.hosts }) host o ≡ ok (added s host p)
  see_address-added s host none p e f = cc
  see_address-added s host (some ip) p e f =
      (see_prefix_iff s (added s host p) host (prefix_of ip)).1
        (rw (some_inj _ _ e) f, ap (added s host) (sym (some_inj _ _ e)))

  see-added :
      (s : Seen) (host : List ℕ) (u : Unseen s host) → see parse_ip s host ≡ ok (added s host u.0)
  unfolding see subnet
  see-added s host (p, e, new, f) =
      rw new (see_address-added s host (parse_ip (unbracketed host)) p e f)

  -- Seeing one host: another is unseen after it just if it is apart from it and was unseen before.
  Unseen-added :
      (s : Seen) (host other : List ℕ) (p : Prefix)
      → subnet parse_ip host ≡ some p
      → Unseen (added s host p) other
        ↔ (((other ≢ host) × (subnet parse_ip other ≢ subnet parse_ip host)) × Unseen s other)
  Unseen-added s host other p e = (
    λ (q, g, new, f).
        let (n, old) =
          (member_apart host other s.hosts).0
            (subst (λ (hs : List (List ℕ)). member hs other ≡ false) (hosts-added s host p) new) in
        let m : q ≢ p =
          λ w. cc (ap (seen_prefix (added s host p)) w, seen_prefix-added_self s host p) in
        ((n, λ w. m (some_inj q p (cc))), (q, g, old, cc (seen_prefix-added s host p q m))),
    λ ((n, m), (q, g, old, f)).
        let k : q ≢ p = λ w. m (cc (ap (λ (x : Prefix). some x) w)) in
        (
          q,
          g,
          subst (λ (hs : List (List ℕ)). member hs other ≡ false) (sym (hosts-added s host p))
              ((member_apart host other s.hosts).1 (n, old)),
          cc (seen_prefix-added s host p q k),
        ),
  )

  All-Unseen-added :
      (s : Seen) (host : List ℕ) (hosts : List (List ℕ)) (p : Prefix)
      → subnet parse_ip host ≡ some p
      → All (Unseen (added s host p)) hosts ↔ (Apart parse_ip host hosts × All (Unseen s) hosts)
  All-Unseen-added s host [] p e = (λ _. (tt, tt), λ _. tt)
  All-Unseen-added s host (other ∷ hosts) p e =
      let one = Unseen-added s host other p e in
      let rest = All-Unseen-added s host hosts p e in
      (
        λ (h, hs). let (m, u) = one.0 h in let (ms, us) = rest.0 hs in ((m, ms), (u, us)),
        λ ((m, ms), (u, us)). (one.1 (m, u), rest.1 (ms, us)),
      )

  validate_from-Spread :
      (s : Seen) (hosts : List (List ℕ))
      → (validate_from parse_ip s hosts ≡ ok tt) ↔ (All (Unseen s) hosts × Spread parse_ip hosts)
  unfolding validate_from
  validate_from-Spread s [] = (λ _. (tt, tt), λ _. refl)
  validate_from-Spread s (host ∷ hosts) = (
    λ h. elim (Result-cases (see parse_ip s host)) [
      | inl (t, e) ↦
          let (u, f) = see-ok s t host e in
          let (us, d) =
            (validate_from-Spread (added s host u.0) hosts).0
              (subst (λ (t : Seen). validate_from parse_ip t hosts ≡ ok tt) f (rw e at h)) in
          let (a, us) = (All-Unseen-added s host hosts u.0 u.1).0 us in
          ((u, us), (λ w. cc (u.1), a, d))
      | inr (x, e) ↦ cc (rw e at h)
    ],
    λ ((u, us), (n, a, d)). rw (see-added s host u) (
        (validate_from-Spread (added s host u.0) hosts).1
          ((All-Unseen-added s host hosts u.0 u.1).1 (a, us), d)),
  )

  Unseen-nothing : (hosts : List (List ℕ)) → Spread parse_ip hosts → All (Unseen nothing_seen) hosts
  Unseen-nothing [] d = tt
  Unseen-nothing (host ∷ hosts) (n, a, d) = elim (Option-cases (subnet parse_ip host)) [
    | inl e ↦ absurd (n e)
    | inr (prefix4 p, e) ↦ ((prefix4 p, e, refl, refl), Unseen-nothing hosts d)
    | inr (prefix6 p, e) ↦ ((prefix6 p, e, refl, refl), Unseen-nothing hosts d)
  ]

  pub validate_circuit_diversity-Spread :
      (hosts : List (List ℕ))
      → (validate_circuit_diversity parse_ip hosts ≡ ok tt) ↔ Spread parse_ip hosts
  unfolding validate_circuit_diversity
  validate_circuit_diversity-Spread hosts =
      let (there, back) = validate_from-Spread nothing_seen hosts in
      (λ h. (there h).1, λ d. back (Unseen-nothing hosts d, d))
