-- ===== src/Mesh/Authority/Directory.antt =====
-- The relays of the directory of src/mesh/authority.rs, and the outcomes of a registration.
use anon_guard.Base.{
  ℕ, ◌≤◌, ◌<◌, ◌≡◌, refl, sym, subst, ◌≢◌, ◌⊎◌, inl, inr, Bool, true, false, not, ◌&&◌, ◌||◌,
  Option, List, [], ◌∷◌, arith, leb, ◌==◌, Bool-cases, length, retain, All, length-retain, member,
  bytes_eq, eq→bytes_eq, ok, Result-cases,
}
use anon_guard.Crypto.Identity.{Suite}
use anon_guard.Mesh.Consensus.{RelayDescriptor}
use anon_guard.Mesh.Descriptor.{verify_identity}
use anon_guard.Mesh.Sybil.{check_and_record, verify_pow}
use anon_guard.Mesh.Authority.{
  DirectoryAuthority, max_directory_relays, same_component, conflict, relay_conflicts, get_relay,
  is_other, insert_descriptor, has_relay, check_existing, admit, register_relay,
}

-- Different identifiers, pins and endpoints.
abbrev Apart : RelayDescriptor → RelayDescriptor → Type 0
Apart d e =
    (e.node_id ≢ d.node_id)
    × (e.identity_pin ≢ d.identity_pin)
    × ((bytes_eq e.host d.host && (e.port == d.port)) ≡ false)

abbrev Separate : List RelayDescriptor → Type 0
Separate [] = Unit {0}
Separate (d ∷ ds) = All (Apart d) ds × Separate ds

retain-All :
    (P : RelayDescriptor → Type 0) (p : RelayDescriptor → Bool) (ds : List RelayDescriptor)
    → All P ds
    → All P (retain p ds)
retain-All P p [] h = tt
retain-All P p (d ∷ ds) (h, hs) = elim (Bool-cases (p d)) [
  | inl e ↦ rw e (h, retain-All P p ds hs)
  | inr e ↦ rw e (retain-All P p ds hs)
]

retain-Separate :
    (p : RelayDescriptor → Bool) (ds : List RelayDescriptor) → Separate ds → Separate (retain p ds)
retain-Separate p [] h = tt
retain-Separate p (d ∷ ds) (h, hs) = elim (Bool-cases (p d)) [
  | inl e ↦ rw e (retain-All (Apart d) p ds h, retain-Separate p ds hs)
  | inr e ↦ rw e (retain-Separate p ds hs)
]

no_clash : (o p s e : Bool) → o ≡ true → (o && (p || (s || e))) ≡ false → (p ≡ false) × (e ≡ false)
no_clash o p s e h c = ground arith

conflict-Apart :
    (d e : RelayDescriptor) → is_other d.node_id e ≡ true → conflict d e ≡ false → Apart d e
conflict-Apart d e o h =
    let (pins, ends) =
      no_clash (is_other d.node_id e) (bytes_eq e.identity_pin d.identity_pin) (same_component e d)
        (bytes_eq e.host d.host && (e.port == d.port)) o h in
    (
      λ w. cc (o, eq→bytes_eq e.node_id d.node_id w),
      λ w. cc (pins, eq→bytes_eq e.identity_pin d.identity_pin w),
      ends,
    )

relay_conflicts-Apart :
    (ds : List RelayDescriptor) (d : RelayDescriptor)
    → relay_conflicts ds d ≡ false
    → All (Apart d) (retain (is_other d.node_id) ds)
unfolding relay_conflicts
relay_conflicts-Apart [] d h = tt
relay_conflicts-Apart (e ∷ ds) d h = elim (Bool-cases (conflict d e)) [
  | inl c ↦ cc (rw c at h)
  | inr c ↦ elim (Bool-cases (is_other d.node_id e)) [
    | inl o ↦ rw o (conflict-Apart d e o c, relay_conflicts-Apart ds d (rw c at h))
    | inr s ↦ rw s (relay_conflicts-Apart ds d (rw c at h))
  ]
]

insert-Separate :
    (ds : List RelayDescriptor) (d : RelayDescriptor)
    → relay_conflicts ds d ≡ false
    → Separate ds
    → Separate (insert_descriptor ds d)
unfolding insert_descriptor
insert-Separate ds d c s = (relay_conflicts-Apart ds d c, retain-Separate (is_other d.node_id) ds s)

-- Replacing an entry does not make the directory longer.
length-replaced :
    (ds : List RelayDescriptor) (id : List ℕ)
    → has_relay ds id ≡ true
    → length (retain (is_other id) ds) < length ds
length-replaced [] id h = cc
length-replaced (e ∷ ds) id h = elim (Bool-cases (bytes_eq e.node_id id)) [
  | inl s ↦ rw s (omega (arith, length-retain (is_other id) ds))
  | inr o ↦ let r = length-replaced ds id (rw o at h) in rw o (omega arith)
]

length-insert :
    (ds : List RelayDescriptor) (d : RelayDescriptor)
    → length ds ≤ max_directory_relays
    → (not (has_relay ds d.node_id) && leb max_directory_relays (length ds)) ≡ false
    → length (insert_descriptor ds d) ≤ max_directory_relays
unfolding insert_descriptor
length-insert ds d l f = elim (Bool-cases (has_relay ds d.node_id)) [
  | inl h ↦ omega (arith, length-replaced ds d.node_id h)
  | inr n ↦ let room = rw n at f in ground (arith, room, length-retain (is_other d.node_id) ds)
]

-- What an accepted registration has passed.
pub record Accepted (z : Suite) (ip_text : List ℕ → Option (List ℕ)) (a : DirectoryAuthority)
    (d : RelayDescriptor) (b : DirectoryAuthority) : Type 0 where
  pub not_revoked : member a.revoked d.identity_pin ≡ false
  pub verified : verify_identity z ip_text d ≡ true
  pub free : relay_conflicts a.active_relays d ≡ false
  pub room :
      (not (has_relay a.active_relays d.node_id)
        && leb max_directory_relays (length a.active_relays))
      ≡ false
  pub renews : check_existing d (get_relay a.active_relays d.node_id) ≡ ok tt
  pub inserted : b.active_relays ≡ insert_descriptor a.active_relays d

-- A registration changes at most the relays and the spent nonces, and the relays only if accepted.
abbrev Outcome :
    (z : Suite)
    → (List ℕ → Option (List ℕ))
    → DirectoryAuthority
    → RelayDescriptor
    → DirectoryAuthority
    → Type 0
Outcome z ip_text a d b =
    (b.revoked ≡ a.revoked) × ((b.active_relays ≡ a.active_relays) ⊎ Accepted z ip_text a d b)

module _ (z : Suite) (ip_text : List ℕ → Option (List ℕ)) (a : DirectoryAuthority)
    (d : RelayDescriptor) (now : ℕ) where
  admit-Outcome :
      member a.revoked d.identity_pin ≡ false
      → verify_identity z ip_text d ≡ true
      → relay_conflicts a.active_relays d ≡ false
      → (not (has_relay a.active_relays d.node_id)
          && leb max_directory_relays (length a.active_relays))
        ≡ false
      → Outcome z ip_text a d
          (admit a d now (check_existing d (get_relay a.active_relays d.node_id))).0
  admit-Outcome n v f r =
      elim (Result-cases (check_existing d (get_relay a.active_relays d.node_id))) [
        | inl (tt, e) ↦
            elim (Bool-cases (check_and_record a.nonce_registry d.node_id d.pow_nonce now).1) [
              | inl spent ↦ rw (e, spent) (refl, inl refl)
              | inr fresh ↦
                  rw (e, fresh)
                    (
                      refl,
                      inr (record {
                        not_revoked = n;
                        verified = v;
                        free = f;
                        room = r;
                        renews = e;
                        inserted = refl;
                      }),
                    )
            ]
        | inr (x, e) ↦ rw e (refl, inl refl)
      ]

  pub register_relay-Outcome : Outcome z ip_text a d (register_relay z ip_text a d now).0
  unfolding register_relay
  register_relay-Outcome = elim (Bool-cases (member a.revoked d.identity_pin)) [
    | inl bad ↦ rw bad (refl, inl refl)
    | inr n ↦ elim (Bool-cases (verify_identity z ip_text d)) [
      | inr bad ↦ rw (n, bad) (refl, inl refl)
      | inl v ↦
          elim (Bool-cases
            (verify_pow z.sha256 d.node_id d.registered_at d.pow_nonce a.pow_difficulty now)) [
              | inr bad ↦ rw (n, v, bad) (refl, inl refl)
              | inl w ↦ elim (Bool-cases (relay_conflicts a.active_relays d)) [
                | inl bad ↦ rw (n, v, w, bad) (refl, inl refl)
                | inr f ↦
                    elim (Bool-cases (
                      not (has_relay a.active_relays d.node_id)
                      && leb max_directory_relays (length a.active_relays))) [
                        | inl bad ↦ rw (n, v, w, f, bad) (refl, inl refl)
                        | inr r ↦ rw (n, v, w, f, r) (admit-Outcome n v f r)
                      ]
              ]
            ]
    ]
  ]

module _ (z : Suite) (ip_text : List ℕ → Option (List ℕ)) where
  -- Every relay has proved its identity and is not revoked, no two clash, and there is room.
  pub record IsDirectory (a : DirectoryAuthority) : Type 0 where
    pub separate : Separate a.active_relays
    pub verified : All (λ d. verify_identity z ip_text d ≡ true) a.active_relays
    pub not_revoked : All (λ d. member a.revoked d.identity_pin ≡ false) a.active_relays
    pub bounded : length a.active_relays ≤ max_directory_relays

  same-IsDirectory :
      (a b : DirectoryAuthority)
      → b.revoked ≡ a.revoked
      → b.active_relays ≡ a.active_relays
      → IsDirectory a
      → IsDirectory b
  same-IsDirectory a b r e i = record {
    separate = rw e i.separate;
    verified = rw e i.verified;
    not_revoked = rw (e, r) i.not_revoked;
    bounded = rw e i.bounded;
  }

  Accepted-IsDirectory :
      (a b : DirectoryAuthority) (d : RelayDescriptor)
      → b.revoked ≡ a.revoked
      → Accepted z ip_text a d b
      → IsDirectory a
      → IsDirectory b
  unfolding insert_descriptor
  Accepted-IsDirectory a b d r c i = record {
    separate = rw c.inserted (insert-Separate a.active_relays d c.free i.separate);
    verified =
        rw c.inserted (c.verified, retain-All _ (is_other d.node_id) a.active_relays i.verified);
    not_revoked =
        subst (λ (rs : List (List ℕ)). All (λ x. member rs x.identity_pin ≡ false) b.active_relays)
          (sym r)
          (rw c.inserted
            (c.not_revoked, retain-All _ (is_other d.node_id) a.active_relays i.not_revoked));
    bounded = rw c.inserted (length-insert a.active_relays d i.bounded c.room);
  }

  -- Whatever descriptor is registered, accepted or refused, the directory stays in order: no two
  -- relays share an identifier, a pin or an endpoint, each has a verified identity that is not
  -- revoked, and there are at most 512.
  pub register_relay-IsDirectory :
      (a : DirectoryAuthority) (d : RelayDescriptor) (now : ℕ)
      → IsDirectory a
      → IsDirectory (register_relay z ip_text a d now).0
  register_relay-IsDirectory a d now i =
      let (r, o) = register_relay-Outcome z ip_text a d now in
      elim o [
        | inl same ↦ same-IsDirectory a (register_relay z ip_text a d now).0 r same i
        | inr c ↦ Accepted-IsDirectory a (register_relay z ip_text a d now).0 d r c i
      ]
