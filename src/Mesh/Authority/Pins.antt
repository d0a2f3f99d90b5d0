-- ===== src/Mesh/Authority/Pins.antt =====
-- Identifiers and their pins in the directory of src/mesh/authority.rs, over runs of registrations.
use anon_guard.Base.{
  ℕ, ◌≤◌, ◌≡◌, refl, sym, ◌∙◌, inl, inr, false, Option, some, List, [], ◌∷◌, arith, leb,
  if◌then◌else◌, Bool-cases, retain, bytes_eq, bytes_eq→eq, ok,
}
use anon_guard.Crypto.Identity.{Suite}
use anon_guard.Mesh.Consensus.{RelayDescriptor}
use anon_guard.Mesh.Authority.{
  DirectoryAuthority, get_relay, is_other, insert_descriptor, check_existing, register_relay,
}
use anon_guard.Mesh.Authority.Directory.{Accepted, register_relay-Outcome}

-- One registration: the descriptor and the clock.
pub record Call : Type 0 where
  pub descriptor : RelayDescriptor
  pub now : ℕ

abbrev pub Holds : DirectoryAuthority → List ℕ → List ℕ → ℕ → Type 0
Holds a id pin since =
    (e : RelayDescriptor) × (get_relay a.active_relays id ≡ some e)
    × (e.identity_pin ≡ pin)
    × (since ≤ e.registered_at)

-- Looking up another identifier passes over what an insertion drops.
get-retain :
    (ds : List RelayDescriptor) (id other : List ℕ)
    → bytes_eq other id ≡ false
    → get_relay (retain (is_other other) ds) id ≡ get_relay ds id
unfolding get_relay
get-retain [] id other n = refl
get-retain (e ∷ ds) id other n = elim (Bool-cases (bytes_eq e.node_id other)) [
  | inl s ↦
      let o : bytes_eq e.node_id id ≡ false = rw (bytes_eq→eq e.node_id other s) n in
      rw (s, o) (get-retain ds id other n)
  | inr k ↦ elim (Bool-cases (bytes_eq e.node_id id)) [
    | inl here ↦ rw (k, here) refl
    | inr on ↦ rw (k, on) (get-retain ds id other n)
  ]
]

get-insert :
    (ds : List RelayDescriptor) (d : RelayDescriptor) (id : List ℕ)
    → get_relay (insert_descriptor ds d) id
      ≡ (if bytes_eq d.node_id id then some d else get_relay ds id)
unfolding get_relay insert_descriptor
get-insert ds d id = elim (Bool-cases (bytes_eq d.node_id id)) [
  | inl s ↦ rw s refl
  | inr o ↦ rw o (get-retain ds id d.node_id o)
]

-- A renewal has the pin of what is there, and is newer.
renewal :
    (d e : RelayDescriptor)
    → check_existing d (some e) ≡ ok tt
    → (d.identity_pin ≡ e.identity_pin) × (e.registered_at ≤ d.registered_at)
renewal d e h = elim (Bool-cases (bytes_eq e.identity_pin d.identity_pin)) [
  | inr other ↦ cc (rw other at h)
  | inl same ↦ elim (Bool-cases (leb d.registered_at e.registered_at)) [
    | inl older ↦ cc (rw (same, older) at h)
    | inr newer ↦ (sym (bytes_eq→eq e.identity_pin d.identity_pin same), ground arith)
  ]
]

module _ (z : Suite) (ip_text : List ℕ → Option (List ℕ)) where
  Accepted-Holds :
      (a b : DirectoryAuthority) (d : RelayDescriptor) (id pin : List ℕ) (since : ℕ)
      → Accepted z ip_text a d b
      → Holds a id pin since
      → Holds b id pin since
  Accepted-Holds a b d id pin since c (e, g, p, s) = elim (Bool-cases (bytes_eq d.node_id id)) [
    | inl same ↦
        let at_id : get_relay a.active_relays d.node_id ≡ some e =
          rw (bytes_eq→eq d.node_id id same) g in
        let (k, n) = renewal d e (rw at_id at c.renews) in
        (d, rw (c.inserted, get-insert a.active_relays d id, same) refl, k ∙ p, omega arith)
    | inr other ↦ (e, rw (c.inserted, get-insert a.active_relays d id, other) g, p, s)
  ]

  register-Holds :
      (a : DirectoryAuthority) (c : Call) (id pin : List ℕ) (since : ℕ)
      → Holds a id pin since
      → Holds (register_relay z ip_text a c.descriptor c.now).0 id pin since
  register-Holds a c id pin since h =
      elim (register_relay-Outcome z ip_text a c.descriptor c.now).1 [
        | inl same ↦ (h.0, rw same h.1, h.2, h.3)
        | inr acc ↦
            Accepted-Holds a (register_relay z ip_text a c.descriptor c.now).0 c.descriptor id pin
              since acc h
      ]

  pub register_all : DirectoryAuthority → List Call → DirectoryAuthority
  register_all a [] = a
  register_all a (c ∷ cs) = register_all (register_relay z ip_text a c.descriptor c.now).0 cs

  -- Once an identifier is registered under a pin, no run of registrations, accepted or refused,
  -- takes it away or gives it to another pin, and its time of registration never goes back.
  pub register_all-Holds :
      (a : DirectoryAuthority) (cs : List Call) (id pin : List ℕ) (since : ℕ)
      → Holds a id pin since
      → Holds (register_all a cs) id pin since
  unfolding register_all
  register_all-Holds a [] id pin since h = h
  register_all-Holds a (c ∷ cs) id pin since h =
      register_all-Holds (register_relay z ip_text a c.descriptor c.now).0 cs id pin since
        (register-Holds a c id pin since h)
