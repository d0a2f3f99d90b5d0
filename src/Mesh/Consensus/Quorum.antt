-- ===== src/Mesh/Consensus/Quorum.antt =====
-- The votes that `verify_quorum` of src/mesh/consensus.rs counts.
use anon_guard.Base.{
  ℕ, suc, ◌+◌, ◌≤◌, ◌<◌, ◌≡◌, refl, sym, ap, ◌∙◌, subst, ◌≢◌, ◌⊎◌, inl, inr, true, false, Option,
  some, List, [], ◌∷◌, map, arith, ◌==◌, leb→le, Bool-cases, Option-cases, some_inj, length, All,
  member, member-false, Result, ok, err, Result-cases,
}
use mathlib.Core.List.{Mem, mem-cons_self, mem-cons_of_mem}
use anon_guard.Crypto.Identity.{Suite, IdentityError, verify_strict, component_pins, from_slice}
use anon_guard.Mesh.Consensus.{
  AuthoritySignature, ConsensusDocument, Tally, no_votes, compute_digest, count_pins, count_signed,
  count_trusted, count_vote, count_votes, enough, verify_quorum,
}

-- A signature that counts: the pin it is trusted under, and the two keys that it carries.
pub record Vote : Type 0 where
  pub cast : AuthoritySignature
  pub key : List ℕ
  pub classical : List ℕ
  pub pq : List ℕ

-- No two of the votes agree on the field.
abbrev Different : (Vote → List ℕ) → List Vote → Type 0
Different f [] = Unit {0}
Different f (v ∷ vs) = All (λ x. x ≢ f v) (map f vs) × Different f vs

module _ (z : Suite) (trusted : List ℕ → Option (List ℕ)) (digest : List ℕ) where
  -- The signature is one of the list, its authority is trusted, and it verifies the digest.
  pub record IsVote (among : List AuthoritySignature) (v : Vote) : Type 0 where
    pub listed : Mem v.cast among
    pub known : trusted v.cast.authority_id ≡ some v.key
    pub verified : verify_strict z v.key digest v.cast.signature_bytes ≡ ok tt
    pub pins : component_pins z v.cast.signature_bytes ≡ ok (v.classical, v.pq)

  -- Votes of different authorities, with different keys throughout.
  pub record IsQuorum (among : List AuthoritySignature) (votes : List Vote) : Type 0 where
    pub valid : All (IsVote among) votes
    pub authorities : Different (λ v. v.cast.authority_id) votes
    pub keys : Different (λ v. v.key) votes
    pub classical_keys : Different (λ v. v.classical) votes
    pub pq_keys : Different (λ v. v.pq) votes

abbrev tally_of : List Vote → Tally
tally_of vs = record {
  count = length vs;
  authorities = map (λ v. v.cast.authority_id) vs;
  keys = map (λ v. v.key) vs;
  classical_keys = map (λ v. v.classical) vs;
  pq_keys = map (λ v. v.pq) vs;
}

abbrev with_vote : Tally → Vote → Tally
with_vote t v = record {
  count = t.count + 1;
  authorities = v.cast.authority_id ∷ t.authorities;
  keys = v.key ∷ t.keys;
  classical_keys = v.classical ∷ t.classical_keys;
  pq_keys = v.pq ∷ t.pq_keys;
}

tally_of-with_vote : (v : Vote) (vs : List Vote) → with_vote (tally_of vs) v ≡ tally_of (v ∷ vs)
tally_of-with_vote v vs =
    let e : length vs + 1 ≡ suc (length vs) = omega arith in
    ap
      (λ n. record {
        count = n;
        authorities = map (λ x. x.cast.authority_id) (v ∷ vs);
        keys = map (λ x. x.key) (v ∷ vs);
        classical_keys = map (λ x. x.classical) (v ∷ vs);
        pq_keys = map (λ x. x.pq) (v ∷ vs);
      })
      e

pub from_slice-same :
    (bytes signature : List ℕ) → from_slice bytes ≡ ok signature → signature ≡ bytes
unfolding from_slice
from_slice-same bytes signature h = elim (Bool-cases (length bytes == 5373)) [
  | inl e ↦ cc (rw e at h)
  | inr e ↦ cc (rw e at h)
]

module _ (z : Suite) (digest : List ℕ) where
  -- A vote of the signature under the key, new to the tally in every part.
  record Counts (t : Tally) (s : AuthoritySignature) (key : List ℕ) (u : Tally) (v : Vote)
      : Type 0 where
    pub of_cast : v.cast ≡ s
    pub of_key : v.key ≡ key
    pub verified : verify_strict z key digest s.signature_bytes ≡ ok tt
    pub pins : component_pins z s.signature_bytes ≡ ok (v.classical, v.pq)
    pub new_key : member t.keys key ≡ false
    pub new_classical : member t.classical_keys v.classical ≡ false
    pub new_pq : member t.pq_keys v.pq ≡ false
    pub counted : u ≡ with_vote t v

  count_pins-new :
      (t u : Tally) (s : AuthoritySignature) (key : List ℕ)
      (r : Result (List ℕ × List ℕ) IdentityError)
      → component_pins z s.signature_bytes ≡ r
      → verify_strict z key digest s.signature_bytes ≡ ok tt
      → member t.keys key ≡ false
      → count_pins z t s.authority_id key r ≡ some u
      → (v : Vote) × Counts t s key u v
  count_pins-new t u s key (err e) p w n h = cc
  count_pins-new t u s key (ok (c, q)) p w n h = elim (Bool-cases (member t.classical_keys c)) [
    | inl old ↦ cc (rw old at h)
    | inr new ↦ elim (Bool-cases (member t.pq_keys q)) [
      | inl old ↦ cc (rw (new, old) at h)
      | inr fresh ↦ (
        record { cast = s; key = key; classical = c; pq = q },
        record {
          of_cast = refl;
          of_key = refl;
          verified = w;
          pins = p;
          new_key = n;
          new_classical = new;
          new_pq = fresh;
          counted = sym (some_inj _ _ (rw (new, fresh) at h));
        },
      )
    ]
  ]

  count_signed-new :
      (t u : Tally) (s : AuthoritySignature) (key : List ℕ)
      → count_signed z digest t s.authority_id key (ok s.signature_bytes) ≡ some u
      → (u ≡ t) ⊎ ((v : Vote) × Counts t s key u v)
  count_signed-new t u s key h =
      elim (Result-cases (verify_strict z key digest s.signature_bytes)) [
        | inl (tt, w) ↦ elim (Bool-cases (member t.keys key)) [
          | inl old ↦ inl (sym (some_inj _ _ (rw (w, old) at h)))
          | inr new ↦ inr (count_pins-new t u s key _ refl w new (rw (w, new) at h))
        ]
        | inr (e, w) ↦ inl (sym (some_inj _ _ (rw w at h)))
      ]

  count_trusted-new :
      (t u : Tally) (s : AuthoritySignature) (key : List ℕ)
      → count_trusted z digest t s (some key) ≡ some u
      → (u ≡ t) ⊎ ((v : Vote) × Counts t s key u v)
  count_trusted-new t u s key h = elim (Result-cases (from_slice s.signature_bytes)) [
    | inl (signature, e) ↦ count_signed-new t u s key (
        subst (λ x. count_signed z digest t s.authority_id key (ok x) ≡ some u)
          (from_slice-same s.signature_bytes signature e) (rw e at h))
    | inr (x, e) ↦ inl (sym (some_inj _ _ (rw e at h)))
  ]

module _ (z : Suite) (trusted : List ℕ → Option (List ℕ)) (digest : List ℕ) where
  -- One round: nothing changes, or a vote of an authority without one is added.
  count_vote-new :
      (t u : Tally) (s : AuthoritySignature)
      → count_vote z trusted digest t s ≡ some u
      → (u ≡ t)
        ⊎ ((key : List ℕ) × (trusted s.authority_id ≡ some key)
            × (member t.authorities s.authority_id ≡ false)
            × ((v : Vote) × Counts z digest t s key u v))
  unfolding count_vote
  count_vote-new t u s h = elim (Bool-cases (member t.authorities s.authority_id)) [
    | inl old ↦ inl (sym (some_inj _ _ (rw old at h)))
    | inr new ↦ elim (Option-cases (trusted s.authority_id)) [
      | inl e ↦ inl (sym (some_inj _ _ (rw (new, e) at h)))
      | inr (key, e) ↦ elim (count_trusted-new z digest t u s key (rw (new, e) at h)) [
        | inl same ↦ inl same
        | inr vote ↦ inr (key, e, new, vote)
      ]
    ]
  ]

  with_vote-IsQuorum :
      (among : List AuthoritySignature) (votes : List Vote) (u : Tally) (s : AuthoritySignature)
      (key : List ℕ) (v : Vote)
      → Mem s among
      → trusted s.authority_id ≡ some key
      → member (tally_of votes).authorities s.authority_id ≡ false
      → Counts z digest (tally_of votes) s key u v
      → IsQuorum z trusted digest among votes
      → IsQuorum z trusted digest among (v ∷ votes)
  with_vote-IsQuorum among votes u s key v m e new c q = record {
    valid = (
      record {
        listed = subst (λ x. Mem x among) (sym c.of_cast) m;
        known = ap (λ x. trusted (x.authority_id)) c.of_cast ∙ e ∙ ap (λ x. some x) (sym c.of_key);
        verified = rw (c.of_cast, c.of_key) c.verified;
        pins = rw c.of_cast c.pins;
      },
      q.valid,
    );
    authorities = (
      rw c.of_cast (member-false (tally_of votes).authorities s.authority_id new),
      q.authorities,
    );
    keys = (rw c.of_key (member-false (tally_of votes).keys key c.new_key), q.keys);
    classical_keys = (
      member-false (tally_of votes).classical_keys v.classical c.new_classical,
      q.classical_keys,
    );
    pq_keys = (member-false (tally_of votes).pq_keys v.pq c.new_pq, q.pq_keys);
  }

  count_votes-IsQuorum :
      (among ss : List AuthoritySignature) (votes : List Vote) (u : Tally)
      → ((s : AuthoritySignature) → Mem s ss → Mem s among)
      → IsQuorum z trusted digest among votes
      → count_votes z trusted digest (tally_of votes) ss ≡ some u
      → (all_votes : List Vote) × (u ≡ tally_of all_votes)
        × IsQuorum z trusted digest among all_votes
  unfolding count_votes
  count_votes-IsQuorum among [] votes u sub q h = (votes, sym (some_inj _ _ h), q)
  count_votes-IsQuorum among (s ∷ ss) votes u sub q h =
      elim (Option-cases (count_vote z trusted digest (tally_of votes) s)) [
        | inl e ↦ cc (rw e at h)
        | inr (t, e) ↦ elim (count_vote-new (tally_of votes) t s e) [
          | inl same ↦
              count_votes-IsQuorum among ss votes u (λ x m. sub x (mem-cons_of_mem s m)) q
                (subst (λ x. count_votes z trusted digest x ss ≡ some u) same (rw e at h))
          | inr (key, known, new, (v, c)) ↦
              count_votes-IsQuorum among ss (v ∷ votes) u (λ x m. sub x (mem-cons_of_mem s m))
                (with_vote-IsQuorum among votes t s key v (sub s mem-cons_self) known new c q)
                (subst (λ x. count_votes z trusted digest x ss ≡ some u)
                  (c.counted ∙ tally_of-with_vote v votes) (rw e at h))
        ]
      ]

module _ (z : Suite) (trusted : List ℕ → Option (List ℕ)) where
  verify_quorum-counts :
      (d : ConsensusDocument) (threshold now : ℕ)
      → verify_quorum z trusted d threshold now ≡ true
      → (0 < threshold)
        × (d.valid_after ≤ now)
        × (now < d.valid_until)
        × (enough z trusted threshold
              (count_votes z trusted (compute_digest z d) no_votes d.signatures)
            ≡ true)
  unfolding verify_quorum
  verify_quorum-counts d threshold now h = ground arith

  no_votes-IsQuorum :
      (digest : List ℕ) (among : List AuthoritySignature) → IsQuorum z trusted digest among []
  no_votes-IsQuorum digest among = record {
    valid = tt;
    authorities = tt;
    keys = tt;
    classical_keys = tt;
    pq_keys = tt;
  }

  -- A document that passes is inside its window, and carries votes of at least the threshold,
  -- which is not 0: each is one of its signatures, by a trusted authority, verifies the digest of
  -- this document, and no two share the authority, the pin, or either component key.
  pub verify_quorum-IsQuorum :
      (d : ConsensusDocument) (threshold now : ℕ)
      → verify_quorum z trusted d threshold now ≡ true
      → (0 < threshold)
        × (d.valid_after ≤ now)
        × (now < d.valid_until)
        × ((votes : List Vote) × (threshold ≤ length votes)
            × IsQuorum z trusted (compute_digest z d) d.signatures votes)
  verify_quorum-IsQuorum d threshold now h =
      let digest = compute_digest z d in
      let (some_needed, after, before, n) = verify_quorum-counts d threshold now h in
      elim (Option-cases (count_votes z trusted digest no_votes d.signatures)) [
        | inl e ↦ cc (rw e at n)
        | inr (t, e) ↦
            let (votes, same, q) =
              count_votes-IsQuorum z trusted digest d.signatures d.signatures [] t (λ s m. m)
                (no_votes-IsQuorum digest d.signatures) e in
            let many = leb→le threshold t.count (rw e at n) in
            (
              some_needed,
              after,
              before,
              (votes, subst (λ x. threshold ≤ x) (ap (λ x. x.count) same) many, q),
            )
      ]
