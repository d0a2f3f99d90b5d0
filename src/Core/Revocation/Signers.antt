-- ===== src/Core/Revocation/Signers.antt =====
-- The signers that `verify` of src/core/revocation.rs counts.
use anon_guard.Base.{
  ℕ, suc, ◌*◌, ◌/◌, ◌≤◌, ◌<◌, ◌≡◌, refl, sym, ap, ◌∙◌, subst, ◌≢◌, inl, inr, Bool, true, false, not,
  ◌||◌, Option, none, some, List, [], ◌∷◌, map, arith, ltb, leb, ◌==◌, Bool-cases, some_inj, length,
  any, All, member, member-false, bytes_eq, bytes_eq→eq, bytes_eq_refl, Result, Result-cases, ok,
  err,
}
use mathlib.Core.List.{Mem, mem-cons_self, mem-cons_of_mem}
use anon_guard.Crypto.Identity.{Suite, IdentityError, verify_strict, component_pins, from_slice}
use anon_guard.Mesh.Consensus.{AuthoritySignature}
use anon_guard.Mesh.Consensus.Quorum.{Vote, IsVote, IsQuorum, from_slice-same}
use anon_guard.Core.Revocation.{
  RevocationError, RevocationPolicy, Keys, key_of, Signed, nothing_signed, authority_set_digest,
  digest, validate_shape, is_weak, distinct_count, add_pins, add_proof, add_known, add_signatures,
  pinned, verify_policy,
}

length-map : (f : Vote → List ℕ) (vs : List Vote) → length (map f vs) ≡ length vs
length-map f [] = refl
length-map f (v ∷ vs) = ap suc (length-map f vs)

abbrev Known : (Vote → List ℕ) → List (List ℕ) → List Vote → Type 0
Known f ks votes = All (λ w. member ks (f w) ≡ true) votes

Known-more :
    (f : Vote → List ℕ) (ks : List (List ℕ)) (k : List ℕ) (votes : List Vote)
    → Known f ks votes
    → Known f (k ∷ ks) votes
Known-more f ks k [] h = tt
Known-more f ks k (v ∷ vs) (h, hs) = (grown (bytes_eq k (f v)) h, Known-more f ks k vs hs)
  where
    grown : (b : Bool) {c : Bool} → c ≡ true → (b || c) ≡ true
    grown true h = refl
    grown false h = h

-- What is not in the set is none of the values that are.
Known-apart :
    (f : Vote → List ℕ) (ks : List (List ℕ)) (k : List ℕ) (votes : List Vote)
    → Known f ks votes
    → member ks k ≡ false
    → All (λ x. x ≢ k) (map f votes)
Known-apart f ks k [] h n = tt
Known-apart f ks k (v ∷ vs) (h, hs) n = (λ e. cc (rw e at h, n), Known-apart f ks k vs hs n)

module _ (z : Suite) (keys : Keys) (message : List ℕ) where
  -- An authority has one key, so a new key is of a new authority.
  authorities_apart :
      (among : List AuthoritySignature) (id key : List ℕ) (votes : List Vote)
      → key_of keys id ≡ some key
      → All (IsVote z (key_of keys) message among) votes
      → All (λ x. x ≢ key) (map (λ v. v.key) votes)
      → All (λ x. x ≢ id) (map (λ v. v.cast.authority_id) votes)
  authorities_apart among id key [] e vs ks = tt
  authorities_apart among id key (v ∷ votes) e (w, ws) (k, ks) = (
    λ same. k (some_inj v.key key (sym w.known ∙ ap (key_of keys) same ∙ e)),
    authorities_apart among id key votes e ws ks,
  )

  record Gathered (among : List AuthoritySignature) (t : Signed) (votes : List Vote) : Type 0 where
    pub signers : t.signers ≡ map (λ v. v.key) votes
    pub classical : Known (λ v. v.classical) t.classical_keys votes
    pub pq : Known (λ v. v.pq) t.pq_keys votes
    pub quorum : IsQuorum z (key_of keys) message among votes

  abbrev More : List AuthoritySignature → Signed → Type 0
  More among u = (votes : List Vote) × Gathered among u votes

  add_vote :
      (among : List AuthoritySignature) (t : Signed) (v : Vote) (votes : List Vote)
      → IsVote z (key_of keys) message among v
      → member t.signers v.key ≡ false
      → member t.classical_keys v.classical ≡ false
      → member t.pq_keys v.pq ≡ false
      → Gathered among t votes
      → Gathered among
          (record {
            signers = v.key ∷ t.signers;
            classical_keys = v.classical ∷ t.classical_keys;
            pq_keys = v.pq ∷ t.pq_keys;
          })
          (v ∷ votes)
  add_vote among t v votes w n c q g =
      let new_key = member-false (map (λ x. x.key) votes) v.key (rw g.signers at n) in
      record {
        signers = ap (λ (xs : List (List ℕ)). v.key ∷ xs) g.signers;
        classical = (
          own v.classical t.classical_keys,
          Known-more (λ x. x.classical) t.classical_keys v.classical votes g.classical,
        );
        pq = (own v.pq t.pq_keys, Known-more (λ x. x.pq) t.pq_keys v.pq votes g.pq);
        quorum = record {
          valid = (w, g.quorum.valid);
          authorities = (
            authorities_apart among v.cast.authority_id v.key votes w.known g.quorum.valid new_key,
            g.quorum.authorities,
          );
          keys = (new_key, g.quorum.keys);
          classical_keys = (
            Known-apart (λ x. x.classical) t.classical_keys v.classical votes g.classical c,
            g.quorum.classical_keys,
          );
          pq_keys = (Known-apart (λ x. x.pq) t.pq_keys v.pq votes g.pq q, g.quorum.pq_keys);
        };
      }
    where
      own : (x : List ℕ) (xs : List (List ℕ)) → member (x ∷ xs) x ≡ true
      own x xs = rw (bytes_eq_refl x) refl

  ok_inj : (t u : Signed) → ◌≡◌ {A = Result Signed RevocationError} (ok t) (ok u) → t ≡ u
  ok_inj t u h = cc

  add_pins-More :
      (among : List AuthoritySignature) (t u : Signed) (s : AuthoritySignature) (key : List ℕ)
      (r : Result (List ℕ × List ℕ) IdentityError) (votes : List Vote)
      → component_pins z s.signature_bytes ≡ r
      → Mem s among
      → key_of keys s.authority_id ≡ some key
      → verify_strict z key message s.signature_bytes ≡ ok tt
      → Gathered among t votes
      → add_pins z t key r ≡ ok u
      → More among u
  add_pins-More among t u s key (err e) votes p m k w g h = cc
  add_pins-More among t u s key (ok (c, q)) votes p m k w g h =
      elim (Bool-cases (member t.classical_keys c)) [
        | inl old ↦ cc (rw old at h)
        | inr new ↦ elim (Bool-cases (member t.pq_keys q)) [
          | inl old ↦ cc (rw (new, old) at h)
          | inr fresh ↦ elim (Bool-cases (member t.signers key)) [
            | inl counted ↦ (
              votes,
              subst (λ x. Gathered among x votes) (ok_inj _ _ (rw (new, fresh, counted) at h))
                  (record {
                    signers = g.signers;
                    classical = Known-more (λ x. x.classical) t.classical_keys c votes g.classical;
                    pq = Known-more (λ x. x.pq) t.pq_keys q votes g.pq;
                    quorum = g.quorum;
                  }),
            )
            | inr first ↦
                let v : Vote = record { cast = s; key = key; classical = c; pq = q } in
                (
                  v ∷ votes,
                  subst (λ x. Gathered among x (v ∷ votes))
                      (ok_inj _ _ (rw (new, fresh, first) at h))
                      (add_vote among t v votes
                        (record { listed = m; known = k; verified = w; pins = p }) first new fresh
                        g),
                )
          ]
        ]
      ]

  add_proof-More :
      (among : List AuthoritySignature) (t u : Signed) (s : AuthoritySignature) (key : List ℕ)
      (votes : List Vote)
      → Mem s among
      → key_of keys s.authority_id ≡ some key
      → Gathered among t votes
      → add_proof z message t key (ok s.signature_bytes) ≡ ok u
      → More among u
  add_proof-More among t u s key votes m k g h =
      elim (Result-cases (verify_strict z key message s.signature_bytes)) [
        | inl (tt, w) ↦
            add_pins-More among t u s key (component_pins z s.signature_bytes) votes refl m k w g
              (rw w at h)
        | inr (e, w) ↦ (votes, subst (λ x. Gathered among x votes) (ok_inj _ _ (rw w at h)) g)
      ]

  add_known-More :
      (among : List AuthoritySignature) (t u : Signed) (s : AuthoritySignature)
      (o : Option (List ℕ)) (votes : List Vote)
      → Mem s among
      → key_of keys s.authority_id ≡ o
      → Gathered among t votes
      → add_known z message t s o ≡ ok u
      → More among u
  add_known-More among t u s none votes m k g h =
      (votes, subst (λ x. Gathered among x votes) (ok_inj _ _ h) g)
  add_known-More among t u s (some key) votes m k g h =
      elim (Result-cases (from_slice s.signature_bytes)) [
        | inl (proof, e) ↦ add_proof-More among t u s key votes m k g (
            subst (λ x. add_proof z message t key (ok x) ≡ ok u)
              (from_slice-same s.signature_bytes proof e) (rw e at h))
        | inr (x, e) ↦ cc (rw e at h)
      ]

  add_signatures-More :
      (among ss : List AuthoritySignature) (t u : Signed) (votes : List Vote)
      → ((s : AuthoritySignature) → Mem s ss → Mem s among)
      → Gathered among t votes
      → add_signatures z keys message t ss ≡ ok u
      → More among u
  unfolding add_signatures
  add_signatures-More among [] t u votes sub g h =
      (votes, subst (λ x. Gathered among x votes) (ok_inj _ _ h) g)
  add_signatures-More among (s ∷ ss) t u votes sub g h =
      elim (Result-cases (add_known z message t s (key_of keys s.authority_id))) [
        | inl (v, e) ↦
            let (more, k) =
              add_known-More among t v s (key_of keys s.authority_id) votes (sub s mem-cons_self)
                refl g e in
            add_signatures-More among ss v u more (λ x m. sub x (mem-cons_of_mem s m)) k (rw e at h)
        | inr (x, e) ↦ cc (rw e at h)
      ]

last_three :
    (a b c d q l e : Bool)
    → not (a || (b || (c || (d || (q || (l || not e)))))) ≡ true
    → (q ≡ false) × (l ≡ false) × (e ≡ true)
last_three a b c d q l e h = ground arith

le_of : (n m : ℕ) → ltb n m ≡ false → m ≤ n
le_of n m h = ground arith

lt_of : (n m : ℕ) → leb n m ≡ false → m < n
lt_of n m h = ground arith

module _ (z : Suite) where
  verify_policy-passed :
      (p : RevocationPolicy) (keys : Keys) (quorum : ℕ)
      → verify_policy z p keys quorum ≡ ok tt
      → (pinned z p keys quorum ≡ true)
        × ((t : Signed) × (add_signatures z keys (digest z p) nothing_signed p.signatures ≡ ok t)
            × (quorum ≤ length t.signers))
  unfolding verify_policy
  verify_policy-passed p keys quorum h = elim (Result-cases (validate_shape p)) [
    | inr (x, e) ↦ cc (rw e at h)
    | inl (tt, e) ↦ elim (Bool-cases (pinned z p keys quorum)) [
      | inr out ↦ cc (rw (e, out) at h)
      | inl in_set ↦
          elim (Result-cases (add_signatures z keys (digest z p) nothing_signed p.signatures)) [
            | inr (x, f) ↦ cc (rw (e, in_set, f) at h)
            | inl (t, f) ↦ elim (Bool-cases (ltb (length t.signers) quorum)) [
              | inl few ↦ cc (rw (e, in_set, f, few) at h)
              | inr many ↦ (in_set, (t, f, le_of (length t.signers) quorum many))
            ]
          ]
    ]
  ]

  -- A policy that passes names the exact set of authorities, and is signed by at least the quorum,
  -- which is more than two thirds of them: each signature is of one of them, over this policy,
  -- and no two share the authority, its key, or either component key.
  pub verify_policy-IsQuorum :
      (p : RevocationPolicy) (keys : Keys) (quorum : ℕ)
      → verify_policy z p keys quorum ≡ ok tt
      → (p.authority_set ≡ authority_set_digest z keys)
        × (2 * length keys / 3 < quorum)
        × (quorum ≤ length keys)
        × ((votes : List Vote) × (quorum ≤ length votes)
            × IsQuorum z (key_of keys) (digest z p) p.signatures votes)
  verify_policy-IsQuorum p keys quorum h =
      let (in_set, (t, e, many)) = verify_policy-passed p keys quorum h in
      let (more, less, same) =
        last_three (length keys == 0) (ltb 16 (length keys))
          (not (distinct_count (map (λ k. k.1) keys) == length keys)) (any (λ k. is_weak k.1) keys)
          (leb quorum (2 * length keys / 3)) (ltb (length keys) quorum)
          (bytes_eq p.authority_set (authority_set_digest z keys)) in_set in
      let (votes, g) =
        add_signatures-More z keys (digest z p) p.signatures p.signatures nothing_signed t []
          (λ s m. m) none_yet e in
      (
        bytes_eq→eq _ _ same,
        lt_of _ _ more,
        le_of _ _ less,
        (
          votes,
          subst (λ n. quorum ≤ n) (ap length g.signers ∙ length-map (λ v. v.key) votes) many,
          g.quorum,
        ),
      )
    where
      none_yet : Gathered z keys (digest z p) p.signatures nothing_signed []
      none_yet = record {
        signers = refl;
        classical = tt;
        pq = tt;
        quorum = record {
          valid = tt;
          authorities = tt;
          keys = tt;
          classical_keys = tt;
          pq_keys = tt;
        };
      }
