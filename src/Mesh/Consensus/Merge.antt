-- ===== src/Mesh/Consensus/Merge.antt =====
-- The merge of signatures of src/mesh/consensus.rs.
use anon_guard.Base.{
  ℕ, ◌≡◌, refl, inl, inr, Bool, true, false, not, ◌&&◌, ◌||◌, ◌+◌, arith, length, length-append,
  take, take_all, take-length_append, All, All-map, All-retain, List, [], ◌∷◌, ◌++◌, Bool-cases,
  retain, member, bytes_eq, bytes_eq→eq, bytes_eq_refl,
}
use anon_guard.Crypto.Identity.{Suite}
use anon_guard.Mesh.Consensus.{
  AuthoritySignature, ConsensusDocument, consensus_bytes, compute_digest, ids,
  merge_signatures_from,
}

member-append :
    (xs ys : List AuthoritySignature) (a : List ℕ)
    → member (ids (xs ++ ys)) a ≡ (member (ids xs) a || member (ids ys) a)
member-append [] ys a = refl
member-append (x ∷ xs) ys a = elim (Bool-cases (bytes_eq x.authority_id a)) [
  | inl e ↦ rw e refl
  | inr e ↦ rw e (member-append xs ys a)
]

-- An authority that the old list does not name is kept.
member-retain :
    (old ss : List AuthoritySignature) (a : List ℕ)
    → member (ids old) a ≡ false
    → member (ids (retain (λ s. not (member (ids old) s.authority_id)) ss)) a ≡ member (ids ss) a
member-retain old [] a h = refl
member-retain old (s ∷ ss) a h = elim (Bool-cases (bytes_eq s.authority_id a)) [
  | inl e ↦ rw (bytes_eq→eq s.authority_id a e, h, bytes_eq_refl a) refl
  | inr e ↦ elim (Bool-cases (member (ids old) s.authority_id)) [
    | inl seen ↦ rw (e, seen) (member-retain old ss a h)
    | inr new ↦ rw (e, new, e) (member-retain old ss a h)
  ]
]

joined :
    (z : Suite) (d other : ConsensusDocument) (a : List ℕ)
    → (member (ids d.signatures) a
        || member
            (ids (retain (λ s. not (member (ids d.signatures) s.authority_id)) other.signatures))
            a)
      ≡ (member (ids d.signatures) a || member (ids other.signatures) a)
joined z d other a = elim (Bool-cases (member (ids d.signatures) a)) [
  | inl e ↦ rw e refl
  | inr e ↦ rw e (member-retain d.signatures other.signatures a e)
]

-- No authority is named twice.
abbrev pub Distinct : List (List ℕ) → Type 0
Distinct [] = Unit {0}
Distinct (a ∷ names) = (member names a ≡ false) × Distinct names

-- An authority that none of the list has is not named by it.
absent :
    (x : List ℕ) (names : List (List ℕ)) (ys : List AuthoritySignature)
    → All (λ y. member (x ∷ names) y.authority_id ≡ false) ys
    → member (ids ys) x ≡ false
absent x names [] h = refl
absent x names (y ∷ ys) (h, hs) = elim (Bool-cases (bytes_eq y.authority_id x)) [
  | inl same ↦ cc (rw (bytes_eq→eq y.authority_id x same, bytes_eq_refl x) at h)
  | inr other ↦ rw other (absent x names ys hs)
]

or_false : (b c : Bool) → (b || c) ≡ false → c ≡ false
or_false b c h = ground arith

or_left : (b c : Bool) → (b || c) ≡ false → b ≡ false
or_left b c h = ground arith

Distinct-append :
    (xs ys : List AuthoritySignature)
    → Distinct (ids xs)
    → Distinct (ids ys)
    → All (λ y. member (ids xs) y.authority_id ≡ false) ys
    → Distinct (ids (xs ++ ys))
Distinct-append [] ys d e h = e
Distinct-append (x ∷ xs) ys (n, d) e h = (
  rw (member-append xs ys x.authority_id, n) (absent x.authority_id (ids xs) ys h),
  Distinct-append xs ys d e (
      All-map (λ y. member (x.authority_id ∷ ids xs) y.authority_id ≡ false)
        (λ y. member (ids xs) y.authority_id ≡ false) ys
        (λ y k. or_false (bytes_eq x.authority_id y.authority_id) _ k) h),
)

absent-retain :
    (p : AuthoritySignature → Bool) (xs : List AuthoritySignature) (a : List ℕ)
    → member (ids xs) a ≡ false
    → member (ids (retain p xs)) a ≡ false
absent-retain p [] a h = refl
absent-retain p (x ∷ xs) a h =
    let rest = absent-retain p xs a (or_false (bytes_eq x.authority_id a) _ h) in
    elim (Bool-cases (p x)) [
      | inl kept ↦ rw (kept, or_left (bytes_eq x.authority_id a) _ h) rest
      | inr gone ↦ rw gone rest
    ]

Distinct-retain :
    (p : AuthoritySignature → Bool) (xs : List AuthoritySignature)
    → Distinct (ids xs)
    → Distinct (ids (retain p xs))
Distinct-retain p [] d = tt
Distinct-retain p (x ∷ xs) (n, d) = elim (Bool-cases (p x)) [
  | inl kept ↦ rw kept (absent-retain p xs x.authority_id n, Distinct-retain p xs d)
  | inr gone ↦ rw gone (Distinct-retain p xs d)
]

All-any {ℓ κ} : {A : Type ℓ} (P : A → Type κ) (xs : List A) → ((x : A) → P x) → All P xs
All-any P [] h = tt
All-any P (x ∷ xs) h = (h x, All-any P xs h)

opposite : (b : Bool) → not b ≡ true → b ≡ false
opposite b h = ground arith

new_signatures-absent :
    (old ss : List AuthoritySignature)
    → All
        (λ y. member (ids old) y.authority_id ≡ false)
        (retain (λ s. not (member (ids old) s.authority_id)) ss)
new_signatures-absent old ss =
    let new = λ (s : AuthoritySignature). not (member (ids old) s.authority_id) in
    All-map (λ y. Unit {0} × (new y ≡ true)) (λ y. member (ids old) y.authority_id ≡ false)
      (retain new ss) (λ y h. opposite _ h.1)
      (All-retain (λ y. Unit {0}) new ss (All-any (λ y. Unit {0}) ss (λ y. tt)))

-- Merging into a document whose authorities are named once each, from another such document,
-- keeps the document's signatures in front, and its content. The result names an authority just if
-- the document does, or the other does and their digests agree; it names none twice; and the
-- number that is returned is that of the signatures that came on.
pub merge_signatures_from-Merged :
    (z : Suite) (d other : ConsensusDocument) (a : List ℕ)
    → Distinct (ids d.signatures)
    → Distinct (ids other.signatures)
    → (member (ids (merge_signatures_from z d other).0.signatures) a ≡ (
        member (ids d.signatures) a
        || (bytes_eq (compute_digest z d) (compute_digest z other)
            && member (ids other.signatures) a)))
      × Distinct (ids (merge_signatures_from z d other).0.signatures)
      × (length (merge_signatures_from z d other).0.signatures
          ≡ length d.signatures + (merge_signatures_from z d other).1)
      × (compute_digest z (merge_signatures_from z d other).0 ≡ compute_digest z d)
      × (take (length d.signatures) (merge_signatures_from z d other).0.signatures ≡ d.signatures)
unfolding merge_signatures_from compute_digest consensus_bytes
merge_signatures_from-Merged z d other a u v =
    let new = retain (λ s. not (member (ids d.signatures) s.authority_id)) other.signatures in
    elim (Bool-cases (bytes_eq (compute_digest z d) (compute_digest z other))) [
      | inr differ ↦
          rw differ
            (ground arith, u, omega arith, refl, take_all d.signatures (length d.signatures) refl)
      | inl same ↦ rw same (
        rw (member-append d.signatures new a) (joined z d other a),
        Distinct-append d.signatures new u
            (Distinct-retain (λ s. not (member (ids d.signatures) s.authority_id)) other.signatures
              v)
            (new_signatures-absent d.signatures other.signatures),
        length-append d.signatures new,
        refl,
        take-length_append d.signatures new (length d.signatures) refl,
      )
    ]
