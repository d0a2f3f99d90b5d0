-- ===== src/Mesh/Authority/Votes/Steady.antt =====
-- What a view of src/mesh/authority.rs does to the votes that were given before.
use anon_guard.Base.{
  ℕ, ◌≤◌, ◌<◌, ◌≡◌, refl, sym, ap, ◌∙◌, ◌⊎◌, inl, inr, Bool, true, false, ◌||◌, Option, none, some,
  some_inj, List, [], ◌∷◌, arith, ltb, lt→ltb, ◌==◌, ==_iff, if◌then◌else◌, Bool-cases, any, Result,
  Result-cases, ok, err,
}
use anon_guard.Core.Storage.{Write, done, lost, unconfirmed}
use anon_guard.Crypto.Identity.{Suite, IdentityError, HybridSigningKey, sign}
use anon_guard.Mesh.Consensus.{
  RelayDescriptor, ConsensusDocument, compute_digest, sign_with_authority,
}
use anon_guard.Mesh.Authority.Votes.{
  Voter, VoteError, retired_vote, unusable_vote, capacity_exceeded, deferred, retired_vote,
  unusable_vote, capacity_exceeded, deferred, Viewed, vote_of, again, next_votes, persist_vote,
  record_vote, epoch_of, first_vote, vote_or_again, frozen_view,
}

-- The vote of its epoch is kept, or a later epoch has begun.
abbrev pub Settled : ConsensusDocument → List ConsensusDocument → Type 0
Settled d ds =
    (vote_of d.valid_after ds ≡ some d) ⊎ (any (λ p. ltb d.valid_after p.valid_after) ds ≡ true)

-- It is settled in memory, and in the file if there is one.
abbrev pub Kept : ConsensusDocument → Voter → Type 0
Kept d v = Settled d v.signed_epochs × (v.vote_path ≡ true → Settled d v.stored)

-- What a view of the same epoch must be.
abbrev pub Agrees : ConsensusDocument → Result ConsensusDocument VoteError → Type 0
Agrees d (ok e) = e.valid_after ≡ d.valid_after → e ≡ d
Agrees d (err x) = Unit {0}

pub vote_of-at :
    (epoch : ℕ) (ds : List ConsensusDocument) (d : ConsensusDocument)
    → vote_of epoch ds ≡ some d
    → d.valid_after ≡ epoch
unfolding vote_of
vote_of-at epoch [] d h = cc
vote_of-at epoch (e ∷ ds) d h = elim (Bool-cases (e.valid_after == epoch)) [
  | inl same ↦
      ap (λ x. x.valid_after) (sym (some_inj e d (rw same at h)))
      ∙ (==_iff e.valid_after epoch).0 same
  | inr other ↦ vote_of-at epoch ds d (rw other at h)
]

-- No vote is of an epoch after this one.
none_later :
    (epoch : ℕ) (old : ℕ) (ds : List ConsensusDocument)
    → any (λ d. ltb epoch d.valid_after) ds ≡ false
    → any (λ d. ltb old d.valid_after) ds ≡ true
    → old < epoch
none_later epoch old [] h k = cc
none_later epoch old (d ∷ ds) h k = ground (arith, none_later epoch old ds)

vote_of-not_later :
    (epoch : ℕ) (ds : List ConsensusDocument) (d : ConsensusDocument)
    → any (λ d. ltb epoch d.valid_after) ds ≡ false
    → vote_of d.valid_after ds ≡ some d
    → d.valid_after ≤ epoch
unfolding vote_of
vote_of-not_later epoch [] d h k = cc
vote_of-not_later epoch (e ∷ ds) d h k = elim (Bool-cases (e.valid_after == d.valid_after)) [
  | inl same ↦ ground (arith, h, same)
  | inr other ↦ vote_of-not_later epoch ds d (rest (ltb epoch e.valid_after) h) (rw other at k)
]
  where
    rest : (b : Bool) {c : Bool} → (b || c) ≡ false → c ≡ false
    rest b h = ground arith

-- Where the epoch has no vote yet, and no later one has, it is after that of every settled vote.
pub past_votes :
    (epoch : ℕ) (v : Voter) (d : ConsensusDocument)
    → any (λ p. ltb epoch p.valid_after) v.signed_epochs ≡ false
    → vote_of epoch v.signed_epochs ≡ none
    → Settled d v.signed_epochs
    → d.valid_after < epoch
past_votes epoch v d n h (inr later) = none_later epoch d.valid_after v.signed_epochs n later
past_votes epoch v d n h (inl k) = elim (Bool-cases (d.valid_after == epoch)) [
  | inl same ↦ cc (h, k, (==_iff d.valid_after epoch).0 same)
  | inr other ↦ ground (arith, vote_of-not_later epoch v.signed_epochs d n k, other)
]

-- What a view leaves settled, and what it answers.
abbrev pub Steady : ConsensusDocument → Viewed → Type 0
Steady d (w, r) = Kept d w × Agrees d r

again-Steady :
    (v : Voter) (d e : ConsensusDocument)
    → Kept d v
    → (e.valid_after ≡ d.valid_after → e ≡ d)
    → Steady d (again v e)
again-Steady v d e k a = by_cases _ _
  where
    by_cases :
        (b c : Bool)
        → Steady d
            (if b then (v, err retired_vote) else if c then (v, err unusable_vote) else (v, ok e))
    by_cases true c = (k, tt)
    by_cases false true = (k, tt)
    by_cases false false = (k, a)

pub next_votes-Settled :
    (epoch : ℕ) (v : Voter) (d n : ConsensusDocument)
    → d.valid_after < epoch
    → n.valid_after ≡ epoch
    → Settled d (next_votes epoch n v.signed_epochs)
next_votes-Settled epoch v d n l e = inr (rw (e, lt→ltb d.valid_after epoch l) refl)

-- However the write ends, a vote of an earlier epoch is kept.
pub persist_vote-Kept :
    (epoch : ℕ) (v : Voter) (d n : ConsensusDocument) (w : Write)
    → d.valid_after < epoch
    → n.valid_after ≡ epoch
    → Kept d v
    → Kept d (persist_vote v (next_votes epoch n v.signed_epochs) n w).0
persist_vote-Kept epoch v d n done l e k =
    let next = next_votes-Settled epoch v d n l e in (next, λ p. next)
persist_vote-Kept epoch v d n lost l e k = k
persist_vote-Kept epoch v d n unconfirmed l e k = (k.0, λ p. next_votes-Settled epoch v d n l e)

persist_vote-Agrees :
    (epoch : ℕ) (v : Voter) (d n : ConsensusDocument) (w : Write)
    → d.valid_after < epoch
    → n.valid_after ≡ epoch
    → Agrees d (persist_vote v (next_votes epoch n v.signed_epochs) n w).1
persist_vote-Agrees epoch v d n done l at = λ e. absurd (omega (arith, at, e, l))
persist_vote-Agrees epoch v d n lost l at = tt
persist_vote-Agrees epoch v d n unconfirmed l at = tt

record_vote-Steady :
    (epoch : ℕ) (v : Voter) (d : ConsensusDocument) (w : Write)
    (r : Result ConsensusDocument IdentityError)
    → d.valid_after < epoch
    → Kept d v
    → ((n : ConsensusDocument) → r ≡ ok n → n.valid_after ≡ epoch)
    → Steady d (record_vote v epoch w r)
record_vote-Steady epoch v d w (err e) l k at = (k, tt)
record_vote-Steady epoch v d w (ok n) l k at = by_file _
  where
    next : List ConsensusDocument
    next = next_votes epoch n v.signed_epochs

    by_file :
        (b : Bool)
        → Steady d
            (if b then persist_vote v next n w else (record v { signed_epochs = next }, ok n))
    by_file true = (
      persist_vote-Kept epoch v d n w l (at n refl) k,
      persist_vote-Agrees epoch v d n w l (at n refl),
    )
    by_file false = (
      (next_votes-Settled epoch v d n l (at n refl), k.1),
      λ e. absurd (omega (arith, at n refl, e, l)),
    )

module _ (z : Suite) (ip_text : List ℕ → Option (List ℕ)) where
  signed-epoch :
      (d n : ConsensusDocument) (id : List ℕ) (key : HybridSigningKey)
      → sign_with_authority z d id key ≡ ok n
      → n.valid_after ≡ d.valid_after
  unfolding sign_with_authority
  signed-epoch d n id key h = elim (Result-cases (sign z key (compute_digest z d))) [
    | inl (s, e) ↦ sym (ap (epoch_in 0) (rw e at h))
    | inr (x, e) ↦ cc (rw e at h)
  ]
    where
      epoch_in : ℕ → Result ConsensusDocument IdentityError → ℕ
      epoch_in other (ok x) = x.valid_after
      epoch_in other (err x) = other

  -- A first vote is an error that changes nothing, or the recording of what was signed.
  pub first_vote-cases {ℓ} :
      (P : Viewed → Type ℓ) (v : Voter) (relays : List RelayDescriptor) (now : ℕ) (w : Write)
      → ((e : VoteError) → P (v, err e))
      → ((r : Result ConsensusDocument IdentityError)
          → ((n : ConsensusDocument) → r ≡ ok n → n.valid_after ≡ epoch_of now)
          → P (record_vote v (epoch_of now) w r))
      → P (first_vote z ip_text v relays now w)
  first_vote-cases P v relays now w bad good =
      by_cases _ _ _ (λ n e. signed-epoch _ n v.authority_id v.signing_key e)
    where
      by_cases :
          (b c : Bool) (r : Result ConsensusDocument IdentityError)
          → ((n : ConsensusDocument) → r ≡ ok n → n.valid_after ≡ epoch_of now)
          → P (
              if b
              then (v, err capacity_exceeded)
              else if c
              then (v, err deferred)
              else record_vote v (epoch_of now) w r)
      by_cases true c r at = bad capacity_exceeded
      by_cases false true r at = bad deferred
      by_cases false false r at = good r at

  first_vote-Steady :
      (v : Voter) (relays : List RelayDescriptor) (now : ℕ) (w : Write) (d : ConsensusDocument)
      → d.valid_after < epoch_of now
      → Kept d v
      → Steady d (first_vote z ip_text v relays now w)
  first_vote-Steady v relays now w d l k =
      first_vote-cases (Steady d) v relays now w (λ e. (k, tt))
        (λ r at. record_vote-Steady (epoch_of now) v d w r l k at)

  view-Steady :
      (v : Voter) (relays : List RelayDescriptor) (now : ℕ) (w : Write) (d : ConsensusDocument)
      (o : Option ConsensusDocument)
      → any (λ p. ltb (epoch_of now) p.valid_after) v.signed_epochs ≡ false
      → vote_of (epoch_of now) v.signed_epochs ≡ o
      → Kept d v
      → Steady d (vote_or_again z ip_text v relays now w o)
  view-Steady v relays now w d none n h k =
      first_vote-Steady v relays now w d (past_votes (epoch_of now) v d n h k.0) k
  view-Steady v relays now w d (some e) n h k = again-Steady v d e k (λ same. one_vote same k.0)
    where
      at_epoch : e.valid_after ≡ epoch_of now
      at_epoch = vote_of-at (epoch_of now) v.signed_epochs e h

      one_vote : e.valid_after ≡ d.valid_after → Settled d v.signed_epochs → e ≡ d
      one_vote same (inl f) =
          some_inj e d (sym h ∙ ap (λ x. vote_of x v.signed_epochs) (sym at_epoch ∙ same) ∙ f)
      one_vote same (inr later) = absurd (
          omega (
            arith,
            none_later (epoch_of now) d.valid_after v.signed_epochs n later,
            at_epoch,
            same,
          ))

  pub frozen_view-Steady :
      (v : Voter) (relays : List RelayDescriptor) (now : ℕ) (w : Write) (d : ConsensusDocument)
      → Kept d v
      → Steady d (frozen_view z ip_text v relays now w)
  unfolding frozen_view
  frozen_view-Steady v relays now w d k =
      elim (Bool-cases (any (λ p. ltb (epoch_of now) p.valid_after) v.signed_epochs)) [
        | inl back ↦ rw back (k, tt)
        | inr on ↦
            rw on (view-Steady v relays now w d (vote_of (epoch_of now) v.signed_epochs) on refl k)
      ]
