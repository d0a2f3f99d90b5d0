-- ===== src/Mesh/Authority/Votes/Once.antt =====
-- The votes of src/mesh/authority.rs over runs of `frozen_view` and starts of the program.
use anon_guard.Base.{
  ℕ, ◌<◌, ◌≡◌, refl, sym, ap, ◌∙◌, subst, inl, inr, Bool, true, false, not, ◌&&◌, Option, none,
  some, some_inj, List, [], ◌∷◌, ltb, leb, ==_true, ◌==◌, if◌then◌else◌, Bool-cases, Option-cases,
  &&-true, any, length, All, Result, ok, err,
}
use anon_guard.Core.Storage.{Write, done, lost, unconfirmed}
use anon_guard.Crypto.Identity.{Suite, IdentityError}
use anon_guard.Mesh.Consensus.{RelayDescriptor, ConsensusDocument}
use anon_guard.Mesh.Authority.Votes.{
  Voter, VoteError, retired_vote, unusable_vote, Viewed, vote_of, again, next_votes, persist_vote,
  record_vote, epoch_of, vote_or_again, frozen_view, valid_vote, load_votes, start,
}
use anon_guard.Mesh.Authority.Votes.Steady.{
  Settled, Kept, Agrees, vote_of-at, past_votes, persist_vote-Kept, first_vote-cases,
  frozen_view-Steady,
}

-- A view: the relays, the clock, and how the write of the file ends.
pub record View : Type 0 where
  pub relays : List RelayDescriptor
  pub now : ℕ
  pub write : Write

-- A view, or a start of the program with a set of retired identities.
pub data Event : Type 0 where
  view : View → Event
  started : List (List ℕ) → Event

-- What is settled in memory is settled in the file.
abbrev Backed : Voter → Type 0
Backed v =
    (d : ConsensusDocument) → Settled d v.signed_epochs → v.vote_path ≡ true → Settled d v.stored

-- The file backs the memory, and a vote that is given is settled.
abbrev Sound : Viewed → Type 0
Sound (w, ok d) = Backed w × Settled d w.signed_epochs
Sound (w, err e) = Backed w

again-Sound :
    (v : Voter) (e : ConsensusDocument) → Backed v → Settled e v.signed_epochs → Sound (again v e)
again-Sound v e b k = by_cases _ _
  where
    by_cases :
        (b c : Bool)
        → Sound
            (if b then (v, err retired_vote) else if c then (v, err unusable_vote) else (v, ok e))
    by_cases true c = b
    by_cases false true = b
    by_cases false false = (b, k)

next_votes-first :
    (epoch : ℕ) (n : ConsensusDocument) (ds : List ConsensusDocument)
    → Settled n (next_votes epoch n ds)
unfolding vote_of
next_votes-first epoch n ds = inl (rw (==_true n.valid_after n.valid_after refl) refl)

persist_vote-Sound :
    (epoch : ℕ) (v : Voter) (n : ConsensusDocument) (w : Write)
    → ((d : ConsensusDocument) → Settled d v.signed_epochs → d.valid_after < epoch)
    → n.valid_after ≡ epoch
    → Backed v
    → Sound (persist_vote v (next_votes epoch n v.signed_epochs) n w)
persist_vote-Sound epoch v n done l at b = (λ d k p. k, next_votes-first epoch n v.signed_epochs)
persist_vote-Sound epoch v n lost l at b = b
persist_vote-Sound epoch v n unconfirmed l at b =
    λ d k p. (persist_vote-Kept epoch v d n unconfirmed (l d k) at (k, b d k)).1 p

record_vote-Sound :
    (epoch : ℕ) (v : Voter) (w : Write) (r : Result ConsensusDocument IdentityError)
    → ((d : ConsensusDocument) → Settled d v.signed_epochs → d.valid_after < epoch)
    → ((n : ConsensusDocument) → r ≡ ok n → n.valid_after ≡ epoch)
    → Backed v
    → Sound (record_vote v epoch w r)
record_vote-Sound epoch v w (err e) l at b = b
record_vote-Sound epoch v w (ok n) l at b = by_file _ refl
  where
    next : List ConsensusDocument
    next = next_votes epoch n v.signed_epochs

    by_file :
        (c : Bool)
        → v.vote_path ≡ c
        → Sound (if c then persist_vote v next n w else (record v { signed_epochs = next }, ok n))
    by_file true e = persist_vote-Sound epoch v n w l (at n refl) b
    by_file false e = (λ d k p. cc, next_votes-first epoch n v.signed_epochs)

module _ (z : Suite) (ip_text : List ℕ → Option (List ℕ)) where
  view-Sound :
      (v : Voter) (relays : List RelayDescriptor) (now : ℕ) (w : Write)
      (o : Option ConsensusDocument)
      → any (λ p. ltb (epoch_of now) p.valid_after) v.signed_epochs ≡ false
      → vote_of (epoch_of now) v.signed_epochs ≡ o
      → Backed v
      → Sound (vote_or_again z ip_text v relays now w o)
  view-Sound v relays now w (some e) n h b = again-Sound v e b (
      inl (ap (λ x. vote_of x v.signed_epochs) (vote_of-at (epoch_of now) v.signed_epochs e h) ∙ h))
  view-Sound v relays now w none n h b =
      first_vote-cases z ip_text Sound v relays now w (λ e. b)
        (λ r at.
          record_vote-Sound (epoch_of now) v w r (λ d k. past_votes (epoch_of now) v d n h k) at b)

  frozen_view-Sound :
      (v : Voter) (c : View) → Backed v → Sound (frozen_view z ip_text v c.relays c.now c.write)
  unfolding frozen_view
  frozen_view-Sound v c b =
      elim (Bool-cases (any (λ p. ltb (epoch_of c.now) p.valid_after) v.signed_epochs)) [
        | inl back ↦ rw back b
        | inr on ↦ rw on (
            view-Sound v c.relays c.now c.write (vote_of (epoch_of c.now) v.signed_epochs) on refl
              b)
      ]

  load_votes-same :
      (v : Voter) (ds votes : List ConsensusDocument)
      → load_votes z ip_text v ds ≡ some votes
      → votes ≡ ds
  unfolding load_votes
  load_votes-same v [] votes h = sym (some_inj _ _ h)
  load_votes-same v (d ∷ ds) votes h = elim (Option-cases (load_votes z ip_text v ds)) [
    | inl bad ↦ cc (rw bad at h)
    | inr (rest, good) ↦
        let same = load_votes-same v ds rest good in
        elim (Bool-cases
          (valid_vote z ip_text v d && not (any (λ p. p.valid_after == d.valid_after) rest))) [
            | inl fine ↦ sym (some_inj _ _ (rw (good, fine) at h)) ∙ ap (λ x. d ∷ x) same
            | inr wrong ↦ cc (rw (good, wrong) at h)
          ]
  ]

  abbrev Restored : Voter → Voter → Type 0
  Restored v w = (v.vote_path ≡ true) × (w.signed_epochs ≡ v.stored) × (w.stored ≡ v.stored)

  start-Restored :
      (v w : Voter) (revoked : List (List ℕ)) → start z ip_text v revoked ≡ some w → Restored v w
  unfolding start
  start-Restored v w revoked h = elim (Bool-cases (v.vote_path && leb (length v.stored) 13)) [
    | inr unfit ↦ cc (rw unfit at h)
    | inl fits ↦ elim (Option-cases (load_votes z ip_text v v.stored)) [
      | inl bad ↦ cc (rw (fits, bad) at h)
      | inr (votes, good) ↦
          let same = load_votes-same v v.stored votes good in
          let made = some_inj _ w (rw (fits, good) at h) in
          (
            (&&-true v.vote_path _ fits).0,
            ap (λ x. x.signed_epochs) (sym made) ∙ same,
            ap (λ x. x.stored) (sym made),
          )
    ]
  ]

  -- What is given over a run of events; a start that fails ends it.
  abbrev or_stop {ℓ} : {A : Type ℓ} → (Voter → List A) → Option Voter → List A
  or_stop f none = []
  or_stop f (some v) = f v

  pub answers : Voter → List Event → List (Result ConsensusDocument VoteError)
  answers v [] = []
  answers v (view c ∷ es) =
      let (w, r) = frozen_view z ip_text v c.relays c.now c.write in r ∷ answers w es
  answers v (started revoked ∷ es) = or_stop (λ w. answers w es) (start z ip_text v revoked)

  -- What was given agrees with all that is given later.
  abbrev Steadfast :
      Result ConsensusDocument VoteError → List (Result ConsensusDocument VoteError) → Type 0
  Steadfast (ok d) rs = All (Agrees d) rs
  Steadfast (err e) rs = Unit {0}

  -- Any two documents of the list that are of one epoch are the same.
  abbrev pub Agreeing : List (Result ConsensusDocument VoteError) → Type 0
  Agreeing [] = Unit {0}
  Agreeing (r ∷ rs) = Steadfast r rs × Agreeing rs

  or_stop-holds {ℓ κ} :
      {A : Type ℓ} (P : List A → Type κ) (f : Voter → List A) (o : Option Voter)
      → P []
      → ((w : Voter) → o ≡ some w → P (f w))
      → P (or_stop f o)
  or_stop-holds P f none h k = h
  or_stop-holds P f (some w) h k = k w refl

  Restored-Kept : (d : ConsensusDocument) (v w : Voter) → Restored v w → Kept d v → Kept d w
  Restored-Kept d v w (path, memory, file) (k, b) =
      (subst (Settled d) (sym memory) (b path), λ p. subst (Settled d) (sym file) (b path))

  Restored-Backed : (v w : Voter) → Restored v w → Backed w
  Restored-Backed v w (path, memory, file) d k p = subst (Settled d) (memory ∙ sym file) k

  answers-Agrees :
      (v : Voter) (es : List Event) (d : ConsensusDocument)
      → Kept d v
      → All (Agrees d) (answers v es)
  unfolding answers
  answers-Agrees v [] d k = tt
  answers-Agrees v (view c ∷ es) d k =
      let (l, a) = frozen_view-Steady z ip_text v c.relays c.now c.write d k in
      (a, answers-Agrees (frozen_view z ip_text v c.relays c.now c.write).0 es d l)
  answers-Agrees v (started revoked ∷ es) d k =
      or_stop-holds (All (Agrees d)) (λ w. answers w es) (start z ip_text v revoked) tt
        (λ w e. answers-Agrees w es d (Restored-Kept d v w (start-Restored v w revoked e) k))

  Sound-Backed : (x : Viewed) → Sound x → Backed x.0
  Sound-Backed (w, ok d) s = s.0
  Sound-Backed (w, err e) s = s

  Sound-Steadfast : (x : Viewed) (es : List Event) → Sound x → Steadfast x.1 (answers x.0 es)
  Sound-Steadfast (w, ok d) es (b, k) = answers-Agrees w es d (k, b d k)
  Sound-Steadfast (w, err e) es s = tt

  answers-Agreeing : (v : Voter) (es : List Event) → Backed v → Agreeing (answers v es)
  unfolding answers
  answers-Agreeing v [] b = tt
  answers-Agreeing v (view c ∷ es) b =
      let x = frozen_view z ip_text v c.relays c.now c.write in
      let s = frozen_view-Sound v c b in
      (Sound-Steadfast x es s, answers-Agreeing x.0 es (Sound-Backed x s))
  answers-Agreeing v (started revoked ∷ es) b =
      or_stop-holds Agreeing (λ w. answers w es) (start z ip_text v revoked) tt
        (λ w e. answers-Agreeing w es (Restored-Backed v w (start-Restored v w revoked e)))

  -- An authority whose file, if it has one, holds the votes that it has in memory, never gives two
  -- different documents for one epoch: not in any run of views, whatever relays have registered,
  -- however the clock jumps and however the writes of the file end, and not across starts of the
  -- program from its file.
  pub frozen_view-once :
      (v : Voter) (es : List Event)
      → (v.vote_path ≡ true → v.signed_epochs ≡ v.stored)
      → Agreeing (answers v es)
  frozen_view-once v es same = answers-Agreeing v es (λ d k p. subst (Settled d) (same p) k)
