-- ===== src/Mesh/Authority/Votes.antt =====
-- `frozen_view` of src/mesh/authority.rs: the vote of an authority for an epoch of five minutes,
-- and what `with_persistent_key` reads back. The map of the votes is the list of its documents,
-- whose keys are their epochs.
pub mod Steady
pub mod Once
use anon_guard.Base.{
  ℕ, ◌+◌, ◌-◌, ◌*◌, ◌/◌, min, Bool, true, not, ◌&&◌, ◌||◌, Option, none, some, List, [], ◌∷◌, ltb,
  leb, ◌==◌, if◌then◌else◌, length, any, all, retain, member, bytes_eq, and_then, u64_max, Result,
  ok, err,
}
use anon_guard.Core.Storage.{Write, done, lost, unconfirmed}
use anon_guard.Crypto.Identity.{Suite, IdentityError, HybridSigningKey, verifying_key}
use anon_guard.Mesh.Consensus.{
  RelayDescriptor, ConsensusDocument, sign_with_authority, verify_quorum,
}
use anon_guard.Mesh.Descriptor.{verify_identity}
use anon_guard.Mesh.Authority.{max_directory_relays}

abbrev relay_ttl_secs : ℕ
relay_ttl_secs = 7200

-- The fields of the authority that voting uses. `vote_path` is whether there is a
-- file, and `stored` what the file holds.
pub record Voter : Type 0 where
  pub revoked : List (List ℕ)
  pub authority_id : List ℕ
  pub signing_key : HybridSigningKey
  pub require_usable_snapshot : Bool
  pub signed_epochs : List ConsensusDocument
  pub vote_path : Bool
  pub stored : List ConsensusDocument

pub data VoteError : Type 0 where
  clock_rollback retired_vote unusable_vote capacity_exceeded deferred panicked not_persisted :
      VoteError

abbrev pub Viewed : Type 0
Viewed = Voter × Result ConsensusDocument VoteError

unfoldable pub vote_of : ℕ → List ConsensusDocument → Option ConsensusDocument
vote_of epoch [] = none
vote_of epoch (d ∷ ds) = if d.valid_after == epoch then some d else vote_of epoch ds

abbrev is_revoked : Voter → RelayDescriptor → Bool
is_revoked v r = member v.revoked r.identity_pin

-- Too few relays for a circuit of three hops with an exit.
abbrev unusable : Voter → List RelayDescriptor → Bool
unusable v relays =
    v.require_usable_snapshot && (ltb (length relays) 3 || not (any (λ r. r.is_exit) relays))

-- The vote of the epoch that was given before.
abbrev pub again : Voter → ConsensusDocument → Viewed
again v d =
    if any (is_revoked v) d.relays
    then (v, err retired_vote)
    else if unusable v d.relays
    then (v, err unusable_vote)
    else (v, ok d)

abbrev keep_until : ℕ → ConsensusDocument → Bool
keep_until epoch d = leb epoch (min (d.valid_after + 3600) u64_max)

abbrev pub next_votes : ℕ → ConsensusDocument → List ConsensusDocument → List ConsensusDocument
next_votes epoch d ds =
    d ∷ retain (λ p. not (p.valid_after == epoch)) (retain (keep_until epoch) ds)

-- The new vote takes effect when the file is written.
abbrev pub persist_vote : Voter → List ConsensusDocument → ConsensusDocument → Write → Viewed
persist_vote v next d done = (record v { signed_epochs = next; stored = next }, ok d)
persist_vote v next d lost = (v, err not_persisted)
persist_vote v next d unconfirmed = (record v { stored = next }, err not_persisted)

abbrev pub record_vote : Voter → ℕ → Write → Result ConsensusDocument IdentityError → Viewed
record_vote v epoch w (err e) = (v, err panicked)
record_vote v epoch w (ok d) =
    let next = next_votes epoch d v.signed_epochs in
    if v.vote_path then persist_vote v next d w else (record v { signed_epochs = next }, ok d)

abbrev pub epoch_of : ℕ → ℕ
epoch_of now = now / 300 * 300

module _ (z : Suite) (ip_text : List ℕ → Option (List ℕ)) where
  abbrev fresh_relay : Voter → ℕ → RelayDescriptor → Bool
  fresh_relay v now r =
      not (is_revoked v r)
      && (verify_identity z ip_text r
          && (leb r.registered_at now && leb (now - r.registered_at) relay_ttl_secs))

  abbrev pub first_vote : Voter → List RelayDescriptor → ℕ → Write → Viewed
  first_vote v relays now w =
      let epoch = epoch_of now in
      let live = retain (fresh_relay v now) relays in
      if ltb max_directory_relays (length relays)
      then (v, err capacity_exceeded)
      else if unusable v live
      then (v, err deferred)
      else record_vote v epoch w (
          sign_with_authority z
            (record {
              valid_after = epoch;
              valid_until = epoch + 600;
              relays = live;
              signatures = [];
            })
            v.authority_id v.signing_key)

  abbrev pub vote_or_again :
      Voter → List RelayDescriptor → ℕ → Write → Option ConsensusDocument → Viewed
  vote_or_again v relays now w none = first_vote v relays now w
  vote_or_again v relays now w (some d) = again v d

  unfoldable pub frozen_view : Voter → List RelayDescriptor → ℕ → Write → Viewed
  unfolding vote_of
  frozen_view v relays now w =
      let epoch = epoch_of now in
      if any (λ d. ltb epoch d.valid_after) v.signed_epochs
      then (v, err clock_rollback)
      else vote_or_again v relays now w (vote_of epoch v.signed_epochs)

  -- A vote of the file is bounded, of good descriptors, and signed by the authority.
  abbrev pub valid_vote : Voter → ConsensusDocument → Bool
  valid_vote v d =
      let own = λ (id : List ℕ).
        if bytes_eq id v.authority_id then some (verifying_key z v.signing_key) else none in
      leb (length d.relays) max_directory_relays
      && (leb (length d.signatures) 16
          && (all (verify_identity z ip_text) d.relays && verify_quorum z own d 1 d.valid_after))

  unfoldable pub load_votes : Voter → List ConsensusDocument → Option (List ConsensusDocument)
  load_votes v [] = some []
  load_votes v (d ∷ ds) =
      let rest = load_votes v ds in
      and_then rest (λ votes.
        if valid_vote v d && not (any (λ p. p.valid_after == d.valid_after) votes)
        then some (d ∷ votes)
        else none)

  -- The program starts again with a set of retired identities; there is no voter where it exits.
  -- An authority without a file is not started again. The file can be read, or the program exits.
  unfoldable pub start : Voter → List (List ℕ) → Option Voter
  start v revoked =
      if v.vote_path && leb (length v.stored) 13
      then and_then (load_votes v v.stored) (λ votes.
        some
          (record v { revoked = revoked; require_usable_snapshot = true; signed_epochs = votes }))
      else none
