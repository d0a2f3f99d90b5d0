-- ===== src/Mesh/Consensus/Examples.antt =====
-- Tests of the consensus of src/mesh/consensus.rs at concrete inputs.
use anon_guard.Base.{
  ℕ, ◌≤◌, ◌<◌, ◌≡◌, refl, true, false, ◌||◌, Option, none, some, List, [], ◌∷◌, if◌then◌else◌,
  length, take, member, bytes_eq, ◌&&◌, ◌+◌,
}
use anon_guard.Crypto.Identity.{
  fingerprint, verify_strict, component_pins, from_slice, decode, public_key, verify, verify_parts,
  verify_pinned, transcript,
}
use anon_guard.Crypto.Samples.{repeating, proof}
use anon_guard.Mesh.Consensus.{
  AuthoritySignature, ConsensusDocument, compute_digest, consensus_bytes, sort_relays, ids,
  count_vote, count_votes, verify_quorum, merge_signatures_from,
}
use anon_guard.Mesh.Consensus.Quorum.{Vote, IsQuorum, verify_quorum-IsQuorum}
use anon_guard.Mesh.Consensus.Merge.{Distinct, merge_signatures_from-Merged}

abbrev vote_of : ℕ → AuthoritySignature
vote_of a = record { authority_id = a ∷ []; signature_bytes = proof a }

-- Three authorities, 1 to 3; the pin of each is its number.
abbrev trusted : List ℕ → Option (List ℕ)
trusted id = if member ((1 ∷ []) ∷ (2 ∷ []) ∷ (3 ∷ []) ∷ []) id then some id else none

abbrev document : List AuthoritySignature → ConsensusDocument
document signatures = record {
  valid_after = 10;
  valid_until = 20;
  relays = [];
  signatures = signatures;
}

-- The first authority votes twice, and a stranger votes too.
abbrev signed : ConsensusDocument
signed = document (vote_of 1 ∷ vote_of 1 ∷ vote_of 9 ∷ vote_of 2 ∷ [])

passes : verify_quorum repeating trusted signed 2 15 ≡ true
unfolding verify_quorum count_votes count_vote verify_strict component_pins from_slice public_key
    decode fingerprint verify_pinned verify verify_parts transcript compute_digest consensus_bytes
    sort_relays
passes = refl

fails : verify_quorum repeating trusted signed 3 15 ≡ false
unfolding verify_quorum count_votes count_vote verify_strict component_pins from_slice public_key
    decode fingerprint verify_pinned verify verify_parts transcript compute_digest consensus_bytes
    sort_relays
fails = refl

verify_quorum-IsQuorum_example :
    (0 < 2)
    × (10 ≤ 15)
    × (15 < 20)
    × ((votes : List Vote) × (2 ≤ length votes)
        × IsQuorum repeating trusted (compute_digest repeating signed) signed.signatures votes)
verify_quorum-IsQuorum_example = verify_quorum-IsQuorum repeating trusted signed 2 15 passes

abbrev half : ConsensusDocument
half = document (vote_of 1 ∷ [])

abbrev full : ConsensusDocument
full = document (vote_of 1 ∷ vote_of 9 ∷ vote_of 2 ∷ [])

merge_signatures_from-Merged_example :
    (member (ids (merge_signatures_from repeating half full).0.signatures) (2 ∷ []) ≡ (
      member (ids half.signatures) (2 ∷ [])
      || (bytes_eq (compute_digest repeating half) (compute_digest repeating full)
          && member (ids full.signatures) (2 ∷ []))))
    × Distinct (ids (merge_signatures_from repeating half full).0.signatures)
    × (length (merge_signatures_from repeating half full).0.signatures
        ≡ 1 + (merge_signatures_from repeating half full).1)
    × (compute_digest repeating (merge_signatures_from repeating half full).0
        ≡ compute_digest repeating half)
    × (take 1 (merge_signatures_from repeating half full).0.signatures ≡ half.signatures)
merge_signatures_from-Merged_example =
    merge_signatures_from-Merged repeating half full (2 ∷ []) (refl, tt) (refl, (refl, (refl, tt)))
