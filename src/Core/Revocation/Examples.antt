-- ===== src/Core/Revocation/Examples.antt =====
-- Tests of src/core/revocation.rs at concrete inputs.
use anon_guard.Base.{
  ℕ, ◌*◌, ◌/◌, ◌≤◌, ◌<◌, ◌≡◌, refl, true, false, some, List, [], ◌∷◌, arith, length, All, ok,
}
use anon_guard.Crypto.Identity.{
  fingerprint, verify_strict, component_pins, from_slice, key_from_bytes, decode, public_key,
  verify, verify_parts, verify_pinned, transcript,
}
use anon_guard.Crypto.Samples.{repeating, proof}
use anon_guard.Mesh.Consensus.{bytes_le, AuthoritySignature}
use anon_guard.Mesh.Consensus.Quorum.{Vote, IsQuorum}
use anon_guard.Core.Storage.{done}
use anon_guard.Core.Revocation.{
  RevocationPolicy, Keys, key_of, digest, authority_set_digest, validate_shape, add_signatures,
  verify_policy, distinct_count,
}
use anon_guard.Core.Revocation.Signers.{verify_policy-IsQuorum}
use anon_guard.Core.Revocation.Journal.{
  holding, Disk, Start, load_and_commit, read_policy, read_journal, decide, check_previous,
}
use anon_guard.Core.Revocation.Journal.Cumulative.{Retires, Returned, run, run-Retires}

-- Two authorities; the pin of each is its seed.
abbrev keys : Keys
keys = (1 ∷ [], 1 ∷ []) ∷ (2 ∷ [], 2 ∷ []) ∷ []

abbrev signature_of : ℕ → AuthoritySignature
signature_of a = record { authority_id = a ∷ []; signature_bytes = proof a }

abbrev policy : ℕ → List (List ℕ) → RevocationPolicy
policy generation revoked = record {
  version = 2;
  generation = generation;
  authority_set = authority_set_digest repeating keys;
  revoked = revoked;
  signatures = signature_of 1 ∷ signature_of 9 ∷ signature_of 2 ∷ [];
}

passes : verify_policy repeating (policy 1 ((7 ∷ []) ∷ [])) keys 2 ≡ ok tt
unfolding verify_policy validate_shape key_from_bytes authority_set_digest bytes_le add_signatures
    key_of digest from_slice verify_strict public_key decode fingerprint verify_pinned verify
    verify_parts transcript component_pins distinct_count
passes = refl

verify_policy-IsQuorum_example :
    (authority_set_digest repeating keys ≡ authority_set_digest repeating keys)
    × (2 * length keys / 3 < 2)
    × (2 ≤ length keys)
    × ((votes : List Vote) × (2 ≤ length votes)
        × IsQuorum repeating
            (key_of keys)
            (digest repeating (policy 1 ((7 ∷ []) ∷ [])))
            (policy 1 ((7 ∷ []) ∷ [])).signatures
            votes)
verify_policy-IsQuorum_example =
    verify_policy-IsQuorum repeating (policy 1 ((7 ∷ []) ∷ [])) keys 2 passes

abbrev enrolled_disk : Disk
enrolled_disk = record {
  journal = holding (record { generation = 1; digest = []; revoked = (7 ∷ []) ∷ [] });
  lock = false;
}

abbrev start : ℕ → List (List ℕ) → Start
start generation revoked = record {
  policy = some (holding (policy generation revoked));
  keys = keys;
  quorum = 2;
  lock_opens = true;
  write = done;
}

-- A newer policy that keeps the identity, then one that drops it.
abbrev starts : List Start
starts = start 2 ((7 ∷ []) ∷ (8 ∷ []) ∷ []) ∷ start 3 ((8 ∷ []) ∷ []) ∷ []

run-Retires_example :
    Retires (run repeating enrolled_disk starts).0 1 ((7 ∷ []) ∷ [])
    × All (Returned ((7 ∷ []) ∷ [])) (run repeating enrolled_disk starts).1
run-Retires_example =
    run-Retires repeating enrolled_disk starts 1 ((7 ∷ []) ∷ []) (
      record { generation = 1; digest = []; revoked = (7 ∷ []) ∷ [] },
      refl,
      omega arith,
      (refl, tt),
    )

first_accepted :
    (load_and_commit repeating enrolled_disk (start 2 ((7 ∷ []) ∷ (8 ∷ []) ∷ []))).1
    ≡ ok ((7 ∷ []) ∷ (8 ∷ []) ∷ [])
unfolding verify_policy validate_shape key_from_bytes authority_set_digest bytes_le add_signatures
    key_of digest from_slice verify_strict public_key decode fingerprint verify_pinned verify
    verify_parts transcript component_pins distinct_count load_and_commit decide check_previous
    read_policy read_journal
first_accepted = refl
