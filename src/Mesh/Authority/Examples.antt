-- ===== src/Mesh/Authority/Examples.antt =====
-- Tests of the registration of relays at concrete inputs.
use anon_guard.Base.{
  ℕ, ◌≡◌, refl, true, false, Option, none, some, List, [], ◌∷◌, arith, replicate, codes, ok,
}
use anon_guard.Core.Storage.{done, lost, unconfirmed}
use anon_guard.Crypto.Identity.{
  verifying_key, component_pins, from_slice, sign, hybrid_sign, public_key_of, fingerprint,
  verify_strict, public_key, decode, verify, verify_parts, verify_pinned, transcript,
  key_from_bytes,
}
use anon_guard.Crypto.Samples.{repeating, signing, proof}
use anon_guard.Mesh.Consensus.{
  verify_quorum, count_votes, count_vote, ConsensusDocument, sign_with_authority, compute_digest,
  consensus_bytes, sort_relays, RelayDescriptor, compute_signing_bytes, relay_bytes,
}
use anon_guard.Mesh.Descriptor.{verify_identity, is_well_formed, split_labels, is_label}
use anon_guard.Mesh.Sybil.{new_registry, verify_pow, count_leading_zero_bits, check_and_record}
use anon_guard.Mesh.Authority.{
  DirectoryAuthority, register_relay, relay_conflicts, get_relay, insert_descriptor,
}
use anon_guard.Mesh.Authority.Directory.{IsDirectory, register_relay-IsDirectory}
use anon_guard.Mesh.Authority.Votes.{Voter, vote_of, frozen_view, load_votes, start}
use anon_guard.Mesh.Authority.Votes.Once.{Event, view, started, answers, Agreeing, frozen_view-once}
use anon_guard.Mesh.Authority.Pins.{Call, Holds, register_all, register_all-Holds}

abbrev no_address : List ℕ → Option (List ℕ)
no_address host = none

abbrev relay_id : List ℕ
relay_id = codes "relay-1"

abbrev descriptor : ℕ → ℕ → RelayDescriptor
descriptor a time = record {
  node_id = relay_id;
  host = codes "relay.example";
  port = 443;
  onion_key = replicate 32 5;
  identity_pin = a ∷ [];
  is_exit = false;
  pow_nonce = time;
  registered_at = time;
  signature = proof a;
}

abbrev empty : DirectoryAuthority
empty = record {
  revoked = (9 ∷ []) ∷ [];
  active_relays = [];
  pow_difficulty = 0;
  nonce_registry = new_registry;
}

empty-IsDirectory : IsDirectory repeating no_address empty
empty-IsDirectory = record { separate = tt; verified = tt; not_revoked = tt; bounded = omega arith }

abbrev one_relay : DirectoryAuthority
one_relay = (register_relay repeating no_address empty (descriptor 1 1000) 1000).0

was_accepted : (register_relay repeating no_address empty (descriptor 1 1000) 1000).1 ≡ ok tt
unfolding register_relay relay_conflicts get_relay verify_identity is_well_formed split_labels
    is_label key_from_bytes verify_strict public_key decode fingerprint verify_pinned verify
    verify_parts transcript compute_signing_bytes relay_bytes verify_pow count_leading_zero_bits
    check_and_record
was_accepted = refl

register_relay-IsDirectory_example : IsDirectory repeating no_address one_relay
register_relay-IsDirectory_example =
    register_relay-IsDirectory repeating no_address empty (descriptor 1 1000) 1000 empty-IsDirectory

-- Another key asks for the identifier, then the first key renews it.
abbrev later : List Call
later =
    record { descriptor = descriptor 2 1100; now = 1100 }
    ∷ record { descriptor = descriptor 1 1200; now = 1200 }
    ∷ []

is_held : Holds one_relay relay_id (1 ∷ []) 1000
unfolding register_relay relay_conflicts get_relay insert_descriptor verify_identity is_well_formed
    split_labels is_label key_from_bytes verify_strict public_key decode fingerprint verify_pinned
    verify verify_parts transcript compute_signing_bytes relay_bytes verify_pow
    count_leading_zero_bits check_and_record
is_held = (descriptor 1 1000, refl, refl, omega arith)

register_all-Holds_example :
    Holds (register_all repeating no_address one_relay later) relay_id (1 ∷ []) 1000
register_all-Holds_example =
    register_all-Holds repeating no_address one_relay later relay_id (1 ∷ []) 1000 is_held

-- An authority votes for the relay, but the file is not confirmed; it votes again, and is asked
-- again after a start and at other times.
abbrev voter : Voter
voter = record {
  revoked = [];
  authority_id = codes "auth-1";
  signing_key = signing 3;
  require_usable_snapshot = false;
  signed_epochs = [];
  vote_path = true;
  stored = [];
}

abbrev history : List Event
history =
    view (record { relays = descriptor 1 1000 ∷ []; now = 1000; write = unconfirmed })
    ∷ view (record { relays = []; now = 1050; write = done })
    ∷ started []
    ∷ view (record { relays = descriptor 1 1000 ∷ []; now = 1100; write = done })
    ∷ view (record { relays = []; now = 9000; write = lost })
    ∷ []

-- What it gives is read back.
voted :
    (w : Voter) × (d : ConsensusDocument) × (v : Voter) × (frozen_view repeating no_address voter
        (descriptor 1 1000 ∷ [])
        1000
        done
      ≡ (w, ok d))
    × (start repeating no_address w [] ≡ some v)
unfolding start load_votes verify_quorum count_votes count_vote from_slice component_pins
    verifying_key frozen_view vote_of sign_with_authority sign hybrid_sign public_key_of transcript
    fingerprint compute_digest consensus_bytes sort_relays verify_identity is_well_formed
    split_labels is_label key_from_bytes verify_strict public_key decode verify_pinned verify
    verify_parts compute_signing_bytes relay_bytes
voted = (_, _, _, refl, refl)

frozen_view-once_example :
    Agreeing repeating no_address (answers repeating no_address voter history)
frozen_view-once_example = frozen_view-once repeating no_address voter history (λ p. refl)
