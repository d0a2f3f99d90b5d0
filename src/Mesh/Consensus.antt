-- ===== src/Mesh/Consensus.antt =====
-- src/mesh/consensus.rs: the consensus document, its digest, the quorum on it, and the merge of
-- the signatures of two copies. A text is the list of its bytes.
pub mod Quorum
pub mod Merge
mod Examples
use anon_guard.Base.{
  ℕ, ◌+◌, ◌-◌, Bool, true, false, not, ◌&&◌, ◌||◌, Option, none, some, List, [], ◌∷◌, ◌++◌, map,
  ltb, leb, ◌==◌, if◌then◌else◌, length, retain, codes, member, bytes_eq, be16, be32, be64, Result,
  is_ok, ok, err, ◌>>=◌, and_then,
}
use anon_guard.Crypto.Identity.{
  Suite, IdentityError, HybridSigningKey, verify_strict, component_pins, from_slice, sign,
}

pub record RelayDescriptor : Type 0 where
  pub node_id : List ℕ
  pub host : List ℕ
  pub port : ℕ
  pub onion_key : List ℕ
  pub identity_pin : List ℕ
  pub is_exit : Bool
  pub pow_nonce : ℕ
  pub registered_at : ℕ
  pub signature : List ℕ

pub record AuthoritySignature : Type 0 where
  pub authority_id : List ℕ
  pub signature_bytes : List ℕ

pub record ConsensusDocument : Type 0 where
  pub valid_after : ℕ
  pub valid_until : ℕ
  pub relays : List RelayDescriptor
  pub signatures : List AuthoritySignature

-- The order of byte strings, `a <= b`.
unfoldable pub bytes_le : List ℕ → List ℕ → Bool
bytes_le [] ys = true
bytes_le (x ∷ xs) [] = false
bytes_le (x ∷ xs) (y ∷ ys) = ltb x y || ((x == y) && bytes_le xs ys)

-- `sort_by` on `node_id`: a stable sort, here by insertion before what is not smaller.
insert_relay : RelayDescriptor → List RelayDescriptor → List RelayDescriptor
insert_relay r [] = r ∷ []
insert_relay r (x ∷ xs) =
    let rest = insert_relay r xs in if bytes_le r.node_id x.node_id then r ∷ x ∷ xs else x ∷ rest

unfoldable pub sort_relays : List RelayDescriptor → List RelayDescriptor
unfolding insert_relay bytes_le
sort_relays [] = []
sort_relays (r ∷ rs) = insert_relay r (sort_relays rs)

abbrev prefixed : List ℕ → List ℕ
prefixed bytes = be32 (length bytes) ++ bytes

-- The fields of a relay that are signed.
unfoldable pub relay_bytes : RelayDescriptor → List ℕ
relay_bytes r =
    prefixed r.node_id
    ++ (prefixed r.host
        ++ (be16 r.port
            ++ (r.onion_key
                ++ (r.identity_pin
                    ++ (((if r.is_exit then 1 else 0) ∷ [])
                        ++ (be64 r.pow_nonce ++ be64 r.registered_at))))))

abbrev all_bytes : List RelayDescriptor → List ℕ
all_bytes [] = []
all_bytes (r ∷ rs) = relay_bytes r ++ all_bytes rs

unfoldable pub compute_signing_bytes : RelayDescriptor → List ℕ
unfolding relay_bytes
compute_signing_bytes r = codes "AnonGuard-RelayDescriptor-v6" ++ relay_bytes r

-- What the digest is taken of.
unfoldable pub consensus_bytes : ConsensusDocument → List ℕ
consensus_bytes d =
    codes "AnonGuard-Consensus-v6"
    ++ (be64 d.valid_after ++ (be64 d.valid_until ++ all_bytes (sort_relays d.relays)))

abbrev pub ids : List AuthoritySignature → List (List ℕ)
ids = map λ s. s.authority_id

-- The sets of `verify_quorum`, and its count.
pub record Tally : Type 0 where
  pub count : ℕ
  pub authorities : List (List ℕ)
  pub keys : List (List ℕ)
  pub classical_keys : List (List ℕ)
  pub pq_keys : List (List ℕ)

abbrev pub no_votes : Tally
no_votes = record { count = 0; authorities = []; keys = []; classical_keys = []; pq_keys = [] }

module _ (z : Suite) where
  unfoldable pub compute_digest : ConsensusDocument → List ℕ
  compute_digest d = z.sha256 (consensus_bytes d)

  unfoldable pub sign_with_authority :
      ConsensusDocument → List ℕ → HybridSigningKey → Result ConsensusDocument IdentityError
  sign_with_authority d authority_id key = do
    signature ← sign z key (compute_digest d)
    ok (record d {
      signatures =
          d.signatures ++ record { authority_id = authority_id; signature_bytes = signature } ∷ [];
    })

  -- The two component keys of a vote are new; `none` is the early `return false`.
  abbrev pub count_pins :
      Tally → List ℕ → List ℕ → Result (List ℕ × List ℕ) IdentityError → Option Tally
  count_pins t id key (err e) = none
  count_pins t id key (ok (classical, pq)) =
      if member t.classical_keys classical || member t.pq_keys pq
      then none
      else some (record {
        count = t.count + 1;
        authorities = id ∷ t.authorities;
        keys = key ∷ t.keys;
        classical_keys = classical ∷ t.classical_keys;
        pq_keys = pq ∷ t.pq_keys;
      })

  abbrev pub count_signed :
      List ℕ → Tally → List ℕ → List ℕ → Result (List ℕ) IdentityError → Option Tally
  count_signed digest t id key (err e) = some t
  count_signed digest t id key (ok signature) =
      if is_ok (verify_strict z key digest signature) && not (member t.keys key)
      then count_pins t id key (component_pins z signature)
      else some t

  abbrev pub count_trusted : List ℕ → Tally → AuthoritySignature → Option (List ℕ) → Option Tally
  count_trusted digest t s none = some t
  count_trusted digest t s (some key) =
      count_signed digest t s.authority_id key (from_slice s.signature_bytes)

  module _ (trusted : List ℕ → Option (List ℕ)) where
    -- One round of the loop.
    unfoldable pub count_vote : List ℕ → Tally → AuthoritySignature → Option Tally
    count_vote digest t s =
        if member t.authorities s.authority_id
        then some t
        else count_trusted digest t s (trusted s.authority_id)

    unfoldable pub count_votes : List ℕ → Tally → List AuthoritySignature → Option Tally
    count_votes digest t [] = some t
    count_votes digest t (s ∷ ss) = and_then (count_vote digest t s) (λ u. count_votes digest u ss)

    abbrev pub enough : ℕ → Option Tally → Bool
    enough threshold none = false
    enough threshold (some t) = leb threshold t.count

    unfoldable pub verify_quorum : ConsensusDocument → ℕ → ℕ → Bool
    verify_quorum d threshold now =
        if (threshold == 0) || leb d.valid_until d.valid_after
        then false
        else if ltb now d.valid_after || leb d.valid_until now
        then false
        else enough threshold (count_votes (compute_digest d) no_votes d.signatures)

  -- The document with the signatures of the other, and how many are new.
  pub merge_signatures_from : ConsensusDocument → ConsensusDocument → ConsensusDocument × ℕ
  merge_signatures_from d other =
      if not (bytes_eq (compute_digest d) (compute_digest other))
      then (d, 0)
      else let new =
          retain (λ s. not (member (ids d.signatures) s.authority_id)) other.signatures in
        (record d { signatures = d.signatures ++ new }, length new)
