-- ===== src/Core/Revocation.antt =====
-- src/core/revocation.rs: the policy that retires identities, and its quorum. The map of the
-- authorities is an association list of identifiers and pins.
pub mod Signers
pub mod Journal
mod Examples
use anon_guard.Base.{
  ℕ, ◌+◌, ◌*◌, ◌/◌, Bool, not, ◌||◌, Option, none, some, List, [], ◌∷◌, ◌++◌, map, ltb, leb, ◌==◌,
  if◌then◌else◌, length, any, all, codes, member, bytes_eq, replicate, be32, be64, Result, is_ok,
  ok, err, ◌>>=◌,
}
use anon_guard.Crypto.Identity.{
  Suite, IdentityError, HybridSigningKey, proof_size, key_from_bytes, verify_strict, component_pins,
  from_slice, sign,
}
use anon_guard.Mesh.Consensus.{AuthoritySignature, bytes_le}

pub data RevocationError : Type 0 where
  unsupported invalid_identity repeated_identity signature_shape invalid_signer not_pinned
        invalid_signature invalid_component aliased no_quorum locked bad_state enrolling enrolled
        unreadable malformed rolled_back not_persisted :
      RevocationError

abbrev pub max_revoked_identities : ℕ
max_revoked_identities = 512

pub record RevocationPolicy : Type 0 where
  pub version : ℕ
  pub generation : ℕ
  pub authority_set : List ℕ
  pub revoked : List (List ℕ)
  pub signatures : List AuthoritySignature

abbrev pub Keys : Type 0
Keys = List (List ℕ × List ℕ)

pub key_of : Keys → List ℕ → Option (List ℕ)
key_of [] id = none
key_of ((i, k) ∷ ks) id = if bytes_eq i id then some k else key_of ks id

-- `sort_by` on the identifiers, which differ.
insert_key : List ℕ × List ℕ → Keys → Keys
insert_key k [] = k ∷ []
insert_key k (x ∷ xs) =
    let rest = insert_key k xs in if bytes_le k.0 x.0 then k ∷ x ∷ xs else x ∷ rest

sort_keys : Keys → Keys
unfolding insert_key
sort_keys [] = []
sort_keys (k ∷ ks) = insert_key k (sort_keys ks)

key_bytes : Keys → List ℕ
key_bytes [] = []
key_bytes ((i, k) ∷ ks) = be32 (length i) ++ (i ++ (k ++ key_bytes ks))

-- `sort` on the identities.
insert_identity : List ℕ → List (List ℕ) → List (List ℕ)
insert_identity x [] = x ∷ []
insert_identity x (y ∷ ys) =
    let rest = insert_identity x ys in if bytes_le x y then x ∷ y ∷ ys else y ∷ rest

sort_identities : List (List ℕ) → List (List ℕ)
unfolding insert_identity
sort_identities [] = []
sort_identities (x ∷ xs) = insert_identity x (sort_identities xs)

concat : List (List ℕ) → List ℕ
concat [] = []
concat (x ∷ xs) = x ++ concat xs

pub is_weak : List ℕ → Bool
is_weak pin = bytes_eq pin (replicate 32 0)

-- The loop over the retired identities, with those seen so far.
check_identities : List (List ℕ) → List (List ℕ) → Result (Unit {0}) RevocationError
unfolding is_weak
check_identities seen [] = ok tt
check_identities seen (x ∷ xs) =
    let rest = check_identities (x ∷ seen) xs in
    if not (is_ok (key_from_bytes x))
    then err invalid_identity
    else if is_weak x || member seen x
    then err repeated_identity
    else rest

abbrev well_shaped : AuthoritySignature → Bool
well_shaped s = not (
    (length s.authority_id == 0)
    || (ltb 128 (length s.authority_id) || not (length s.signature_bytes == proof_size)))

pub validate_shape : RevocationPolicy → Result (Unit {0}) RevocationError
unfolding check_identities
validate_shape p =
    if not (p.version == 2)
      || ((p.generation == 0)
          || (ltb max_revoked_identities (length p.revoked) || ltb 16 (length p.signatures)))
    then err unsupported
    else check_identities [] p.revoked >>= λ u.
        if all well_shaped p.signatures then ok tt else err signature_shape

-- The values of the map, as the set that counts them.
pub distinct_count : List (List ℕ) → ℕ
distinct_count [] = 0
distinct_count (k ∷ ks) = let rest = distinct_count ks in if member ks k then rest else rest + 1

-- The sets that the loop over the signatures fills.
pub record Signed : Type 0 where
  pub signers : List (List ℕ)
  pub classical_keys : List (List ℕ)
  pub pq_keys : List (List ℕ)

abbrev pub nothing_signed : Signed
nothing_signed = record { signers = []; classical_keys = []; pq_keys = [] }

abbrev insert : List (List ℕ) → List ℕ → List (List ℕ)
insert xs x = if member xs x then xs else x ∷ xs

module _ (z : Suite) where
  pub authority_set_digest : Keys → List ℕ
  unfolding sort_keys key_bytes
  authority_set_digest keys = z.sha256 (
      codes "AnonGuard-RevocationAuthoritySet-v1"
      ++ (be32 (length keys) ++ key_bytes (sort_keys keys)))

  new : ℕ → Keys → List (List ℕ) → RevocationPolicy
  new generation keys revoked = record {
    version = 2;
    generation = generation;
    authority_set = authority_set_digest keys;
    revoked = revoked;
    signatures = [];
  }

  pub digest : RevocationPolicy → List ℕ
  unfolding sort_identities concat
  digest p = z.sha256 (
      codes "AnonGuard-IdentityRetirement-v1"
      ++ (be32 p.version
          ++ (be64 p.generation
              ++ (p.authority_set
                  ++ (be32 (length p.revoked) ++ concat (sort_identities p.revoked))))))

  -- `SigningKey::sign` panics where `sign` fails; the message here is short.
  append_signature :
      RevocationPolicy
      → List ℕ
      → Result (List ℕ) IdentityError
      → Result RevocationPolicy RevocationError
  append_signature p id (err e) = err invalid_signature
  append_signature p id (ok signature) = ok (record p {
    signatures = p.signatures ++ record { authority_id = id; signature_bytes = signature } ∷ [];
  })

  sign_policy :
      RevocationPolicy → List ℕ → HybridSigningKey → Result RevocationPolicy RevocationError
  unfolding append_signature
  sign_policy p id key = validate_shape p >>= λ u.
      if (length id == 0)
        || (ltb 128 (length id)
            || (any (λ s. bytes_eq s.authority_id id) p.signatures || (length p.signatures == 16)))
      then err invalid_signer
      else append_signature p id (sign z key (digest p))

  -- A signature that verifies: its component keys must be new.
  abbrev pub add_pins :
      Signed → List ℕ → Result (List ℕ × List ℕ) IdentityError → Result Signed RevocationError
  add_pins t key (err e) = err invalid_component
  add_pins t key (ok (classical, pq)) =
      if member t.classical_keys classical || member t.pq_keys pq
      then err aliased
      else ok (record {
        signers = insert t.signers key;
        classical_keys = classical ∷ t.classical_keys;
        pq_keys = pq ∷ t.pq_keys;
      })

  abbrev pub add_proof :
      List ℕ → Signed → List ℕ → Result (List ℕ) IdentityError → Result Signed RevocationError
  add_proof message t key (err e) = err invalid_signature
  add_proof message t key (ok proof) =
      if is_ok (verify_strict z key message proof)
      then add_pins t key (component_pins z proof)
      else ok t

  abbrev pub add_known :
      List ℕ → Signed → AuthoritySignature → Option (List ℕ) → Result Signed RevocationError
  add_known message t s none = ok t
  add_known message t s (some key) = add_proof message t key (from_slice s.signature_bytes)

  pub add_signatures :
      Keys → List ℕ → Signed → List AuthoritySignature → Result Signed RevocationError
  add_signatures keys message t [] = ok t
  add_signatures keys message t (s ∷ ss) =
      add_known message t s (key_of keys s.authority_id) >>= λ u. add_signatures keys message u ss

  abbrev pub pinned : RevocationPolicy → Keys → ℕ → Bool
  pinned p keys quorum = not (
      (length keys == 0)
      || (ltb 16 (length keys)
          || (not (distinct_count (map (λ k. k.1) keys) == length keys)
              || (any (λ k. is_weak k.1) keys
                  || (leb quorum (2 * length keys / 3)
                      || (ltb (length keys) quorum
                          || not (bytes_eq p.authority_set (authority_set_digest keys))))))))

  abbrev quorate : ℕ → Signed → Result (Unit {0}) RevocationError
  quorate quorum t = if ltb (length t.signers) quorum then err no_quorum else ok tt

  pub verify_policy : RevocationPolicy → Keys → ℕ → Result (Unit {0}) RevocationError
  unfolding is_weak distinct_count
  verify_policy p keys quorum = validate_shape p >>= λ u.
      if not (pinned p keys quorum)
      then err not_pinned
      else add_signatures keys (digest p) nothing_signed p.signatures >>= quorate quorum
