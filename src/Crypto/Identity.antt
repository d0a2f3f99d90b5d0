-- ===== src/Crypto/Identity.antt =====
-- src/crypto/hybrid_identity.rs and src/crypto/identity.rs: a key signs with Ed25519 and with
-- ML-DSA-65, and a proof carries the public key that the pin fingerprints. The algorithms of
-- the crates sha2, ed25519-dalek and ml-dsa are a parameter, on byte strings.
pub mod Proof
use anon_guard.Base.{
  ℕ, ◌+◌, ◌-◌, ◌%◌, ◌≡◌, Bool, true, not, ◌||◌, List, [], ◌∷◌, ◌++◌, ltb, ◌==◌, if◌then◌else◌,
  length, take, drop, replicate, codes, bytes_eq, be64, Result, ok, err, ◌>>=◌,
}

-- `ed_key` holds of a classical public key that decodes and is not weak. The seeds are first.
pub record Suite : Type 0 where
  pub sha256 : List ℕ → List ℕ
  pub ed_public : List ℕ → List ℕ
  pub ed_key : List ℕ → Bool
  pub ed_sign : List ℕ → List ℕ → List ℕ
  pub ed_verify : List ℕ → List ℕ → List ℕ → Bool
  pub pq_public : List ℕ → List ℕ
  pub pq_sign : List ℕ → List ℕ → List ℕ
  pub pq_signature : List ℕ → Bool
  pub pq_verify : List ℕ → List ℕ → List ℕ → Bool

-- Documented behaviour: the sizes, a key made from a seed is a good one, and what a key signs
-- its public key verifies.
pub record IsSuite (z : Suite) : Type 0 where
  pub ed_public_size : (k : List ℕ) → length (z.ed_public k) ≡ 32
  pub ed_size : (k m : List ℕ) → length (z.ed_sign k m) ≡ 64
  pub pq_public_size : (k : List ℕ) → length (z.pq_public k) ≡ 1952
  pub pq_size : (k m : List ℕ) → length (z.pq_sign k m) ≡ 3309
  pub ed_public_good : (k : List ℕ) → z.ed_key (z.ed_public k) ≡ true
  pub ed_verifies : (k m : List ℕ) → z.ed_verify (z.ed_public k) m (z.ed_sign k m) ≡ true
  pub pq_signature_good : (k m : List ℕ) → z.pq_signature (z.pq_sign k m) ≡ true
  pub pq_verifies : (k m : List ℕ) → z.pq_verify (z.pq_public k) m (z.pq_sign k m) ≡ true

pub data IdentityError : Type 0 where
  invalid_proof invalid_proof_size pin_mismatch zero_pin : IdentityError

abbrev pub magic : List ℕ
magic = codes "AGID0001"

abbrev pub public_key_size : ℕ
public_key_size = 1992

abbrev signature_size : ℕ
signature_size = 3381

abbrev pub proof_size : ℕ
proof_size = 5373

abbrev pub max_message : ℕ
max_message = 16777216

-- A decoded public key is its `encoded` field; the other two are read from it.
pub record HybridPublicKey : Type 0 where
  pub encoded : List ℕ

abbrev classical_bytes : HybridPublicKey → List ℕ
classical_bytes k = take 32 (drop 8 k.encoded)

abbrev post_quantum_bytes : HybridPublicKey → List ℕ
post_quantum_bytes k = drop 40 k.encoded

pub record HybridSigningKey : Type 0 where
  pub classical : List ℕ
  pub post_quantum : List ℕ

abbrev pub network_purpose : List ℕ
network_purpose = codes "network-identity-v6"

module _ (z : Suite) where
  unfoldable pub decode : List ℕ → Result HybridPublicKey IdentityError
  decode encoded =
      if not (length encoded == public_key_size) || not (bytes_eq (take 8 encoded) magic)
      then err invalid_proof
      else if not (z.ed_key (take 32 (drop 8 encoded)))
      then err invalid_proof
      else ok (record { encoded = encoded })

  unfoldable pub fingerprint : HybridPublicKey → List ℕ
  fingerprint k = z.sha256 (codes "AnonGuard-HybridIdentity-Pin-v1" ++ k.encoded)

  unfoldable pub transcript : HybridPublicKey → List ℕ → List ℕ → Result (List ℕ) IdentityError
  transcript k purpose message =
      if (length purpose == 0) || (ltb 255 (length purpose) || ltb max_message (length message))
      then err invalid_proof
      else ok (
          codes "AnonGuard-HybridIdentity-Proof-v1"
          ++ (fingerprint k
              ++ ((length purpose % 256 ∷ []) ++ (purpose ++ (be64 (length message) ++ message)))))

  -- `&proof[8..72]` always decodes as an Ed25519 signature: its size is all that is looked at.
  unfoldable pub verify_parts : HybridPublicKey → List ℕ → List ℕ → Result (Unit {0}) IdentityError
  verify_parts k proof t =
      if not (z.pq_signature (drop 72 proof))
      then err invalid_proof
      else if not (z.ed_verify (classical_bytes k) t (take 64 (drop 8 proof)))
      then err invalid_proof
      else if not (z.pq_verify (post_quantum_bytes k) t (drop 72 proof))
      then err invalid_proof
      else ok tt

  unfoldable pub verify :
      HybridPublicKey → List ℕ → List ℕ → List ℕ → Result (Unit {0}) IdentityError
  verify k purpose message proof =
      if not (length proof == signature_size) || not (bytes_eq (take 8 proof) magic)
      then err invalid_proof
      else transcript k purpose message >>= verify_parts k proof

  unfoldable pub public_key_of : HybridSigningKey → HybridPublicKey
  public_key_of k = record {
    encoded = magic ++ (z.ed_public k.classical ++ z.pq_public k.post_quantum);
  }

  unfoldable pub hybrid_sign : HybridSigningKey → List ℕ → List ℕ → Result (List ℕ) IdentityError
  hybrid_sign k purpose message = do
    t ← transcript (public_key_of k) purpose message
    ok (magic ++ (z.ed_sign k.classical t ++ z.pq_sign k.post_quantum t))

  -- `Signature::public_key`
  unfoldable pub public_key : List ℕ → Result HybridPublicKey IdentityError
  public_key signature =
      if not (length signature == proof_size)
      then err invalid_proof_size
      else decode (take public_key_size signature)

  unfoldable pub verify_pinned :
      List ℕ → List ℕ → List ℕ → HybridPublicKey → Result (Unit {0}) IdentityError
  verify_pinned pin message signature key =
      if not (bytes_eq (fingerprint key) pin)
      then err pin_mismatch
      else verify key network_purpose message (drop public_key_size signature)

  -- A verifying key is its pin.
  unfoldable pub verify_strict : List ℕ → List ℕ → List ℕ → Result (Unit {0}) IdentityError
  verify_strict pin message signature = public_key signature >>= verify_pinned pin message signature

  unfoldable pub component_pins : List ℕ → Result (List ℕ × List ℕ) IdentityError
  component_pins signature = do
    key ← public_key signature
    ok (classical_bytes key, z.sha256 (post_quantum_bytes key))

  -- `SigningKey::sign`; a failure stands for the panic of `expect`.
  unfoldable pub sign : HybridSigningKey → List ℕ → Result (List ℕ) IdentityError
  sign k message = do
    proof ← hybrid_sign k network_purpose message
    ok ((public_key_of k).encoded ++ proof)

  unfoldable pub verifying_key : HybridSigningKey → List ℕ
  verifying_key k = fingerprint (public_key_of k)

-- `VerifyingKey::from_bytes`
unfoldable pub key_from_bytes : List ℕ → Result (List ℕ) IdentityError
key_from_bytes pin = if bytes_eq pin (replicate 32 0) then err zero_pin else ok pin

-- `Signature::from_slice`
unfoldable pub from_slice : List ℕ → Result (List ℕ) IdentityError
from_slice bytes = if not (length bytes == proof_size) then err invalid_proof_size else ok bytes
