-- ===== src/Crypto/Samples.antt =====
-- Sample algorithms and keys for tests with the identities of src/crypto/identity.rs.
use anon_guard.Base.{ℕ, true, List, [], ◌∷◌, ◌++◌, take, drop, replicate, bytes_eq, from_be}
use anon_guard.Crypto.Identity.{Suite, magic, HybridSigningKey}

-- Algorithms whose keys and signatures repeat the seed. The hash is one byte of the input: for a
-- pin, the first byte of the classical key.
abbrev pub repeating : Suite
repeating = record {
  sha256 = λ m. take 1 (drop 39 m);
  ed_public = λ k. replicate 32 (from_be k);
  ed_key = λ k. true;
  ed_sign = λ k m. replicate 64 (from_be k);
  ed_verify = λ k m s. bytes_eq (take 1 s) (take 1 k);
  pq_public = λ k. replicate 1952 (from_be k);
  pq_sign = λ k m. replicate 3309 (from_be k);
  pq_signature = λ s. true;
  pq_verify = λ k m s. bytes_eq (take 1 s) (take 1 k);
}

abbrev pub signing : ℕ → HybridSigningKey
signing a = record { classical = a ∷ []; post_quantum = a ∷ [] }

-- The proof of the key of the seed, over any message.
abbrev pub proof : ℕ → List ℕ
proof a =
    magic
    ++ (replicate 32 a ++ (replicate 1952 a ++ (magic ++ (replicate 64 a ++ replicate 3309 a))))
