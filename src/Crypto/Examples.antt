-- ===== src/Crypto/Examples.antt =====
-- Tests of the modules of src/crypto at concrete inputs.
use anon_guard.Base.{
  ℕ, zero, ◌≡◌, refl, true, List, [], ◌∷◌, ◌++◌, arith, length, take, replicate, length-append,
  length-take, length-replicate, bytes_eq, bytes_eq_refl, ok,
}
use anon_guard.Crypto.Identity.{
  Suite, IsSuite, HybridSigningKey, sign, verify_strict, verifying_key,
}
use anon_guard.Crypto.Identity.Proof.{sign-verify_strict}

-- Algorithms of the right sizes, whose keys are their seeds.
abbrev sized : ℕ → List ℕ → List ℕ
sized n xs = take n (xs ++ replicate n 0)

length-sized : (n : ℕ) (xs : List ℕ) → length (sized n xs) ≡ n
length-sized n xs = omega (
  arith,
  length-take n (xs ++ replicate n 0),
  length-append xs (replicate n (zero)),
  length-replicate n (zero),
)

abbrev toy : Suite
toy = record {
  sha256 = sized 32;
  ed_public = sized 32;
  ed_key = λ k. true;
  ed_sign = λ k m. sized 64 (sized 32 k);
  ed_verify = λ k m s. bytes_eq s (sized 64 k);
  pq_public = sized 1952;
  pq_sign = λ k m. sized 3309 (sized 1952 k);
  pq_signature = λ s. true;
  pq_verify = λ k m s. bytes_eq s (sized 3309 k);
}

toy-IsSuite : IsSuite toy
toy-IsSuite = record {
  ed_public_size = λ k. length-sized 32 k;
  ed_size = λ k m. length-sized 64 (sized 32 k);
  pq_public_size = λ k. length-sized 1952 k;
  pq_size = λ k m. length-sized 3309 (sized 1952 k);
  ed_public_good = λ k. refl;
  ed_verifies = λ k m. bytes_eq_refl (sized 64 (sized 32 k));
  pq_signature_good = λ k m. refl;
  pq_verifies = λ k m. bytes_eq_refl (sized 3309 (sized 1952 k));
}

abbrev key : HybridSigningKey
key = record { classical = 1 ∷ 2 ∷ []; post_quantum = 3 ∷ [] }

abbrev message : List ℕ
message = 104 ∷ 105 ∷ []

sign-verify_strict_example :
    (proof : List ℕ) × (sign toy key message ≡ ok proof)
    × (verify_strict toy (verifying_key toy key) message proof ≡ ok tt)
sign-verify_strict_example = sign-verify_strict toy toy-IsSuite key message (omega arith)
