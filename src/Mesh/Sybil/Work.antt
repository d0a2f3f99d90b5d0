-- ===== src/Mesh/Sybil/Work.antt =====
-- The proof-of-work solver of src/mesh/sybil.rs against its verifier.
use anon_guard.Base.{
  ℕ, zero, suc, ◌+◌, ◌%◌, ◌^◌, ◌≤◌, ◌<◌, ◌≡◌, ◌≢◌, ◌↔◌, inl, inr, true, none, some, List, arith,
  leb, Bool-cases,
}
use anon_guard.Mesh.Sybil.{
  verify_pow, solve_rounds, count_leading_zero_bits, work_hash, abs_diff, max_timestamp_drift_secs,
}

-- The nonce after k wrapping increments.
pub advanced : ℕ → ℕ → ℕ
advanced nonce zero = nonce
advanced nonce (suc k) = advanced ((nonce + 1) % 2 ^ 64) k

module _ (sha256 : List ℕ → List ℕ) (node_id : List ℕ) (timestamp difficulty : ℕ) where
  abbrev Works : ℕ → Type 0
  Works nonce =
      leb difficulty (count_leading_zero_bits (work_hash sha256 node_id timestamp nonce)) ≡ true

  solve_rounds-some :
      (rounds nonce n : ℕ)
      → solve_rounds sha256 rounds node_id timestamp difficulty nonce ≡ some n
      → Works n
  unfolding solve_rounds
  solve_rounds-some zero nonce n h = cc
  solve_rounds-some (suc rounds) nonce n h =
      ground (arith, solve_rounds-some rounds ((nonce + 1) % 2 ^ 64) n)

  solve_rounds-none :
      (rounds nonce k : ℕ)
      → solve_rounds sha256 rounds node_id timestamp difficulty nonce ≡ none
      → k < rounds
      → ¬ Works (advanced nonce k)
  unfolding solve_rounds advanced
  solve_rounds-none zero nonce k h l = absurd (omega arith)
  solve_rounds-none (suc rounds) nonce zero h l = λ w. cc (rw w at h)
  solve_rounds-none (suc rounds) nonce (suc k) h l =
      elim (Bool-cases
        (leb difficulty (count_leading_zero_bits (work_hash sha256 node_id timestamp nonce)))) [
          | inl here ↦ cc (rw here at h)
          | inr on ↦ solve_rounds-none rounds ((nonce + 1) % 2 ^ 64) k (rw on at h) (omega arith)
        ]

  -- Within the drift, the verifier accepts just the nonces that work; outside, none.
  verify_pow_iff :
      (n now : ℕ)
      → (verify_pow sha256 node_id timestamp n difficulty now ≡ true)
        ↔ ((abs_diff now timestamp ≤ max_timestamp_drift_secs) × Works n)
  unfolding verify_pow
  verify_pow_iff n now = (λ h. ground arith, λ h. ground arith)

  -- A nonce that the solver returns, however many rounds it has and wherever it starts, is
  -- accepted by the verifier at every time within the drift of the timestamp.
  pub solve_rounds-verify :
      (rounds nonce n now : ℕ)
      → solve_rounds sha256 rounds node_id timestamp difficulty nonce ≡ some n
      → abs_diff now timestamp ≤ max_timestamp_drift_secs
      → verify_pow sha256 node_id timestamp n difficulty now ≡ true
  solve_rounds-verify rounds nonce n now s d =
      (verify_pow_iff n now).1 (d, solve_rounds-some rounds nonce n s)

  -- Where the solver gives up, the verifier accepts none of the nonces that it went through, at
  -- any time.
  pub solve_rounds-exhausted :
      (rounds nonce k now : ℕ)
      → solve_rounds sha256 rounds node_id timestamp difficulty nonce ≡ none
      → k < rounds
      → verify_pow sha256 node_id timestamp (advanced nonce k) difficulty now ≢ true
  solve_rounds-exhausted rounds nonce k now s l v =
      solve_rounds-none rounds nonce k s l ((verify_pow_iff (advanced nonce k) now).0 v).1
