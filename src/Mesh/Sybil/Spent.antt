-- ===== src/Mesh/Sybil/Spent.antt =====
-- The registry of spent proofs of src/mesh/sybil.rs, over runs of calls.
use anon_guard.Base.{
  ℕ, ◌+◌, ◌*◌, ◌≤◌, ◌<◌, ◌≡◌, ◌⊎◌, inl, inr, Bool, true, false, ◌&&◌, List, [], ◌∷◌, arith, leb,
  any, bytes_eq_refl,
}
use anon_guard.Mesh.Sybil.{
  Spend, NonceRegistry, is_spend, retained, purge, record_spend, check_and_record,
  max_timestamp_drift_secs, verify_pow,
}

-- One call: the identity, the nonce and the clock, which may run backwards.
pub record Call : Type 0 where
  pub node_id : List ℕ
  pub nonce : ℕ
  pub now : ℕ

pub after : NonceRegistry → List Call → NonceRegistry
after r [] = r
after r (c ∷ cs) = after (check_and_record r c.node_id c.nonce c.now).0 cs

-- The proof was spent at `t`: it is on record from then on, or the last purge lies more than
-- two drift windows after `t`.
is_spend_since : List ℕ → ℕ → ℕ → Spend → Bool
is_spend_since node_id nonce t s = is_spend node_id nonce s && leb t s.observed

abbrev IsSpent : List ℕ → ℕ → ℕ → NonceRegistry → Type 0
IsSpent node_id nonce t r =
    (any (is_spend_since node_id nonce t) r.seen ≡ true)
    ⊎ (t + max_timestamp_drift_secs * 2 < r.last_purge)

-- Two times at which one proof is fresh lie within two drift windows.
fresh_window :
    (sha256 : List ℕ → List ℕ) (node_id : List ℕ) (timestamp nonce difficulty t now : ℕ)
    → verify_pow sha256 node_id timestamp nonce difficulty t ≡ true
    → verify_pow sha256 node_id timestamp nonce difficulty now ≡ true
    → now ≤ t + max_timestamp_drift_secs * 2
unfolding verify_pow
fresh_window sha256 node_id timestamp nonce difficulty t now v w = ground arith

module _ (node_id : List ℕ) (nonce t : ℕ) where
  retained-any :
      (now : ℕ) (seen : List Spend)
      → now ≤ t + max_timestamp_drift_secs * 2
      → any (is_spend_since node_id nonce t) seen ≡ true
      → any (is_spend_since node_id nonce t) (retained now seen) ≡ true
  unfolding is_spend_since
  retained-any now [] h a = cc
  retained-any now (s ∷ seen) h a = ground (arith, retained-any now seen h)

  purge-IsSpent :
      (r : NonceRegistry) (now : ℕ)
      → IsSpent node_id nonce t r
      → IsSpent node_id nonce t (purge r now)
  purge-IsSpent r now (inl a) = ground (arith, retained-any now r.seen)
  purge-IsSpent r now (inr b) = ground arith

  record_spend-IsSpent :
      (r : NonceRegistry) (n : List ℕ) (k now : ℕ)
      → IsSpent node_id nonce t r
      → IsSpent node_id nonce t (record_spend r n k now).0
  record_spend-IsSpent r n k now (inl a) = ground arith
  record_spend-IsSpent r n k now (inr b) = ground arith

  check-IsSpent :
      (r : NonceRegistry) (n : List ℕ) (k now : ℕ)
      → IsSpent node_id nonce t r
      → IsSpent node_id nonce t (check_and_record r n k now).0
  unfolding check_and_record
  check-IsSpent r n k now h =
      ground (arith, record_spend-IsSpent (purge r now) n k now (purge-IsSpent r now h))

  after-IsSpent :
      (r : NonceRegistry) (cs : List Call)
      → IsSpent node_id nonce t r
      → IsSpent node_id nonce t (after r cs)
  unfolding after
  after-IsSpent r [] h = h
  after-IsSpent r (c ∷ cs) h =
      after-IsSpent (check_and_record r c.node_id c.nonce c.now).0 cs
        (check-IsSpent r c.node_id c.nonce c.now h)

  record_spend-recorded :
      (r : NonceRegistry)
      → (record_spend r node_id nonce t).1 ≡ false
      → any (is_spend_since node_id nonce t) (record_spend r node_id nonce t).0.seen ≡ true
  unfolding is_spend_since is_spend
  record_spend-recorded r h = ground (arith, bytes_eq_refl node_id)

  accepted-IsSpent :
      (r : NonceRegistry)
      → (check_and_record r node_id nonce t).1 ≡ false
      → IsSpent node_id nonce t (check_and_record r node_id nonce t).0
  unfolding check_and_record
  accepted-IsSpent r h = ground (arith, record_spend-recorded (purge r t))

  any-is_spend :
      (seen : List Spend)
      → any (is_spend_since node_id nonce t) seen ≡ true
      → any (is_spend node_id nonce) seen ≡ true
  unfolding is_spend_since
  any-is_spend [] h = cc
  any-is_spend (s ∷ seen) h = ground (arith, any-is_spend seen)

  refused :
      (r : NonceRegistry) (now : ℕ)
      → now ≤ t + max_timestamp_drift_secs * 2
      → IsSpent node_id nonce t r
      → (check_and_record r node_id nonce now).1 ≡ true
  unfolding check_and_record
  refused r now h (inl a) =
      ground (arith, retained-any now r.seen h a, any-is_spend (purge r now).seen)
  refused r now h (inr b) = ground arith

-- Once a proof is admitted, the same proof is refused as long as its timestamp is fresh, whatever
-- calls come in between, and however the clock of those calls runs: the entry is not purged while
-- the proof verifies, and a clock that falls behind a purge is refused.
pub check_and_record-once :
    (sha256 : List ℕ → List ℕ) (node_id : List ℕ) (timestamp nonce difficulty t now : ℕ)
    (r : NonceRegistry) (cs : List Call)
    → verify_pow sha256 node_id timestamp nonce difficulty t ≡ true
    → (check_and_record r node_id nonce t).1 ≡ false
    → verify_pow sha256 node_id timestamp nonce difficulty now ≡ true
    → (check_and_record (after (check_and_record r node_id nonce t).0 cs) node_id nonce now).1
      ≡ true
check_and_record-once sha256 node_id timestamp nonce difficulty t now r cs v a w =
    refused node_id nonce t _ now (fresh_window sha256 node_id timestamp nonce difficulty t now v w)
      (after-IsSpent node_id nonce t _ cs (accepted-IsSpent node_id nonce t r a))
