-- ===== src/Mesh/Sybil.antt =====
-- src/mesh/sybil.rs: proofs of work and the registry of the nonces that were spent. SHA-256 is
-- the parameter `sha256`; the counters of src/observability.rs are left out.
pub mod Spent
pub mod Work
use anon_guard.Base.{
  ℕ, zero, suc, ◌+◌, ◌-◌, ◌*◌, ◌%◌, ◌^◌, Bool, true, false, ◌&&◌, ◌||◌, Option, none, some, List,
  [], ◌∷◌, ◌++◌, ltb, leb, ◌==◌, if◌then◌else◌, length, any, retain, bytes_eq, be64,
}

abbrev pub max_timestamp_drift_secs : ℕ
max_timestamp_drift_secs = 300

abbrev default_pow_difficulty : ℕ
default_pow_difficulty = 26

-- An entry of the map: the key (node_id, nonce) and the time of the first observation.
pub record Spend : Type 0 where
  pub node_id : List ℕ
  pub nonce : ℕ
  pub observed : ℕ

pub record NonceRegistry : Type 0 where
  pub seen : List Spend
  pub last_purge : ℕ

abbrev pub new_registry : NonceRegistry
new_registry = record { seen = []; last_purge = 0 }

abbrev capacity : ℕ
capacity = 100000

pub is_spend : List ℕ → ℕ → Spend → Bool
is_spend node_id nonce s = bytes_eq s.node_id node_id && (s.nonce == nonce)

abbrev pub retained : ℕ → List Spend → List Spend
retained now = retain λ s. leb (now - s.observed) (max_timestamp_drift_secs * 2)

abbrev pub purge : NonceRegistry → ℕ → NonceRegistry
purge r now =
    if leb 10 (now - r.last_purge)
    then record { seen = retained now r.seen; last_purge = now }
    else r

abbrev pub record_spend : NonceRegistry → List ℕ → ℕ → ℕ → NonceRegistry × Bool
record_spend r node_id nonce now =
    if any (is_spend node_id nonce) r.seen || leb capacity (length r.seen) then (r, true) else (
      record r { seen = record { node_id = node_id; nonce = nonce; observed = now } ∷ r.seen },
      false,
    )

-- `true` refuses the admission.
unfoldable pub check_and_record : NonceRegistry → List ℕ → ℕ → ℕ → NonceRegistry × Bool
check_and_record r node_id nonce now =
    if (length node_id == 0) || ltb 128 (length node_id)
    then (r, true)
    else if ltb now r.last_purge
    then (r, true)
    else record_spend (purge r now) node_id nonce now

-- `u8::leading_zeros`
leading_zeros : ℕ → ℕ
leading_zeros b =
    if leb 128 b
    then 0
    else if leb 64 b
    then 1
    else if leb 32 b
    then 2
    else if leb 16 b
    then 3
    else if leb 8 b
    then 4
    else if leb 4 b
    then 5
    else if leb 2 b
    then 6
    else if leb 1 b
    then 7
    else 8

unfoldable pub count_leading_zero_bits : List ℕ → ℕ
unfolding leading_zeros
count_leading_zero_bits [] = 0
count_leading_zero_bits (b ∷ bs) =
    if b == 0 then 8 + count_leading_zero_bits bs else leading_zeros b

abbrev pub abs_diff : ℕ → ℕ → ℕ
abs_diff a b = (a - b) + (b - a)

module _ (sha256 : List ℕ → List ℕ) where
  abbrev pub work_hash : List ℕ → ℕ → ℕ → List ℕ
  work_hash node_id timestamp nonce = sha256 (node_id ++ (be64 timestamp ++ be64 nonce))

  unfoldable pub verify_pow : List ℕ → ℕ → ℕ → ℕ → ℕ → Bool
  verify_pow node_id timestamp nonce difficulty now =
      if ltb max_timestamp_drift_secs (abs_diff now timestamp)
      then false
      else leb difficulty (count_leading_zero_bits (work_hash node_id timestamp nonce))

  -- `rounds` are the ten million rounds of the source; `wrapping_add` on a u64.
  unfoldable pub solve_rounds : ℕ → List ℕ → ℕ → ℕ → ℕ → Option ℕ
  solve_rounds zero node_id timestamp difficulty nonce = none
  solve_rounds (suc rounds) node_id timestamp difficulty nonce =
      let rest = solve_rounds rounds node_id timestamp difficulty ((nonce + 1) % 2 ^ 64) in
      if leb difficulty (count_leading_zero_bits (work_hash node_id timestamp nonce))
      then some nonce
      else rest

  solve_pow_bounded_from : List ℕ → ℕ → ℕ → ℕ → Option ℕ
  solve_pow_bounded_from = solve_rounds 10000000

  unfoldable pub solve_pow_bounded : List ℕ → ℕ → ℕ → Option ℕ
  unfolding solve_pow_bounded_from
  solve_pow_bounded node_id timestamp difficulty =
      solve_pow_bounded_from node_id timestamp difficulty 0
