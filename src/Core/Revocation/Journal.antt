-- ===== src/Core/Revocation/Journal.antt =====
-- `load_and_commit` of src/core/revocation.rs. The journal and the policy are the contents of
-- their files, as they are read and decoded; the lock file is there or not.
pub mod Cumulative
use anon_guard.Core.Storage.{Write, done, lost, unconfirmed}
use anon_guard.Base.{
  ℕ, Option, none, some, Bool, true, false, not, ◌&&◌, ◌||◌, List, [], ltb, ◌==◌, if◌then◌else◌,
  length, any, member, bytes_eq, Result, ok, err, ◌>>=◌,
}
use anon_guard.Crypto.Identity.{Suite}
use anon_guard.Core.Revocation.{
  RevocationError, RevocationPolicy, Keys, max_revoked_identities, verify_policy, digest,
  distinct_count, locked, bad_state, enrolling, enrolled, unreadable, malformed, rolled_back,
  not_persisted,
}

pub record AcceptedPolicy : Type 0 where
  pub generation : ℕ
  pub digest : List ℕ
  pub revoked : List (List ℕ)

-- A file that is absent, cannot be read, does not decode, or holds a value.
pub data File (A : Type 0) : Type 0 where
  absent failing garbled : File A
  holding : A → File A

pub record Disk : Type 0 where
  pub journal : File AcceptedPolicy
  pub lock : Bool

-- A start of the program: the policy file if one is given, the keys, and what the disk does.
pub record Start : Type 0 where
  pub policy : Option (File RevocationPolicy)
  pub keys : Keys
  pub quorum : ℕ
  pub lock_opens : Bool
  pub write : Write

abbrev pub Loaded : Type 0
Loaded = Result (List (List ℕ)) RevocationError

-- The files are read under the lock.
unfoldable pub read_journal : File AcceptedPolicy → Result (Option AcceptedPolicy) RevocationError
read_journal absent = ok none
read_journal failing = err bad_state
read_journal garbled = err bad_state
read_journal (holding a) = ok (some a)

unfoldable pub read_policy : File RevocationPolicy → Result RevocationPolicy RevocationError
read_policy absent = err unreadable
read_policy failing = err unreadable
read_policy garbled = err malformed
read_policy (holding p) = ok p

-- Without a policy there must be no journal.
pub without_policy : Bool → Option AcceptedPolicy → Loaded
without_policy true previous = err enrolling
without_policy false (some a) = err enrolled
without_policy false none = ok []

module _ (z : Suite) where
  unfoldable pub check_previous :
      RevocationPolicy → Option AcceptedPolicy → Result (Unit {0}) RevocationError
  unfolding distinct_count
  check_previous p none = ok tt
  check_previous p (some a) =
      if (a.generation == 0)
        || (ltb max_revoked_identities (length a.revoked)
            || not (distinct_count a.revoked == length a.revoked))
      then err bad_state
      else if ltb p.generation a.generation
          || (((p.generation == a.generation) && not (bytes_eq (digest z p) a.digest))
              || any (λ x. not (member p.revoked x)) a.revoked)
      then err rolled_back
      else ok tt

  abbrev pub accepted : RevocationPolicy → AcceptedPolicy
  accepted p = record { generation = p.generation; digest = digest z p; revoked = p.revoked }

  unfoldable pub decide :
      RevocationPolicy → Keys → ℕ → Option AcceptedPolicy → Result (Unit {0}) RevocationError
  decide p keys quorum previous = verify_policy z p keys quorum >>= λ u. check_previous p previous

  abbrev pub persist : RevocationPolicy → Write → Disk → Disk × Loaded
  persist p done d = (record d { journal = holding (accepted p) }, ok p.revoked)
  persist p lost d = (d, err not_persisted)
  persist p unconfirmed d = (record d { journal = holding (accepted p) }, err not_persisted)

  abbrev pub commit :
      RevocationPolicy → Write → Disk → Result (Unit {0}) RevocationError → Disk × Loaded
  commit p w d (err e) = (d, err e)
  commit p w d (ok u) = persist p w d

  abbrev pub with_policy :
      Start → Disk → Option AcceptedPolicy → Result RevocationPolicy RevocationError → Disk × Loaded
  with_policy s d previous (err e) = (d, err e)
  with_policy s d previous (ok p) = commit p s.write d (decide p s.keys s.quorum previous)

  abbrev pub with_journal :
      Start
      → Disk
      → File RevocationPolicy
      → Result (Option AcceptedPolicy) RevocationError
      → Disk × Loaded
  with_journal s d file (err e) = (d, err e)
  with_journal s d file (ok previous) = with_policy s d previous (read_policy file)

  -- The lock file is made by this call, and removed when it returns.
  abbrev pub locked_call : Start → Disk → Option (File RevocationPolicy) → Disk × Loaded
  locked_call s d none = (d, read_journal d.journal >>= without_policy d.lock)
  locked_call s d (some file) =
      if d.lock || not s.lock_opens
      then (d, err locked)
      else with_journal s d file (read_journal d.journal)

  unfoldable pub load_and_commit : Disk → Start → Disk × Loaded
  load_and_commit d s = locked_call s d s.policy
