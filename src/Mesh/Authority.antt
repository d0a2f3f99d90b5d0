-- ===== src/Mesh/Authority.antt =====
-- The registration of relays by a directory authority, src/mesh/authority.rs. The map of the
-- relays is the list of its values, whose keys are their identifiers; `now` is the clock.
pub mod Directory
pub mod Pins
pub mod Votes
mod Examples
use anon_guard.Base.{
  ℕ, ◌-◌, Bool, true, false, not, ◌&&◌, ◌||◌, Option, none, some, List, [], ◌∷◌, leb, ◌==◌,
  if◌then◌else◌, length, take, drop, any, retain, member, bytes_eq, Result, ok, err,
}
use anon_guard.Crypto.Identity.{Suite, proof_size, public_key_size}
use anon_guard.Mesh.Consensus.{RelayDescriptor}
use anon_guard.Mesh.Descriptor.{verify_identity}
use anon_guard.Mesh.Sybil.{NonceRegistry, check_and_record, verify_pow}

abbrev pub max_directory_relays : ℕ
max_directory_relays = 512

pub record DirectoryAuthority : Type 0 where
  pub revoked : List (List ℕ)
  pub active_relays : List RelayDescriptor
  pub pow_difficulty : ℕ
  pub nonce_registry : NonceRegistry

pub data RegisterError : Type 0 where
  retired invalid_identity invalid_work duplicate capacity_exceeded impersonation not_newer
        replayed_work :
      RegisterError

-- Bytes 8 to 40 and 40 to 1992 of a proof: the two component keys.
abbrev pub same_component : RelayDescriptor → RelayDescriptor → Bool
same_component existing candidate =
    (length existing.signature == proof_size)
    && ((length candidate.signature == proof_size)
        && (bytes_eq (take 32 (drop 8 existing.signature)) (take 32 (drop 8 candidate.signature))
            || bytes_eq (take (public_key_size - 40) (drop 40 existing.signature))
                (take (public_key_size - 40) (drop 40 candidate.signature))))

abbrev pub conflict : RelayDescriptor → RelayDescriptor → Bool
conflict candidate existing =
    not (bytes_eq existing.node_id candidate.node_id)
    && (bytes_eq existing.identity_pin candidate.identity_pin
        || (same_component existing candidate
            || (bytes_eq existing.host candidate.host && (existing.port == candidate.port))))

pub relay_conflicts : List RelayDescriptor → RelayDescriptor → Bool
relay_conflicts relays candidate = any (conflict candidate) relays

-- The map: look up, and insert in place of what the key had.
pub get_relay : List RelayDescriptor → List ℕ → Option RelayDescriptor
get_relay [] id = none
get_relay (d ∷ ds) id = if bytes_eq d.node_id id then some d else get_relay ds id

abbrev pub is_other : List ℕ → RelayDescriptor → Bool
is_other id d = not (bytes_eq d.node_id id)

pub insert_descriptor : List RelayDescriptor → RelayDescriptor → List RelayDescriptor
insert_descriptor ds d = d ∷ retain (is_other d.node_id) ds

abbrev pub has_relay : List RelayDescriptor → List ℕ → Bool
has_relay ds id = any (λ d. bytes_eq d.node_id id) ds

abbrev pub check_existing :
    RelayDescriptor → Option RelayDescriptor → Result (Unit {0}) RegisterError
check_existing d none = ok tt
check_existing d (some existing) =
    if not (bytes_eq existing.identity_pin d.identity_pin)
    then err impersonation
    else if leb d.registered_at existing.registered_at
    then err not_newer
    else ok tt

abbrev Registered : Type 0
Registered = DirectoryAuthority × Result (Unit {0}) RegisterError

-- The proof of work is spent last, and stays spent if it was spent before.
abbrev spend_work : DirectoryAuthority → RelayDescriptor → NonceRegistry × Bool → Registered
spend_work a d (registry, true) = (record a { nonce_registry = registry }, err replayed_work)
spend_work a d (registry, false) = (
  record a { nonce_registry = registry; active_relays = insert_descriptor a.active_relays d },
  ok tt,
)

abbrev pub admit :
    DirectoryAuthority → RelayDescriptor → ℕ → Result (Unit {0}) RegisterError → Registered
admit a d now (err e) = (a, err e)
admit a d now (ok u) = spend_work a d (check_and_record a.nonce_registry d.node_id d.pow_nonce now)

module _ (z : Suite) (ip_text : List ℕ → Option (List ℕ)) where
  pub register_relay : DirectoryAuthority → RelayDescriptor → ℕ → Registered
  register_relay a d now =
      if member a.revoked d.identity_pin
      then (a, err retired)
      else if not (verify_identity z ip_text d)
      then (a, err invalid_identity)
      else if not (verify_pow z.sha256 d.node_id d.registered_at d.pow_nonce a.pow_difficulty now)
      then (a, err invalid_work)
      else if relay_conflicts a.active_relays d
      then (a, err duplicate)
      else if not (has_relay a.active_relays d.node_id)
          && leb max_directory_relays (length a.active_relays)
      then (a, err capacity_exceeded)
      else admit a d now (check_existing d (get_relay a.active_relays d.node_id))
