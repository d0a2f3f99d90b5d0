-- ===== src/Mesh/Descriptor.antt =====
-- `RelayDescriptor::verify_identity` of src/mesh/consensus.rs. A host that parses as an address
-- is given by the parameter `ip_text`: the text of the address that it parses as.
use anon_guard.Base.{
  ℕ, Bool, false, not, ◌&&◌, ◌||◌, Option, none, some, List, [], ◌∷◌, ltb, leb, ◌==◌, if◌then◌else◌,
  length, all, bytes_eq, Result, ok, err, is_ok,
}
use anon_guard.Crypto.Identity.{Suite, IdentityError, key_from_bytes, verify_strict, proof_size}
use anon_guard.Mesh.Consensus.{RelayDescriptor, compute_signing_bytes}

-- `split('.')`: there is at least one label.
abbrev first_label : ℕ → List (List ℕ) → List (List ℕ)
first_label c [] = (c ∷ []) ∷ []
first_label c (label ∷ labels) = (c ∷ label) ∷ labels

unfoldable pub split_labels : List ℕ → List (List ℕ)
split_labels [] = [] ∷ []
split_labels (c ∷ cs) =
    let rest = split_labels cs in if c == b'.' then [] ∷ rest else first_label c rest

abbrev starts_with_dash : List ℕ → Bool
starts_with_dash [] = false
starts_with_dash (c ∷ cs) = c == b'-'

abbrev ends_with_dash : List ℕ → Bool
ends_with_dash [] = false
ends_with_dash (c ∷ []) = c == b'-'
ends_with_dash (c ∷ d ∷ cs) = ends_with_dash (d ∷ cs)

abbrev is_lowercase : ℕ → Bool
is_lowercase c = leb b'a' c && leb c b'z'

abbrev is_digit : ℕ → Bool
is_digit c = leb b'0' c && leb c b'9'

abbrev is_alphanumeric : ℕ → Bool
is_alphanumeric c = is_lowercase c || ((leb b'A' c && leb c b'Z') || is_digit c)

unfoldable pub is_label : List ℕ → Bool
is_label label =
    not (length label == 0)
    && (leb (length label) 63
        && (not (starts_with_dash label)
            && (not (ends_with_dash label)
                && all (λ c. is_lowercase c || (is_digit c || (c == b'-'))) label)))

abbrev is_valid_host : List ℕ → Option (List ℕ) → Bool
is_valid_host host (some text) = bytes_eq text host
is_valid_host host none = all is_label (split_labels host)

unfoldable pub is_well_formed : RelayDescriptor → Bool
is_well_formed d = not (
    (length d.node_id == 0)
    || (ltb 128 (length d.node_id)
        || (not (
              all (λ b. is_alphanumeric b || ((b == b'-') || ((b == b'_') || (b == b'.'))))
                d.node_id)
            || ((length d.host == 0)
                || (ltb 253 (length d.host)
                    || ((d.port == 0) || not (length d.signature == proof_size)))))))

module _ (z : Suite) (ip_text : List ℕ → Option (List ℕ)) where
  abbrev verify_signature : RelayDescriptor → Result (List ℕ) IdentityError → Bool
  verify_signature d (err e) = false
  verify_signature d (ok key) = is_ok (verify_strict z key (compute_signing_bytes d) d.signature)

  unfoldable pub verify_identity : RelayDescriptor → Bool
  verify_identity d =
      if not (is_valid_host d.host (ip_text d.host))
      then false
      else if not (is_well_formed d)
      then false
      else verify_signature d (key_from_bytes d.identity_pin)
