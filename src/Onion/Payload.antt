-- ===== src/Onion/Payload.antt =====
-- The EXTEND and RELAY payloads of src/onion/circuit.rs, and `mlkem768_public_is_canonical` of
-- src/crypto/hybrid_identity.rs. `String::from_utf8` is the parameter `utf8`, whether it accepts
-- the bytes; a key of the crates x25519-dalek and ml-kem is the list of its bytes.
pub mod Wire
use anon_guard.Base.{
  ℕ, ◌+◌, ◌*◌, ◌/◌, ◌%◌, Bool, true, false, not, ◌&&◌, List, ◌∷◌, ◌++◌, ltb, leb, ◌==◌,
  if◌then◌else◌, length, take, be16, from_be, Result, ok, err,
}
use anon_guard.Onion.Cell.{slice}
use anon_guard.Onion.Circuit.{max_hops}
use anon_guard.Onion.CircuitError.{
  CircuitError, hop_index_out_of_range, payload_too_short, parse_error, general,
}

-- Each three bytes hold two numbers of twelve bits.
triples_canonical : List ℕ → Bool
triples_canonical (x ∷ y ∷ z ∷ rest) =
    let others = triples_canonical rest in
    if ltb (x + y % 16 * 256) 3329 && ltb (y / 16 + z * 16) 3329 then others else false
triples_canonical _ = true

unfoldable pub mlkem768_public_is_canonical : List ℕ → Bool
unfolding triples_canonical
mlkem768_public_is_canonical bytes = (length bytes == 1184) && triples_canonical (take 1152 bytes)

pub record Extend : Type 0 where
  pub host : List ℕ
  pub port : ℕ
  pub client_pub : List ℕ
  pub client_mlkem_pub : List ℕ
  pub hop_index : ℕ

pub encode_extend_payload : Extend → Result (List ℕ) CircuitError
encode_extend_payload e =
    if leb max_hops e.hop_index
    then err (hop_index_out_of_range e.hop_index)
    else if ltb 255 (length e.host)
    then err general
    else ok (
        e.hop_index % 256
        ∷ length e.host % 256
        ∷ (e.host ++ (be16 e.port ++ (e.client_pub ++ e.client_mlkem_pub))))

abbrev pub extend_size : ℕ → ℕ
extend_size host_len = 1 + 1 + host_len + 2 + 32 + 1184

abbrev pub byte : ℕ → List ℕ → ℕ
byte i payload = from_be (slice i (i + 1) payload)

module _ (utf8 : List ℕ → Bool) where
  -- The fields of a payload of the right size.
  pub decode_fields : List ℕ → ℕ → ℕ → Result Extend CircuitError
  decode_fields payload hop_index host_len =
      let host = slice 2 (2 + host_len) payload in
      let mlkem = slice (2 + host_len + 2 + 32) (2 + host_len + 2 + 32 + 1184) payload in
      if not (utf8 host)
      then err parse_error
      else if not (mlkem768_public_is_canonical mlkem)
      then err parse_error
      else ok (record {
        host = host;
        port = from_be (slice (2 + host_len) (2 + host_len + 2) payload);
        client_pub = slice (2 + host_len + 2) (2 + host_len + 2 + 32) payload;
        client_mlkem_pub = mlkem;
        hop_index = hop_index;
      })

  pub decode_extend_payload : List ℕ → Result Extend CircuitError
  decode_extend_payload payload =
      let hop_index = byte 0 payload in
      let host_len = byte 1 payload in
      if ltb (length payload) (extend_size 0)
      then err payload_too_short
      else if leb max_hops hop_index
      then err (hop_index_out_of_range hop_index)
      else if ltb (length payload) (extend_size host_len)
      then err payload_too_short
      else if not (length payload == extend_size host_len)
      then err parse_error
      else decode_fields payload hop_index host_len

  pub decode_relay_target : List ℕ → Result (List ℕ × ℕ) CircuitError
  decode_relay_target payload =
      let host_len = byte 0 payload in
      let host = slice 1 (1 + host_len) payload in
      if ltb (length payload) (1 + 2)
      then err payload_too_short
      else if ltb (length payload) (1 + host_len + 2)
      then err payload_too_short
      else if not (utf8 host)
      then err parse_error
      else ok (host, from_be (slice (1 + host_len) (1 + host_len + 2) payload))

unfoldable pub encode_relay_target : List ℕ → ℕ → Result (List ℕ) CircuitError
encode_relay_target host port =
    if ltb 255 (length host) then err general else ok (length host % 256 ∷ (host ++ be16 port))
