-- ===== src/Onion/Cell/Wire.antt =====
-- The wire form of src/onion/cell.rs: writing and reading.
use anon_guard.Base.{
  ℕ, zero, ◌+◌, ◌-◌, ◌≤◌, ◌<◌, ◌≡◌, refl, false, some, List, ◌++◌, arith, ltb, length, take, drop,
  replicate, length-append, take-length_append, drop-length_append, take_all, length-replicate,
  from_be, from_be-be16, from_be-be32, ok,
}
use mathlib.Core.List.{append_assoc}
use native.Mathlib.Nat.{zero-add}
use anon_guard.Onion.Cell.{
  CellCommand, OnionCell, to_u8, from_u8, new, serialize, slice, byte_at, parse_with, parse,
  payload_size, onion_cell_size,
}

-- The Rust types of the fields, as ranges and lengths.
pub record IsCell (c : OnionCell) : Type 0 where
  pub circuit_fits : c.circuit_id < 4294967296
  pub sequence_fits : c.sequence_no < 4294967296
  pub stream_fits : c.stream_id < 65536
  pub len_fits : c.len ≤ payload_size
  pub key_size : length c.ephemeral_key ≡ 32
  pub mac_size : length c.mac ≡ 16
  pub body_size : length c.payload ≡ payload_size

from_u8-to_u8 : (c : CellCommand) → from_u8 (to_u8 c) ≡ some c
unfolding from_u8 to_u8
from_u8-to_u8 CellCommand.create = refl
from_u8-to_u8 _ = refl

-- A cell that `new` makes from fields in the ranges of their types is well-formed.
pub new-IsCell :
    (random : List ℕ) (circuit_id sequence_no : ℕ) (command : CellCommand) (stream_id : ℕ)
    (body : List ℕ) (c : OnionCell)
    → circuit_id < 4294967296
    → sequence_no < 4294967296
    → stream_id < 65536
    → length random ≡ 32
    → new random circuit_id sequence_no command stream_id body ≡ ok c
    → IsCell c
unfolding new
new-IsCell random circuit_id sequence_no command stream_id body c p q r s h = ground (
  arith,
  length-append body (replicate (payload_size - length body) 0),
  length-replicate (payload_size - length body) (zero),
)

module _ (key body mac : List ℕ) (k : length key ≡ 32) (b : length body ≡ payload_size)
    (m : length mac ≡ 16) where
  key_slice : take 32 (key ++ (body ++ mac)) ≡ key
  key_slice = take-length_append key (body ++ mac) 32 k

  body_slice : take payload_size (drop 32 (key ++ (body ++ mac))) ≡ body
  body_slice =
      rw (drop-length_append key (body ++ mac) 32 k) (take-length_append body mac payload_size b)

  mac_slice : take 16 (drop 8163 (key ++ (body ++ mac))) ≡ mac
  mac_slice = rw (← append_assoc key body mac) (
      rw (drop-length_append (key ++ body) mac 8163 (omega (arith, length-append key body)))
        (take_all mac 16 m))

-- What a buffer must hold at each offset to be read as the cell.
pub record Holds (buf : List ℕ) (c : OnionCell) : Type 0 where
  pub circuit : from_be (slice 0 4 buf) ≡ c.circuit_id
  pub sequence : from_be (slice 4 8 buf) ≡ c.sequence_no
  pub command : from_u8 (byte_at 8 buf) ≡ some c.command
  pub stream : from_be (slice 9 11 buf) ≡ c.stream_id
  pub len : from_be (slice 11 13 buf) ≡ c.len
  pub key : slice 13 45 buf ≡ c.ephemeral_key
  pub body : slice 45 (45 + payload_size) buf ≡ c.payload
  pub mac : slice (onion_cell_size - 16) onion_cell_size buf ≡ c.mac

pub not_too_long : (n : ℕ) → n ≤ payload_size → ltb payload_size n ≡ false
not_too_long n h = ground arith

parse-Holds : (buf : List ℕ) (c : OnionCell) → c.len ≤ payload_size → Holds buf c → parse buf ≡ ok c
unfolding parse_with
parse-Holds buf c fits h =
    unfold parse in
    rw (h.command, h.len, not_too_long c.len fits)
      (λ i. ok (record {
        circuit_id = h.circuit i;
        sequence_no = h.sequence i;
        command = c.command;
        stream_id = h.stream i;
        len = c.len;
        ephemeral_key = h.key i;
        mac = h.mac i;
        payload = h.body i;
      }))

pub serialize-Holds : (c : OnionCell) → IsCell c → Holds (serialize c) c
unfolding serialize
serialize-Holds c v = record {
  circuit = from_be-be32 c.circuit_id v.circuit_fits;
  sequence = from_be-be32 c.sequence_no v.sequence_fits;
  command = rw (zero-add (to_u8 c.command)) (from_u8-to_u8 c.command);
  stream = from_be-be16 c.stream_id v.stream_fits;
  len = from_be-be16 c.len (omega arith);
  key = key_slice c.ephemeral_key c.payload c.mac v.key_size v.body_size v.mac_size;
  body = body_slice c.ephemeral_key c.payload c.mac v.key_size v.body_size v.mac_size;
  mac = mac_slice c.ephemeral_key c.payload c.mac v.key_size v.body_size v.mac_size;
}

-- A buffer of a well-formed cell is 8192 bytes long, and parsing it gives the cell back.
pub parse-serialize :
    (c : OnionCell)
    → IsCell c
    → (length (serialize c) ≡ onion_cell_size) × (parse (serialize c) ≡ ok c)
parse-serialize c v = (
  unfold serialize in
      omega
        (arith, length-append c.ephemeral_key (c.payload ++ c.mac), length-append c.payload c.mac),
  parse-Holds (serialize c) c v.len_fits (serialize-Holds c v),
)
