-- ===== src/Onion/Circuit.antt =====
-- The client circuit and the relay hop of src/onion/circuit.rs. A buffer is the list of its 8192
-- bytes. The ciphers are those of the crates chacha20 and chacha20poly1305: a parameter.
pub mod Forward
pub mod Delivery
use anon_guard.Base.{
  ℕ, ◌+◌, ◌-◌, ◌*◌, ◌/◌, ◌^◌, min, ◌≡◌, not, Option, none, some, List, [], ◌∷◌, ◌++◌, ltb, leb,
  ◌==◌, if◌then◌else◌, length, take, drop, be32, from_be, u32_max, Result, ok, err,
}
use anon_guard.Onion.CircuitError.{
  CircuitError, hop_index_out_of_range, sequence_exhausted, anti_replay_rejection,
  invalid_circuit_id, parse_error, payload_too_short,
}
use anon_guard.Onion.Cell.{
  CellCommand, OnionCell, payload_size, onion_cell_size, slice, byte_at, serialize, from_u8,
}
use anon_guard.Onion.Replay.{ReplayWindow, bwd_counter_bits}
use anon_guard.Onion.Replay

-- Key, nonce, associated data and text in this order. `seal` returns the cipher text and the tag.
pub record Cipher : Type 0 where
  pub seal : List ℕ → List ℕ → List ℕ → List ℕ → List ℕ × List ℕ
  pub open_sealed : List ℕ → List ℕ → List ℕ → List ℕ → List ℕ → Option (List ℕ)
  pub keystream : List ℕ → List ℕ → List ℕ → List ℕ

-- Documented behaviour: what was sealed opens, the tag has 16 bytes, a keystream is applied by
-- exclusive or, and no text changes its length.
pub record IsCipher (z : Cipher) : Type 0 where
  pub opens :
      (k n h t : List ℕ) → z.open_sealed k n h (z.seal k n h t).0 (z.seal k n h t).1 ≡ some t
  pub sealed_size : (k n h t : List ℕ) → length (z.seal k n h t).0 ≡ length t
  pub tag_size : (k n h t : List ℕ) → length (z.seal k n h t).1 ≡ 16
  pub undone : (k n t : List ℕ) → z.keystream k n (z.keystream k n t) ≡ t
  pub stream_size : (k n t : List ℕ) → length (z.keystream k n t) ≡ length t

pub record HopKeys : Type 0 where
  pub forward_key : List ℕ
  pub backward_key : List ℕ
  pub forward_mac : List ℕ
  pub backward_mac : List ℕ
  pub forward_aead_key : List ℕ
  pub backward_aead_key : List ℕ

abbrev pub max_hops : ℕ
max_hops = 8

pub build_nonce : ℕ → ℕ → ℕ → List ℕ
build_nonce direction circuit_id sequence_no =
    (direction ∷ 0 ∷ 0 ∷ 0 ∷ []) ++ (be32 circuit_id ++ be32 sequence_no)

-- `counter | (hop_index << 29)`: the counter has no bit above the 28th.
unfoldable pub pack_backward_seq : ℕ → ℕ → Result ℕ CircuitError
pack_backward_seq hop_index counter =
    if leb max_hops hop_index
    then err (hop_index_out_of_range hop_index)
    else if ltb (2 ^ bwd_counter_bits - 1) counter
    then err sequence_exhausted
    else ok (hop_index * 2 ^ bwd_counter_bits + counter)

pub record OnionCircuit : Type 0 where
  pub circuit_id : ℕ
  pub hops : List HopKeys
  pub sequence_no : ℕ
  pub bwd_replay_windows : List ReplayWindow

abbrev new_circuit : ℕ → OnionCircuit
new_circuit circuit_id = record {
  circuit_id = circuit_id;
  hops = [];
  sequence_no = 1;
  bwd_replay_windows = [];
}

unfoldable pub add_hop : OnionCircuit → HopKeys → Result OnionCircuit CircuitError
add_hop c keys =
    if leb max_hops (length c.hops)
    then err (hop_index_out_of_range (length c.hops))
    else ok (record c {
      hops = c.hops ++ keys ∷ [];
      bwd_replay_windows = c.bwd_replay_windows ++ Replay.fresh ∷ [];
    })

-- The parts of a buffer: the clear header, the text and the place of the tag.
abbrev pub head_of : List ℕ → List ℕ
head_of raw = take 8 raw

abbrev pub text_of : List ℕ → List ℕ
text_of raw = take (onion_cell_size - 24) (drop 8 raw)

abbrev pub tag_of : List ℕ → List ℕ
tag_of raw = drop (onion_cell_size - 24) (drop 8 raw)

abbrev pub last_hop : List HopKeys → Option HopKeys
last_hop [] = none
last_hop (h ∷ []) = some h
last_hop (h ∷ k ∷ hs) = last_hop (k ∷ hs)

pub record RelayCircuitHop : Type 0 where
  pub circuit_id : ℕ
  pub context_id : ℕ
  pub crypt : HopKeys
  pub expected_recv_seq : ℕ
  pub next_send_seq : ℕ
  pub hop_index : ℕ

abbrev pub new_relay_hop : ℕ → HopKeys → ℕ → RelayCircuitHop
new_relay_hop circuit_id keys hop_index = record {
  circuit_id = circuit_id;
  context_id = circuit_id;
  crypt = keys;
  expected_recv_seq = 1;
  next_send_seq = 1;
  hop_index = hop_index;
}

pub data PeelOutcome : Type 0 where
  addressed : CellCommand → ℕ → PeelOutcome
  forward_downstream : PeelOutcome

module _ (z : Cipher) where
  abbrev pub seal_into : Option HopKeys → List ℕ → List ℕ → List ℕ
  seal_into none nonce raw = raw
  seal_into (some hop) nonce raw =
      let (text, tag) = z.seal hop.forward_aead_key nonce (drop 4 (head_of raw)) (text_of raw) in
      head_of raw ++ (text ++ tag)

  -- The layers are put on in reverse order of the hops.
  abbrev pub wrap_layers : List ℕ → List HopKeys → List ℕ → List ℕ
  wrap_layers nonce [] body = body
  wrap_layers nonce (h ∷ hs) body = z.keystream h.forward_key nonce (wrap_layers nonce hs body)

  unfoldable pub wrap_forward :
      OnionCircuit → OnionCell → Result (OnionCircuit × List ℕ) CircuitError
  unfolding build_nonce
  wrap_forward c cell =
      let nonce = build_nonce 1 0 c.sequence_no in
      let raw =
        seal_into (last_hop c.hops) nonce
          (serialize (record cell { sequence_no = c.sequence_no })) in
      if c.sequence_no == u32_max
      then err sequence_exhausted
      else if not (cell.circuit_id == c.circuit_id)
      then err invalid_circuit_id
      else ok (
        record c { sequence_no = c.sequence_no + 1 },
        head_of raw ++ wrap_layers nonce (take (length c.hops - 1) c.hops) (drop 8 raw),
      )

  -- The relay, the buffer that it leaves behind, and the outcome.
  abbrev pub Peeled : Type 0
  Peeled = RelayCircuitHop × List ℕ × Result PeelOutcome CircuitError

  pub accept_addressed : RelayCircuitHop → ℕ → List ℕ → Option CellCommand → Peeled
  accept_addressed r seq raw none = (r, raw, err parse_error)
  accept_addressed r seq raw (some command) =
      let len = from_be (slice 11 13 raw) in
      if ltb payload_size len then (r, raw, err payload_too_short) else (
        record r { expected_recv_seq = seq + 1 },
        raw,
        ok (addressed command (min len payload_size)),
      )

  pub check_addressed : RelayCircuitHop → ℕ → List ℕ → Peeled
  unfolding accept_addressed
  check_addressed r seq raw =
      if ltb seq r.expected_recv_seq
      then (r, raw, err anti_replay_rejection)
      else if ltb Replay.max_seq_gap (seq - r.expected_recv_seq)
      then (r, raw, err anti_replay_rejection)
      else if seq == u32_max
      then (r, raw, err sequence_exhausted)
      else accept_addressed r seq raw (from_u8 (byte_at 8 raw))

  -- A buffer that does not open is left as it was, and loses one layer.
  abbrev pub peel_opened : RelayCircuitHop → ℕ → List ℕ → List ℕ → Option (List ℕ) → Peeled
  peel_opened r seq nonce raw none =
      (r, head_of raw ++ z.keystream r.crypt.forward_key nonce (drop 8 raw), ok forward_downstream)
  peel_opened r seq nonce raw (some text) =
      check_addressed r seq (head_of raw ++ (text ++ tag_of raw))

  unfoldable pub peel_forward : RelayCircuitHop → List ℕ → Peeled
  unfolding build_nonce check_addressed
  peel_forward r raw =
      let seq = from_be (slice 4 8 raw) in
      let nonce = build_nonce 1 0 seq in
      if not (from_be (slice 0 4 raw) == r.circuit_id)
      then (r, raw, err invalid_circuit_id)
      else peel_opened r seq nonce raw (
          z.open_sealed r.crypt.forward_aead_key nonce (drop 4 (head_of raw)) (text_of raw)
            (tag_of raw))

  unfoldable pub wrap_backward_relay : RelayCircuitHop → List ℕ → Result (List ℕ) CircuitError
  unfolding build_nonce
  wrap_backward_relay r raw =
      let seq = from_be (slice 4 8 raw) in
      if seq / 2 ^ bwd_counter_bits == r.hop_index
      then err anti_replay_rejection
      else ok (head_of raw ++ z.keystream r.crypt.backward_key (build_nonce 2 0 seq) (drop 8 raw))

  abbrev originate_at :
      RelayCircuitHop
      → List ℕ
      → Result ℕ CircuitError
      → RelayCircuitHop × Result (List ℕ) CircuitError
  originate_at r raw (err e) = (r, err e)
  originate_at r raw (ok seq) =
      let head = take 4 raw ++ be32 seq in
      let (text, tag) =
        z.seal r.crypt.backward_aead_key (build_nonce 2 0 seq) (be32 seq) (text_of raw) in
      (r, ok (head ++ (text ++ tag)))

  -- The counter is spent before the sequence number is packed, also where that fails.
  unfoldable pub wrap_backward_originate :
      RelayCircuitHop → List ℕ → RelayCircuitHop × Result (List ℕ) CircuitError
  unfolding build_nonce pack_backward_seq
  wrap_backward_originate r raw =
      if r.next_send_seq == u32_max
      then (r, err sequence_exhausted)
      else originate_at (record r { next_send_seq = r.next_send_seq + 1 }) raw
          (pack_backward_seq r.hop_index r.next_send_seq)
