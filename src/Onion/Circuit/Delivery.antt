-- ===== src/Onion/Circuit/Delivery.antt =====
-- A cell from `wrap_forward` at the client to `peel_forward` at the exit, src/onion/circuit.rs.
use anon_guard.Base.{
  ℕ, ◌+◌, ◌-◌, ◌≤◌, ◌<◌, min, ◌≡◌, refl, sym, ap, ◌∙◌, subst, ◌≢◌, inl, inr, some, List, [], ◌∷◌,
  ◌++◌, arith, ◌==◌, ==_iff, Bool-cases, ltb-false, ==_false, ==_true, length, take, drop,
  length-append, take-length_append, be32, u32_max, Result, ok,
}
use mathlib.Core.List.{append_assoc}
use anon_guard.Onion.CircuitError.{CircuitError}
use anon_guard.Onion.Cell.{OnionCell, payload_size, onion_cell_size, serialize}
use anon_guard.Onion.Cell.Wire.{IsCell, Holds, serialize-Holds, not_too_long}
use anon_guard.Onion.Circuit.{
  Cipher, IsCipher, HopKeys, build_nonce, OnionCircuit, RelayCircuitHop, addressed, last_hop,
  head_of, text_of, seal_into, wrap_layers, wrap_forward, accept_addressed, check_addressed,
  peel_forward,
}
use anon_guard.Onion.Circuit.Forward.{
  framed, hop_keys, last_hop-snoc, init-snoc, forward_path, path-layers, peel-exit,
}
use anon_guard.Onion.Replay

-- The cell as it goes out: with the circuit's sequence number, and the tag in place of its own.
abbrev pub numbered : OnionCell → ℕ → OnionCell
numbered cell seq = record cell { sequence_no = seq }

abbrev pub tagged : OnionCell → ℕ → List ℕ → OnionCell
tagged cell seq tag = record cell { sequence_no = seq; mac = tag }

retag :
    (key body mac tag : List ℕ)
    → length key ≡ 32
    → length body ≡ payload_size
    → take 8163 (key ++ (body ++ mac)) ++ tag ≡ key ++ (body ++ tag)
retag key body mac tag k b = rw (← append_assoc key body mac) (
    rw (take-length_append (key ++ body) mac 8163 (omega (arith, length-append key body)))
      (append_assoc key body tag))

pub serialize-tagged :
    (cell : OnionCell) (seq : ℕ) (tag : List ℕ)
    → IsCell cell
    → framed cell.circuit_id seq (text_of (serialize (numbered cell seq)) ++ tag)
      ≡ serialize (tagged cell seq tag)
unfolding serialize
serialize-tagged cell seq tag v =
    rw (retag cell.ephemeral_key cell.payload cell.mac tag v.key_size v.body_size)

sizes : (cell : OnionCell) → IsCell cell → length (cell.ephemeral_key ++ cell.payload) ≡ 8163
sizes cell v = omega (arith, length-append cell.ephemeral_key cell.payload)

pub length-text_of :
    (cell : OnionCell) (seq : ℕ)
    → IsCell cell
    → length (text_of (serialize (numbered cell seq))) ≡ onion_cell_size - 24
unfolding serialize
length-text_of cell seq v = rw (← append_assoc cell.ephemeral_key cell.payload cell.mac) (
    rw (take-length_append (cell.ephemeral_key ++ cell.payload) cell.mac 8163 (sizes cell v))
      (omega (arith, sizes cell v)))

min_payload : (n : ℕ) → n ≤ payload_size → min n payload_size ≡ n
min_payload n h = omega arith

below_top : (n : ℕ) → n ≤ u32_max → n ≢ u32_max → n < u32_max
below_top n h e = omega arith

ok_inj :
    (x y : OnionCircuit × List ℕ)
    → ◌≡◌ {A = Result (OnionCircuit × List ℕ) CircuitError} (ok x) (ok y)
    → x.1 ≡ y.1
ok_inj x y h = ground arith

module _ (z : Cipher) where
  check-Holds :
      (r : RelayCircuitHop) (seq : ℕ) (raw : List ℕ) (c : OnionCell)
      → Holds raw c
      → c.len ≤ payload_size
      → r.expected_recv_seq ≤ seq
      → seq ≤ r.expected_recv_seq + Replay.max_seq_gap
      → seq < u32_max
      → check_addressed z r seq raw
        ≡ (record r { expected_recv_seq = seq + 1 }, raw, ok (addressed c.command c.len))
  unfolding check_addressed accept_addressed
  check-Holds r seq raw c h l a b n = rw (
    ltb-false seq r.expected_recv_seq a,
    ltb-false Replay.max_seq_gap (seq - r.expected_recv_seq) (omega arith),
    ==_false seq u32_max (λ e. omega arith),
    h.command,
    h.len,
    not_too_long c.len l,
    min_payload c.len l,
  )

  wrap_forward-framed :
      (c c' : OnionCircuit) (cell : OnionCell) (raw : List ℕ)
      → wrap_forward z c cell ≡ ok (c', raw)
      → (c.sequence_no ≢ u32_max)
        × (cell.circuit_id ≡ c.circuit_id)
        × (raw ≡ (
            let start =
              seal_into z
                (last_hop c.hops)
                (build_nonce 1 0 c.sequence_no)
                (serialize (numbered cell c.sequence_no)) in
            head_of start
            ++ wrap_layers z
                (build_nonce 1 0 c.sequence_no)
                (take (length c.hops - 1) c.hops)
                (drop 8 start)))
  unfolding wrap_forward
  wrap_forward-framed c c' cell raw h = elim (Bool-cases (c.sequence_no == u32_max)) [
    | inl top ↦ cc (rw top at h)
    | inr low ↦ elim (Bool-cases (cell.circuit_id == c.circuit_id)) [
      | inl same ↦ (
        λ e. cc (low, ==_true _ _ e),
        (==_iff _ _).0 same,
        sym (ok_inj _ _ (rw (low, same) at h)),
      )
      | inr other ↦ cc (rw (low, other) at h)
    ]
  ]

abbrev text : OnionCell → ℕ → List ℕ
text cell seq = text_of (serialize (numbered cell seq))

abbrev seal_text : Cipher → HopKeys → OnionCell → ℕ → List ℕ × List ℕ
seal_text z hop cell seq =
    z.seal hop.forward_aead_key (build_nonce 1 0 seq) (be32 seq) (text cell seq)

seal_into-framed :
    (z : Cipher) (hop : HopKeys) (cell : OnionCell) (seq : ℕ)
    → seal_into z (some hop) (build_nonce 1 0 seq) (serialize (numbered cell seq))
      ≡ framed cell.circuit_id seq ((seal_text z hop cell seq).0 ++ (seal_text z hop cell seq).1)
unfolding serialize
seal_into-framed z hop cell seq = refl

-- What goes out to the first relay.
wrapped :
    (z : Cipher) (c c' : OnionCircuit) (cell : OnionCell) (raw : List ℕ)
    (relays : List RelayCircuitHop) (exit : RelayCircuitHop)
    → c.hops ≡ hop_keys relays ++ exit.crypt ∷ []
    → wrap_forward z c cell ≡ ok (c', raw)
    → raw
      ≡ framed cell.circuit_id c.sequence_no (
          wrap_layers z (build_nonce 1 0 c.sequence_no) (hop_keys relays) (
            (seal_text z exit.crypt cell c.sequence_no).0
            ++ (seal_text z exit.crypt cell c.sequence_no).1))
wrapped z c c' cell raw relays exit hops w =
    (wrap_forward-framed z c c' cell raw w).2
    ∙ rw (
      hops,
      last_hop-snoc (hop_keys relays) exit.crypt,
      init-snoc (hop_keys relays) exit.crypt,
      seal_into-framed z exit.crypt cell c.sequence_no,
    )

pub tagged-IsCell :
    (cell : OnionCell) (seq : ℕ) (tag : List ℕ)
    → IsCell cell
    → seq < 4294967296
    → length tag ≡ 16
    → IsCell (tagged cell seq tag)
tagged-IsCell cell seq tag v n l = record {
  circuit_fits = v.circuit_fits;
  sequence_fits = n;
  stream_fits = v.stream_fits;
  len_fits = v.len_fits;
  key_size = v.key_size;
  mac_size = l;
  body_size = v.body_size;
}

-- The delivery of a cell, with the size of the seal's tag.
pub delivered :
    (z : Cipher) (c c' : OnionCircuit) (cell : OnionCell) (raw arrived : List ℕ)
    (relays : List RelayCircuitHop) (exit : RelayCircuitHop)
    → IsCipher z
    → IsCell cell
    → c.sequence_no ≤ u32_max
    → c.hops ≡ hop_keys relays ++ exit.crypt ∷ []
    → exit.circuit_id ≡ c.circuit_id
    → exit.expected_recv_seq ≤ c.sequence_no
    → c.sequence_no ≤ exit.expected_recv_seq + Replay.max_seq_gap
    → wrap_forward z c cell ≡ ok (c', raw)
    → forward_path z relays raw ≡ some arrived
    → (tag : List ℕ) × (length tag ≡ 16)
      × (peel_forward z exit arrived ≡ (
        record exit { expected_recv_seq = c.sequence_no + 1 },
        serialize (tagged cell c.sequence_no tag),
        ok (addressed cell.command cell.len),
      ))
delivered z c c' cell raw arrived relays exit law v top hops cid low gap w path =
    let seq = c.sequence_no in
    let out = wrap_forward-framed z c c' cell raw w in
    let tag = (seal_text z exit.crypt cell seq).1 in
    let n : seq < 4294967296 = omega arith in
    let same : exit.circuit_id ≡ cell.circuit_id = cid ∙ sym out.1 in
    let fits : exit.circuit_id < 4294967296 = omega arith in
    let size =
      law.tag_size exit.crypt.forward_aead_key (build_nonce 1 0 seq) (be32 seq) (text cell seq) in
    let sent = wrapped z c c' cell raw relays exit hops w in
    let here =
      path-layers z law relays cell.circuit_id seq _ arrived n
        (subst (λ x. forward_path z relays x ≡ some arrived) sent path) in
    let cut = length-text_of cell seq v in
    (
      tag,
      size,
      ap (peel_forward z exit)
            (here ∙ ap (λ x. framed x seq ((seal_text z exit.crypt cell seq).0 ++ tag)) (sym same))
          ∙ peel-exit z law exit seq (text cell seq) cut n fits
          ∙ ap (check_addressed z exit seq)
              (ap (λ x. framed x seq (text cell seq ++ tag)) same ∙ serialize-tagged cell seq tag v)
          ∙ check-Holds z exit seq _ (tagged cell seq tag)
              (serialize-Holds (tagged cell seq tag) (tagged-IsCell cell seq tag v n size))
              v.len_fits low gap (below_top seq top out.0),
    )

-- The client wraps a well-formed cell for a circuit whose hops are the relays and the exit. If
-- each relay hands the buffer on, that is, none of their keys opens it and the circuit identifier
-- fits, then the exit, which expects a number at most 1000 below, recovers the very cell, with
-- the circuit's sequence number and the seal's tag, reports its command and length, and moves
-- its expected number just past it.
pub wrap_forward-peel_forward :
    (z : Cipher) (c c' : OnionCircuit) (cell : OnionCell) (raw arrived : List ℕ)
    (relays : List RelayCircuitHop) (exit : RelayCircuitHop)
    → IsCipher z
    → IsCell cell
    → c.sequence_no ≤ u32_max
    → c.hops ≡ hop_keys relays ++ exit.crypt ∷ []
    → exit.circuit_id ≡ c.circuit_id
    → exit.expected_recv_seq ≤ c.sequence_no
    → c.sequence_no ≤ exit.expected_recv_seq + Replay.max_seq_gap
    → wrap_forward z c cell ≡ ok (c', raw)
    → forward_path z relays raw ≡ some arrived
    → (tag : List ℕ) × (peel_forward z exit arrived ≡ (
      record exit { expected_recv_seq = c.sequence_no + 1 },
      serialize (tagged cell c.sequence_no tag),
      ok (addressed cell.command cell.len),
    ))
wrap_forward-peel_forward z c c' cell raw arrived relays exit law v top hops cid low gap w path =
    let (tag, size, here) =
      delivered z c c' cell raw arrived relays exit law v top hops cid low gap w path in
    (tag, here)
