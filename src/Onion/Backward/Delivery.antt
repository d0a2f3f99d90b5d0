-- ===== src/Onion/Backward/Delivery.antt =====
-- A cell on its way from a relay to the client, in src/onion/circuit.rs.
use anon_guard.Base.{
  ℕ, zero, suc, ◌+◌, ◌*◌, ◌/◌, ◌^◌, ◌<◌, ◌≡◌, refl, sym, ap, ◌∙◌, subst, inl, inr, some, List, [],
  ◌∷◌, ◌++◌, arith, ◌==◌, Bool-cases, leb-false, ==_true, length, take, drop, get_elem?,
  take-length_append, drop-length_append, be32, from_be, from_be-be32, u32_max, Result, ok,
  Result-cases, ◌>>=◌,
}
use anon_guard.Onion.CircuitError.{CircuitError}
use anon_guard.Onion.Cell.{OnionCell, slice, serialize}
use anon_guard.Onion.Cell.Wire.{IsCell, parse-serialize}
use anon_guard.Onion.Circuit.{
  Cipher, IsCipher, HopKeys, OnionCircuit, RelayCircuitHop, build_nonce, pack_backward_seq, head_of,
  text_of, wrap_backward_relay, wrap_backward_originate,
}
use anon_guard.Onion.Circuit.Forward.{framed, hop_keys}
use anon_guard.Onion.Circuit.Delivery.{
  tagged, numbered, serialize-tagged, length-text_of, tagged-IsCell,
}
use anon_guard.Onion.Replay.{ReplayWindow, check_and_advance, bwd_counter_bits}
use anon_guard.Onion.Backward.{peel_layers, unwrap_at, unwrap_backward, advance, set_window}

ok_inj : (x y : List ℕ) → ◌≡◌ {A = Result (List ℕ) CircuitError} (ok x) (ok y) → x ≡ y
ok_inj x y h = cc

pack_iff :
    (hop counter seq : ℕ)
    → pack_backward_seq hop counter ≡ ok seq
    → (hop < 8) × (counter < 2 ^ bwd_counter_bits) × (seq ≡ hop * 2 ^ bwd_counter_bits + counter)
unfolding pack_backward_seq
pack_iff hop counter seq h = ground arith

same_text :
    (cell : OnionCell) (seq : ℕ) (tag : List ℕ)
    → framed cell.circuit_id seq (text_of (serialize cell) ++ tag)
      ≡ framed cell.circuit_id seq (text_of (serialize (numbered cell seq)) ++ tag)
unfolding serialize
same_text cell seq tag = refl

get-lt : (hs : List HopKeys) (i : ℕ) (h : HopKeys) → get_elem? hs i ≡ some h → i < length hs
get-lt [] i h e = cc
get-lt (x ∷ hs) zero h e = omega arith
get-lt (x ∷ hs) (suc i) h e = omega (arith, get-lt hs i h e)

module _ (z : Cipher) where
  -- The way back through the relays, the one next to the client first in the list.
  unfoldable pub backward_path : List RelayCircuitHop → List ℕ → Result (List ℕ) CircuitError
  backward_path [] raw = ok raw
  backward_path (r ∷ rs) raw = backward_path rs raw >>= wrap_backward_relay z r

  abbrev layers : List ℕ → List HopKeys → List ℕ → List ℕ
  layers nonce [] body = body
  layers nonce (h ∷ hs) body = z.keystream h.backward_key nonce (layers nonce hs body)

  peel-layers :
      IsCipher z
      → (nonce : List ℕ) (hs : List HopKeys) (body : List ℕ)
      → peel_layers z nonce hs (layers nonce hs body) ≡ body
  peel-layers law nonce [] body = refl
  peel-layers law nonce (h ∷ hs) body =
      rw (law.undone h.backward_key nonce (layers nonce hs body)) (peel-layers law nonce hs body)

  relay-out :
      (r : RelayCircuitHop) (raw out : List ℕ) (seq : ℕ)
      → from_be (slice 4 8 raw) ≡ seq
      → wrap_backward_relay z r raw ≡ ok out
      → out ≡ head_of raw ++ z.keystream r.crypt.backward_key (build_nonce 2 0 seq) (drop 8 raw)
  unfolding wrap_backward_relay
  relay-out r raw out seq e h =
      elim (Bool-cases (from_be (slice 4 8 raw) / 2 ^ bwd_counter_bits == r.hop_index)) [
        | inl own ↦ cc (rw own at h)
        | inr other ↦ sym (ok_inj _ _ (rw (other, e) at h))
      ]

  relay-framed :
      (r : RelayCircuitHop) (cid seq : ℕ) (body out : List ℕ)
      → seq < 4294967296
      → wrap_backward_relay z r (framed cid seq body) ≡ ok out
      → out ≡ framed cid seq (z.keystream r.crypt.backward_key (build_nonce 2 0 seq) body)
  relay-framed r cid seq body out n h =
      relay-out r (framed cid seq body) out seq (from_be-be32 seq n) h

  path-framed :
      (rs : List RelayCircuitHop) (cid seq : ℕ) (body out : List ℕ)
      → seq < 4294967296
      → backward_path rs (framed cid seq body) ≡ ok out
      → out ≡ framed cid seq (layers (build_nonce 2 0 seq) (hop_keys rs) body)
  unfolding backward_path
  path-framed [] cid seq body out n h = cc
  path-framed (r ∷ rs) cid seq body out n h =
      elim (Result-cases (backward_path rs (framed cid seq body))) [
        | inl (mid, e) ↦
            relay-framed r cid seq (layers (build_nonce 2 0 seq) (hop_keys rs) body) out n (
              subst (λ x. wrap_backward_relay z r x ≡ ok out) (path-framed rs cid seq body mid n e)
                (rw e at h))
        | inr (x, e) ↦ cc (rw e at h)
      ]

  -- What a relay sends out for a cell of its own.
  originate-framed :
      (r r' : RelayCircuitHop) (cell : OnionCell) (raw : List ℕ)
      → wrap_backward_originate z r (serialize cell) ≡ (r', ok raw)
      → (seq : ℕ) × (pack_backward_seq r.hop_index r.next_send_seq ≡ ok seq)
        × (raw ≡ (
            let sealed =
              z.seal r.crypt.backward_aead_key
                (build_nonce 2 0 seq)
                (be32 seq)
                (text_of (serialize cell)) in
            framed cell.circuit_id seq (sealed.0 ++ sealed.1)))
  unfolding wrap_backward_originate serialize
  originate-framed r r' cell raw h = elim (Bool-cases (r.next_send_seq == u32_max)) [
    | inl top ↦ cc (ap (λ x. x.1) (rw top at h))
    | inr low ↦ elim (Result-cases (pack_backward_seq r.hop_index r.next_send_seq)) [
      | inl (seq, e) ↦ (seq, e, sym (ok_inj _ _ (ap (λ x. x.1) (rw (low, e) at h))))
      | inr (x, e) ↦ cc (ap (λ x. x.1) (rw (low, e) at h))
    ]
  ]

  unwrap-at :
      (c : OnionCircuit) (raw : List ℕ) (seq : ℕ)
      → from_be (slice 0 4 raw) ≡ c.circuit_id
      → from_be (slice 4 8 raw) ≡ seq
      → seq / 2 ^ bwd_counter_bits < length c.hops
      → unwrap_backward z c raw
        ≡ unwrap_at z c seq
            (seq / 2 ^ bwd_counter_bits)
            (head_of raw
              ++ peel_layers z
                  (build_nonce 2 0 seq)
                  (take (seq / 2 ^ bwd_counter_bits) c.hops)
                  (drop 8 raw))
            (get_elem? c.hops (seq / 2 ^ bwd_counter_bits))
            (get_elem? c.bwd_replay_windows (seq / 2 ^ bwd_counter_bits))
  unfolding unwrap_backward
  unwrap-at c raw seq e f l =
      rw (f, ==_true _ _ e, leb-false (length c.hops) (seq / 2 ^ bwd_counter_bits) l) refl

  -- The seal of the sender opens, and what it holds is the cell.
  opened-cell :
      (c : OnionCircuit) (cell : OnionCell) (seq hop : ℕ) (tag : List ℕ) (w w' : ReplayWindow)
      → IsCell cell
      → seq < 4294967296
      → length tag ≡ 16
      → check_and_advance w seq ≡ ok w'
      → advance c hop
          (framed cell.circuit_id seq (text_of (serialize cell) ++ tag))
          (check_and_advance w seq)
        ≡ (
          record c { bwd_replay_windows = set_window hop w' c.bwd_replay_windows },
          serialize (tagged cell seq tag),
          ok (hop, tagged cell seq tag),
        )
  opened-cell c cell seq hop tag w w' v n l e =
      ap (λ x. advance c hop x (check_and_advance w seq))
        (same_text cell seq tag ∙ serialize-tagged cell seq tag v)
      ∙ rw (e, (parse-serialize (tagged cell seq tag) (tagged-IsCell cell seq tag v n l)).1) refl

  peeled-framed :
      IsCipher z
      → (hs : List HopKeys) (cid seq : ℕ) (body : List ℕ)
      → head_of (framed cid seq (layers (build_nonce 2 0 seq) hs body))
          ++ peel_layers z
              (build_nonce 2 0 seq)
              hs
              (drop 8 (framed cid seq (layers (build_nonce 2 0 seq) hs body)))
        ≡ framed cid seq body
  peeled-framed law hs cid seq body =
      ap (framed cid seq) (peel-layers law (build_nonce 2 0 seq) hs body)

  unwrap-opens :
      IsCipher z
      → (c : OnionCircuit) (cid seq hop : ℕ) (keys : HopKeys) (w : ReplayWindow) (text : List ℕ)
      → length text ≡ 8168
      → (let sealed = z.seal keys.backward_aead_key (build_nonce 2 0 seq) (be32 seq) text in
          unwrap_at z c seq hop (framed cid seq (sealed.0 ++ sealed.1)) (some keys) (some w)
          ≡ advance c hop (framed cid seq (text ++ sealed.1)) (check_and_advance w seq))
  unwrap-opens law c cid seq hop keys w text l =
      let sealed = z.seal keys.backward_aead_key (build_nonce 2 0 seq) (be32 seq) text in
      let size : length sealed.0 ≡ 8168 =
        law.sealed_size keys.backward_aead_key (build_nonce 2 0 seq) (be32 seq) text ∙ l in
      rw
        (
          take-length_append sealed.0 sealed.1 8168 size,
          drop-length_append sealed.0 sealed.1 8168 size,
          law.opens keys.backward_aead_key (build_nonce 2 0 seq) (be32 seq) text,
        )
        (ap (λ x. advance c hop (framed cid seq (text ++ x)) (check_and_advance w seq))
          (drop-length_append sealed.0 sealed.1 8168 size))

  -- What a relay with these keys sends under the number.
  abbrev sent_as : HopKeys → OnionCell → ℕ → List ℕ
  sent_as keys cell seq =
      let sealed =
        z.seal keys.backward_aead_key (build_nonce 2 0 seq) (be32 seq) (text_of (serialize cell)) in
      framed cell.circuit_id seq (sealed.0 ++ sealed.1)

  abbrev sent_body : HopKeys → OnionCell → ℕ → List ℕ
  sent_body keys cell seq =
      let sealed =
        z.seal keys.backward_aead_key (build_nonce 2 0 seq) (be32 seq) (text_of (serialize cell)) in
      sealed.0 ++ sealed.1

  module _ (law : IsCipher z) (c : OnionCircuit) (keys : HopKeys) (hop seq : ℕ)
      (relays : List RelayCircuitHop) (cell : OnionCell) where
    -- The client peels what arrives down to what was sent.
    unwrap-sent :
        (arrived : List ℕ) (w : ReplayWindow)
        → cell.circuit_id < 4294967296
        → cell.circuit_id ≡ c.circuit_id
        → seq < 4294967296
        → seq / 2 ^ bwd_counter_bits ≡ hop
        → take hop c.hops ≡ hop_keys relays
        → get_elem? c.hops hop ≡ some keys
        → get_elem? c.bwd_replay_windows hop ≡ some w
        → backward_path relays (sent_as keys cell seq) ≡ ok arrived
        → unwrap_backward z c arrived
          ≡ unwrap_at z c seq hop (sent_as keys cell seq) (some keys) (some w)
    unwrap-sent arrived w fits cid n at_hop hops own window path =
        let body = layers (build_nonce 2 0 seq) (hop_keys relays) (sent_body keys cell seq) in
        let here =
          path-framed relays cell.circuit_id seq (sent_body keys cell seq) arrived n path in
        ap (unwrap_backward z c) here
        ∙ unwrap-at c (framed cell.circuit_id seq body) seq
            (from_be-be32 cell.circuit_id fits ∙ cid) (from_be-be32 seq n)
            (rw at_hop (get-lt c.hops hop keys own))
        ∙ rw (at_hop, hops, own, window)
            (ap (λ x. unwrap_at z c seq hop x (some keys) (some w))
              (peeled-framed law (hop_keys relays) cell.circuit_id seq (sent_body keys cell seq)))

  -- A relay sends a well-formed cell of its own towards the client, and the relays before it pass
  -- it on. If they and it are the hops of the client's circuit, and the replay window of its hop
  -- takes the number, then the client recovers the very cell, with the number and the seal's tag,
  -- names the hop that sent it, and advances the window of that hop only.
  pub unwrap_backward-originate :
      (c : OnionCircuit) (r r' : RelayCircuitHop) (relays : List RelayCircuitHop) (cell : OnionCell)
      (raw arrived : List ℕ) (w w' : ReplayWindow)
      → IsCipher z
      → IsCell cell
      → cell.circuit_id ≡ c.circuit_id
      → take r.hop_index c.hops ≡ hop_keys relays
      → get_elem? c.hops r.hop_index ≡ some r.crypt
      → get_elem? c.bwd_replay_windows r.hop_index ≡ some w
      → check_and_advance w (r.hop_index * 2 ^ bwd_counter_bits + r.next_send_seq) ≡ ok w'
      → wrap_backward_originate z r (serialize cell) ≡ (r', ok raw)
      → backward_path relays raw ≡ ok arrived
      → (tag : List ℕ) × (let seq = r.hop_index * 2 ^ bwd_counter_bits + r.next_send_seq in
          unwrap_backward z c arrived ≡ (
            record c { bwd_replay_windows = set_window r.hop_index w' c.bwd_replay_windows },
            serialize (tagged cell seq tag),
            ok (r.hop_index, tagged cell seq tag),
          ))
  unwrap_backward-originate c r r' relays cell raw arrived w w' law v cid hops own window check sent
        path =
      let (seq, packed, out) = originate-framed r r' cell raw sent in
      let (small, low, number) = pack_iff r.hop_index r.next_send_seq seq packed in
      let n : seq < 4294967296 = omega arith in
      let at_hop : seq / 2 ^ bwd_counter_bits ≡ r.hop_index = omega arith in
      let tag =
        (z.seal r.crypt.backward_aead_key (build_nonce 2 0 seq) (be32 seq)
          (text_of (serialize cell))).1 in
      let size =
        law.tag_size r.crypt.backward_aead_key (build_nonce 2 0 seq) (be32 seq)
          (text_of (serialize cell)) in
      (
        tag,
        subst
            (λ s. unwrap_backward z c arrived ≡ (
              record c { bwd_replay_windows = set_window r.hop_index w' c.bwd_replay_windows },
              serialize (tagged cell s tag),
              ok (r.hop_index, tagged cell s tag),
            ))
            number
            (unwrap-sent law c r.crypt r.hop_index seq relays cell arrived w v.circuit_fits cid n
                at_hop hops own window (subst (λ x. backward_path relays x ≡ ok arrived) out path)
              ∙ unwrap-opens law c cell.circuit_id seq r.hop_index r.crypt w
                  (text_of (serialize cell)) (length-text_of cell cell.sequence_no v)
              ∙ opened-cell c cell seq r.hop_index tag w w' v n size (rw number check)),
      )
