-- ===== src/Onion/Session/Secured/Crossing.antt =====
-- A cell of a session of src/onion/session.rs on its way from the client to the exit.

use anon_guard.Base.{
  ℕ, ◌+◌, ◌-◌, ◌%◌, ◌≤◌, ◌<◌, ◌≡◌, refl, sym, ap, ◌∙◌, subst, inl, inr, some, List, [], ◌∷◌, ◌++◌,
  arith, ltb, ◌==◌, Bool-cases, length, take, take-length_append, replicate, u32_max, Result,
  Result-cases, ok, err,
}
use anon_guard.Onion.Cell.{CellCommand, OnionCell, CellError, new, payload_size}
use anon_guard.Onion.Cell.Wire.{new-IsCell, parse-serialize}
use anon_guard.Onion.CircuitError.{CircuitError}
use anon_guard.Onion.Replay
use anon_guard.Onion.Circuit.{Cipher, IsCipher, OnionCircuit, RelayCircuitHop, wrap_forward}
use anon_guard.Onion.Circuit.Forward.{hop_keys, forward_path}
use anon_guard.Onion.Circuit.Delivery.{tagged, tagged-IsCell, delivered}
use anon_guard.Onion.Session.Secured.{
  Crypto, client, exit, wrapped, outgoing, parsed, peeled, incoming,
}

-- What a cell made by `new` carries.
record Carries (circuit_id : ℕ) (command : CellCommand) (id : ℕ) (body : List ℕ) (c : OnionCell)
    : Type 0 where
  pub circuit : c.circuit_id ≡ circuit_id
  pub kind : c.command ≡ command
  pub stream : c.stream_id ≡ id
  pub content : take c.len c.payload ≡ body

cell_inj : (c d : OnionCell) → ◌≡◌ {A = Result OnionCell CellError} (ok c) (ok d) → c ≡ d
cell_inj c d h = cc

new-Carries :
    (random : List ℕ) (circuit_id : ℕ) (command : CellCommand) (id : ℕ) (body : List ℕ)
    (c : OnionCell)
    → new random circuit_id 0 command id body ≡ ok c
    → Carries circuit_id command id body c
unfolding new
new-Carries random circuit_id command id body c h =
    elim (Bool-cases (ltb payload_size (length body))) [
      | inl long ↦ cc (rw long at h)
      | inr short ↦
          subst (Carries circuit_id command id body) (cell_inj _ c (rw short at h)) (record {
            circuit = refl;
            kind = refl;
            stream = refl;
            content =
                take-length_append body (replicate (payload_size - length body) 0)
                  (length body % 65536) (ground arith);
          })
    ]

circuit_inj :
    (c d : OnionCircuit) (v w : List ℕ)
    → ◌≡◌ {A = Result (OnionCircuit × List ℕ) CircuitError} (ok (c, v)) (ok (d, w))
    → c ≡ d
circuit_inj c d v w h = cc

module _ (z : Cipher) where
  wrapped-inj :
      (r : Result (OnionCircuit × List ℕ) CircuitError) (k : Crypto) (wire : List ℕ)
      → wrapped z r ≡ ok (k, wire)
      → (c : OnionCircuit) × (r ≡ ok (c, wire)) × (k ≡ client c)
  wrapped-inj (err e) k wire h = cc
  wrapped-inj (ok (c, w)) k wire h =
      let same : ◌≡◌ {A = Crypto × List ℕ} (client c, w) (k, wire) = cc in
      (c, ap (λ x. ok (c, x)) (ap (λ x. x.1) same), sym (ap (λ x. x.0) same))

  -- Wrapping a cell moves the circuit to its next number.
  wrap_forward-next :
      (c c' : OnionCircuit) (cell : OnionCell) (raw : List ℕ)
      → wrap_forward z c cell ≡ ok (c', raw)
      → c' ≡ record c { sequence_no = c.sequence_no + 1 }
  unfolding wrap_forward
  wrap_forward-next c c' cell raw h = elim (Bool-cases (c.sequence_no == u32_max)) [
    | inl top ↦ cc (rw top at h)
    | inr low ↦ elim (Bool-cases (cell.circuit_id == c.circuit_id)) [
      | inl same ↦ sym (circuit_inj _ c' _ raw (rw (low, same) at h))
      | inr other ↦ cc (rw (low, other) at h)
    ]
  ]

  -- A command that the client sends on a session is what the exit reads: with the ciphers'
  -- documented behaviour, a circuit of these relays and this exit, none of whose relays opens the
  -- cell, and an exit at most 1000 cells behind, the exit gets a cell with the command, the
  -- stream and exactly the data. The client's next number and the one that the exit expects are
  -- then both the one after the number of the cell.
  pub outgoing-incoming :
      (c : OnionCircuit) (k : Crypto) (r : RelayCircuitHop) (relays : List RelayCircuitHop)
      (random : List ℕ) (command : CellCommand) (id : ℕ) (body wire arrived : List ℕ)
      → IsCipher z
      → c.circuit_id < 4294967296
      → c.sequence_no ≤ u32_max
      → id < 65536
      → length random ≡ 32
      → c.hops ≡ hop_keys relays ++ r.crypt ∷ []
      → r.circuit_id ≡ c.circuit_id
      → r.expected_recv_seq ≤ c.sequence_no
      → c.sequence_no ≤ r.expected_recv_seq + Replay.max_seq_gap
      → outgoing z (client c) random command id body ≡ ok (k, wire)
      → forward_path z relays wire ≡ some arrived
      → (cell : OnionCell) × (incoming z (exit r) arrived
          ≡ ok (exit (record r { expected_recv_seq = c.sequence_no + 1 }), cell))
        × (cell.command ≡ command)
        × (cell.stream_id ≡ id)
        × (take cell.len cell.payload ≡ body)
        × (k ≡ client (record c { sequence_no = c.sequence_no + 1 }))
  unfolding outgoing incoming
  outgoing-incoming c k r relays random command id body wire arrived law cid top sid rand hops same
        low gap sent path =
      elim (Result-cases (new random c.circuit_id 0 command id body)) [
        | inr (e, bad) ↦ cc (rw bad at sent)
        | inl (cell, good) ↦
            let has = new-Carries random c.circuit_id command id body cell good in
            let v =
              new-IsCell random c.circuit_id 0 command id body cell cid (omega arith) sid rand
                good in
            let (c', w, state) = wrapped-inj (wrap_forward z c cell) k wire (rw good at sent) in
            let (tag, size, here) =
              delivered z c c' cell wire arrived relays r law v top hops same low gap w path in
            let t = tagged cell c.sequence_no tag in
            let whole =
              (parse-serialize t (tagged-IsCell cell c.sequence_no tag v (omega arith) size)).1 in
            (
              t,
              ap (peeled z) here
                  ∙ ap (parsed z (record r { expected_recv_seq = c.sequence_no + 1 })) whole,
              has.kind,
              has.stream,
              has.content,
              state ∙ ap client (wrap_forward-next c c' cell wire w),
            )
      ]
