-- ===== src/Onion/Circuit/Forward.antt =====
-- The way of a cell from the client to the exit, in src/onion/circuit.rs: what the layers of
-- `wrap_forward` and the hops of `peel_forward` do together.
use anon_guard.Base.{
  ℕ, ◌-◌, ◌<◌, ◌≡◌, refl, sym, ◌∙◌, subst, inl, inr, Option, none, some, List, [], ◌∷◌, ◌++◌, map,
  arith, ◌==◌, Bool-cases, Option-cases, ==_true, some_inj, length, take, drop, length-append,
  take-length_append, drop-length_append, be32, from_be, from_be-be32, ok, err,
}
use anon_guard.Onion.Cell.{onion_cell_size, slice}
use anon_guard.Onion.Circuit.{
  Cipher, IsCipher, HopKeys, build_nonce, RelayCircuitHop, addressed, forward_downstream, last_hop,
  head_of, text_of, tag_of, wrap_layers, Peeled, accept_addressed, check_addressed, peel_opened,
  peel_forward,
}

-- A buffer with its clear header.
abbrev pub framed : ℕ → ℕ → List ℕ → List ℕ
framed cid seq body = be32 cid ++ (be32 seq ++ body)

abbrev pub hop_keys : List RelayCircuitHop → List HopKeys
hop_keys = map λ r. r.crypt

pub last_hop-snoc : (ks : List HopKeys) (k : HopKeys) → last_hop (ks ++ k ∷ []) ≡ some k
last_hop-snoc [] k = refl
last_hop-snoc (a ∷ []) k = refl
last_hop-snoc (a ∷ b ∷ ks) k = last_hop-snoc (b ∷ ks) k

pub init-snoc :
    (ks : List HopKeys) (k : HopKeys) → take (length (ks ++ k ∷ []) - 1) (ks ++ k ∷ []) ≡ ks
init-snoc ks k = take-length_append ks (k ∷ []) _ (omega (arith, length-append ks (k ∷ [])))

module _ (z : Cipher) where
  abbrev handed_on : Peeled z → Option (List ℕ)
  handed_on (r, raw, ok forward_downstream) = some raw
  handed_on (r, raw, ok (addressed command len)) = none
  handed_on (r, raw, err e) = none

  -- The relays of the way each hand the buffer on; `none` if one of them does not.
  unfoldable pub forward_path : List RelayCircuitHop → List ℕ → Option (List ℕ)
  forward_path [] raw = some raw
  forward_path (r ∷ rs) raw = elim (handed_on (peel_forward z r raw)) [
    | none ↦ none
    | some raw' ↦ forward_path rs raw'
  ]

  check_addressed-not_handed_on :
      (r : RelayCircuitHop) (seq : ℕ) (raw : List ℕ)
      → handed_on (check_addressed z r seq raw) ≡ none
  unfolding check_addressed accept_addressed
  check_addressed-not_handed_on r seq raw = ground arith

  forward_path-nil : (raw : List ℕ) → forward_path [] raw ≡ some raw
  unfolding forward_path
  forward_path-nil raw = refl

  forward_path-some :
      (r : RelayCircuitHop) (rs : List RelayCircuitHop) (raw raw' : List ℕ)
      → handed_on (peel_forward z r raw) ≡ some raw'
      → forward_path (r ∷ rs) raw ≡ forward_path rs raw'
  unfolding forward_path
  forward_path-some r rs raw raw' e = rw (e, forward_path)

  forward_path-none :
      (r : RelayCircuitHop) (rs : List RelayCircuitHop) (raw : List ℕ)
      → handed_on (peel_forward z r raw) ≡ none
      → forward_path (r ∷ rs) raw ≡ none
  unfolding forward_path
  forward_path-none r rs raw e = rw (e, forward_path)

  opened-handed_on :
      (r : RelayCircuitHop) (seq : ℕ) (nonce raw raw' : List ℕ) (o : Option (List ℕ))
      → handed_on (peel_opened z r seq nonce raw o) ≡ some raw'
      → raw' ≡ head_of raw ++ z.keystream r.crypt.forward_key nonce (drop 8 raw)
  opened-handed_on r seq nonce raw raw' none h = cc
  opened-handed_on r seq nonce raw raw' (some text) h =
      cc (check_addressed-not_handed_on r seq (head_of raw ++ (text ++ tag_of raw)))

  -- A relay that hands a buffer on has taken its own layer off.
  peel-handed_on :
      (r : RelayCircuitHop) (raw raw' : List ℕ)
      → handed_on (peel_forward z r raw) ≡ some raw'
      → raw'
        ≡ head_of raw
          ++ z.keystream r.crypt.forward_key
              (build_nonce 1 0 (from_be (slice 4 8 raw)))
              (drop 8 raw)
  unfolding peel_forward
  peel-handed_on r raw raw' h = elim (Bool-cases (from_be (slice 0 4 raw) == r.circuit_id)) [
    | inl same ↦ opened-handed_on r _ _ raw raw' _ (rw same at h)
    | inr other ↦ cc (rw other at h)
  ]

  -- A relay whose key opens the buffer goes on to the checks of an addressed cell.
  peel-opens :
      (r : RelayCircuitHop) (raw text : List ℕ) (seq : ℕ)
      → from_be (slice 0 4 raw) ≡ r.circuit_id
      → from_be (slice 4 8 raw) ≡ seq
      → z.open_sealed r.crypt.forward_aead_key
          (build_nonce 1 0 seq)
          (drop 4 (head_of raw))
          (text_of raw)
          (tag_of raw)
        ≡ some text
      → peel_forward z r raw ≡ check_addressed z r seq (head_of raw ++ (text ++ tag_of raw))
  unfolding peel_forward
  peel-opens r raw text seq e s o = rw (s, o, ==_true _ _ e)

module _ (z : Cipher) (law : IsCipher z) where
  peel-layer :
      (r : RelayCircuitHop) (cid seq : ℕ) (body raw : List ℕ)
      → seq < 4294967296
      → handed_on z (
          peel_forward z r
            (framed cid seq (z.keystream r.crypt.forward_key (build_nonce 1 0 seq) body)))
        ≡ some raw
      → raw ≡ framed cid seq body
  peel-layer r cid seq body raw n h =
      peel-handed_on z r _ raw h ∙ rw (from_be-be32 seq n, law.undone r.crypt.forward_key _ body)

  pub path-layers :
      (rs : List RelayCircuitHop) (cid seq : ℕ) (body raw : List ℕ)
      → seq < 4294967296
      → forward_path z rs (framed cid seq (wrap_layers z (build_nonce 1 0 seq) (hop_keys rs) body))
        ≡ some raw
      → raw ≡ framed cid seq body
  path-layers [] cid seq body raw n h = sym (some_inj _ raw (sym (forward_path-nil z _) ∙ h))
  path-layers (r ∷ rs) cid seq body raw n h =
      let start = framed cid seq (wrap_layers z (build_nonce 1 0 seq) (hop_keys (r ∷ rs)) body) in
      elim (Option-cases (handed_on z (peel_forward z r start))) [
        | inl e ↦ cc (forward_path-none z r rs start e)
        | inr (raw', e) ↦ path-layers rs cid seq body raw n (
            subst (λ x. forward_path z rs x ≡ some raw) (peel-layer r cid seq _ raw' n e)
              (sym (forward_path-some z r rs start raw' e) ∙ h))
      ]

  module _ (r : RelayCircuitHop) (seq : ℕ) (text : List ℕ)
      (l : length text ≡ onion_cell_size - 24) where
    abbrev sealed : List ℕ × List ℕ
    sealed = z.seal r.crypt.forward_aead_key (build_nonce 1 0 seq) (be32 seq) text

    sealed_text : take (onion_cell_size - 24) (sealed.0 ++ sealed.1) ≡ sealed.0
    sealed_text = take-length_append sealed.0 sealed.1 _ (law.sealed_size _ _ _ text ∙ l)

    sealed_tag : drop (onion_cell_size - 24) (sealed.0 ++ sealed.1) ≡ sealed.1
    sealed_tag = drop-length_append sealed.0 sealed.1 _ (law.sealed_size _ _ _ text ∙ l)

    pub peel-exit :
        seq < 4294967296
        → r.circuit_id < 4294967296
        → peel_forward z r (framed r.circuit_id seq (sealed.0 ++ sealed.1))
          ≡ check_addressed z r seq (framed r.circuit_id seq (text ++ sealed.1))
    peel-exit n m =
        peel-opens z r (framed r.circuit_id seq (sealed.0 ++ sealed.1)) text seq
          (from_be-be32 r.circuit_id m) (from_be-be32 seq n)
          (rw (sealed_text, sealed_tag) (law.opens _ _ _ text))
        ∙ rw sealed_tag
