-- ===== src/Crypto/Identity/Proof.antt =====
-- Signing and verifying with the keys of src/crypto/identity.rs.
use anon_guard.Base.{
  ℕ, ◌≤◌, ◌≡◌, refl, inl, inr, true, List, ◌++◌, arith, ltb-false, ==_true, length, length-append,
  take-length_append, drop-length_append, bytes_eq_refl, ok, Result-cases,
}
use anon_guard.Crypto.Identity.{
  Suite, IsSuite, magic, max_message, HybridPublicKey, HybridSigningKey, decode, fingerprint,
  transcript, verify, verify_parts, verify_pinned, public_key_of, hybrid_sign, public_key,
  network_purpose, verify_strict, sign, verifying_key,
}

module _ (z : Suite) where
  decode_made :
      (e p : List ℕ)
      → length e ≡ 32
      → length p ≡ 1952
      → z.ed_key e ≡ true
      → decode z (magic ++ (e ++ p)) ≡ ok (record { encoded = magic ++ (e ++ p) })
  unfolding decode
  decode_made e p h l g = rw (
    ==_true (length (magic ++ (e ++ p))) 1992 (omega (arith, length-append e p)),
    take-length_append e p 32 h,
    g,
  )

  public_key_made :
      (key : HybridPublicKey) (proof : List ℕ)
      → length key.encoded ≡ 1992
      → length proof ≡ 3381
      → public_key z (key.encoded ++ proof) ≡ decode z key.encoded
  unfolding public_key
  public_key_made key proof h l = rw (
    ==_true (length (key.encoded ++ proof)) 5373 (omega (arith, length-append key.encoded proof)),
    take-length_append key.encoded proof 1992 h,
  )

  -- A transcript that both halves sign is verified.
  verify_made :
      (e p f q purpose message t : List ℕ)
      → length e ≡ 32
      → length f ≡ 64
      → length q ≡ 3309
      → transcript z (record { encoded = magic ++ (e ++ p) }) purpose message ≡ ok t
      → z.ed_verify e t f ≡ true
      → z.pq_signature q ≡ true
      → z.pq_verify p t q ≡ true
      → verify z (record { encoded = magic ++ (e ++ p) }) purpose message (magic ++ (f ++ q))
        ≡ ok tt
  unfolding verify verify_parts
  verify_made e p f q purpose message t h l m g ed good pq = rw (
    ==_true (length (magic ++ (f ++ q))) 3381 (omega (arith, length-append f q)),
    g,
    take-length_append e p 32 h,
    drop-length_append e p 32 h,
    take-length_append f q 64 l,
    drop-length_append f q 64 l,
    good,
    ed,
    pq,
  )

  -- The transcript of a message that is not too long.
  transcript_short :
      (key : HybridPublicKey) (message : List ℕ)
      → length message ≤ max_message
      → (t : List ℕ) × (transcript z key network_purpose message ≡ ok t)
  unfolding transcript
  transcript_short key message h = elim (Result-cases (transcript z key network_purpose message)) [
    | inl found ↦ found
    | inr (x, e) ↦ cc (rw (ltb-false max_message (length message) h) at e)
  ]

  module _ (law : IsSuite z) (k : HybridSigningKey) (message : List ℕ) where
    key_size : length (public_key_of z k).encoded ≡ 1992
    unfolding public_key_of
    key_size = omega (
      arith,
      length-append (z.ed_public k.classical) (z.pq_public k.post_quantum),
      law.ed_public_size k.classical,
      law.pq_public_size k.post_quantum,
    )

    decodes : decode z (public_key_of z k).encoded ≡ ok (public_key_of z k)
    unfolding public_key_of
    decodes =
        decode_made (z.ed_public k.classical) (z.pq_public k.post_quantum)
          (law.ed_public_size k.classical) (law.pq_public_size k.post_quantum)
          (law.ed_public_good k.classical)

    signed_verifies :
        (t : List ℕ)
        → transcript z (public_key_of z k) network_purpose message ≡ ok t
        → verify z
            (public_key_of z k)
            network_purpose
            message
            (magic ++ (z.ed_sign k.classical t ++ z.pq_sign k.post_quantum t))
          ≡ ok tt
    unfolding public_key_of
    signed_verifies t e =
        verify_made (z.ed_public k.classical) (z.pq_public k.post_quantum) (z.ed_sign k.classical t)
          (z.pq_sign k.post_quantum t) network_purpose message t (law.ed_public_size k.classical)
          (law.ed_size k.classical t) (law.pq_size k.post_quantum t) e
          (law.ed_verifies k.classical t) (law.pq_signature_good k.post_quantum t)
          (law.pq_verifies k.post_quantum t)

    pinned_verifies :
        (proof : List ℕ)
        → length proof ≡ 3381
        → verify z (public_key_of z k) network_purpose message proof ≡ ok tt
        → verify_strict z (verifying_key z k) message ((public_key_of z k).encoded ++ proof) ≡ ok tt
    unfolding verify_strict verify_pinned verifying_key
    pinned_verifies proof size e = rw (
      public_key_made (public_key_of z k) proof key_size size,
      decodes,
      bytes_eq_refl (fingerprint z (public_key_of z k)),
      drop-length_append (public_key_of z k).encoded proof 1992 key_size,
      e,
    )

    -- A key signs every message of up to 16 MiB, and its pin verifies the proof.
    pub sign-verify_strict :
        length message ≤ max_message
        → (proof : List ℕ) × (sign z k message ≡ ok proof)
          × (verify_strict z (verifying_key z k) message proof ≡ ok tt)
    unfolding sign hybrid_sign
    sign-verify_strict h =
        let (t, e) = transcript_short (public_key_of z k) message h in
        let f = z.ed_sign k.classical t in
        let q = z.pq_sign k.post_quantum t in
        let key = (public_key_of z k).encoded in
        let size : length (magic ++ (f ++ q)) ≡ 3381 =
          omega
            (arith, length-append f q, law.ed_size k.classical t, law.pq_size k.post_quantum t) in
        (
          key ++ (magic ++ (f ++ q)),
          rw e refl,
          pinned_verifies (magic ++ (f ++ q)) size (signed_verifies t e),
        )
