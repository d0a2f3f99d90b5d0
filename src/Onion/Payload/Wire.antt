-- ===== src/Onion/Payload/Wire.antt =====
-- Encoding and decoding of the EXTEND and RELAY payloads of src/onion/circuit.rs.
use anon_guard.Base.{
  ℕ, ◌+◌, ◌-◌, ◌%◌, ◌≤◌, ◌<◌, ◌≡◌, refl, sym, ap, ◌∙◌, Bool, true, List, [], ◌∷◌, ◌++◌, arith,
  ltb-false, leb-false, ==_true, length, length-append, take-length_append, drop-length_append,
  be16, from_be, from_be-be16, ok,
}
use mathlib.Core.List.{append_assoc, append-nil}
use anon_guard.Onion.Circuit.{max_hops}
use anon_guard.Onion.Cell.{slice}
use anon_guard.Onion.Payload.{
  Extend, extend_size, byte, mlkem768_public_is_canonical, encode_extend_payload, decode_fields,
  decode_extend_payload, encode_relay_target, decode_relay_target,
}

-- A field that stands between two parts of the whole.
slice_mid :
    (whole a b c : List ℕ) (from to : ℕ)
    → whole ≡ a ++ (b ++ c)
    → length a ≡ from
    → from + length b ≡ to
    → slice from to whole ≡ b
slice_mid whole a b c from to w h l =
    rw (w, drop-length_append a (b ++ c) from h) (take-length_append b c (to - from) (omega arith))

module _ (utf8 : List ℕ → Bool) where
  relay_target-fields :
      (payload host : List ℕ) (port n : ℕ)
      → byte 0 payload ≡ n
      → length payload ≡ 1 + n + 2
      → slice 1 (1 + n) payload ≡ host
      → from_be (slice (1 + n) (1 + n + 2) payload) ≡ port
      → utf8 host ≡ true
      → decode_relay_target utf8 payload ≡ ok (host, port)
  unfolding decode_relay_target
  relay_target-fields payload host port n b l h p u = rw (
    b,
    l,
    ltb-false (1 + n + 2) (1 + 2) (omega arith),
    ltb-false (1 + n + 2) (1 + n + 2) (omega arith),
    h,
    u,
    p,
  )

  -- A target that fits is encoded, and decoding it gives the host and the port back.
  pub decode_relay_target-encode_relay_target :
      (host : List ℕ) (port : ℕ)
      → length host ≤ 255
      → port < 65536
      → utf8 host ≡ true
      → (payload : List ℕ) × (encode_relay_target host port ≡ ok payload)
        × (decode_relay_target utf8 payload ≡ ok (host, port))
  unfolding encode_relay_target
  decode_relay_target-encode_relay_target host port l p u =
      let n = length host in
      let m : n % 256 ≡ n = omega arith in
      let payload = n % 256 ∷ (host ++ be16 port) in
      (
        payload,
        rw (ltb-false 255 n l) refl,
        relay_target-fields payload host port n (omega arith)
            (omega (arith, length-append host (be16 port)))
            (slice_mid payload (n % 256 ∷ []) host (be16 port) 1 (1 + n) refl refl refl)
            (ap from_be (
                slice_mid payload (n % 256 ∷ host) (be16 port) [] (1 + n) (1 + n + 2) refl
                  (omega arith) (omega arith))
              ∙ from_be-be16 port p)
            u,
      )

  extend-fields :
      (payload : List ℕ) (e : Extend) (n : ℕ)
      → n ≡ length e.host
      → slice 2 (2 + n) payload ≡ e.host
      → from_be (slice (2 + n) (2 + n + 2) payload) ≡ e.port
      → slice (2 + n + 2) (2 + n + 2 + 32) payload ≡ e.client_pub
      → slice (2 + n + 2 + 32) (2 + n + 2 + 32 + 1184) payload ≡ e.client_mlkem_pub
      → utf8 e.host ≡ true
      → mlkem768_public_is_canonical e.client_mlkem_pub ≡ true
      → decode_fields utf8 payload e.hop_index n ≡ ok e
  unfolding decode_fields
  extend-fields payload e n l h p k m u c =
      rw (h, u, m, c)
        (λ i. ok (record {
          host = e.host;
          port = p i;
          client_pub = k i;
          client_mlkem_pub = e.client_mlkem_pub;
          hop_index = e.hop_index;
        }))

  decode-sized :
      (payload : List ℕ) (hop n : ℕ)
      → byte 0 payload ≡ hop
      → byte 1 payload ≡ n
      → hop < max_hops
      → length payload ≡ extend_size n
      → decode_extend_payload utf8 payload ≡ decode_fields utf8 payload hop n
  unfolding decode_extend_payload
  decode-sized payload hop n b c h l = rw (
    l,
    b,
    c,
    ltb-false (extend_size n) (extend_size 0) (omega arith),
    leb-false max_hops hop h,
    ltb-false (extend_size n) (extend_size n) (omega arith),
    ==_true (extend_size n) (extend_size n) refl,
  )

  -- The fields of an EXTEND payload are in the ranges of their types, its host is text that fits,
  -- and its ML-KEM key is canonical.
  pub record IsExtend (e : Extend) : Type 0 where
    pub hop_fits : e.hop_index < max_hops
    pub host_fits : length e.host ≤ 255
    pub port_fits : e.port < 65536
    pub pub_size : length e.client_pub ≡ 32
    pub mlkem_size : length e.client_mlkem_pub ≡ 1184
    pub text : utf8 e.host ≡ true
    pub canonical : mlkem768_public_is_canonical e.client_mlkem_pub ≡ true

  module _ (e : Extend) (v : IsExtend e) where
    payload_of : List ℕ
    payload_of =
        e.hop_index % 256
        ∷ length e.host % 256
        ∷ (e.host ++ (be16 e.port ++ (e.client_pub ++ e.client_mlkem_pub)))

    encoded : encode_extend_payload e ≡ ok payload_of
    unfolding encode_extend_payload payload_of
    encoded =
        rw (leb-false max_hops e.hop_index v.hop_fits, ltb-false 255 (length e.host) v.host_fits)
          refl

    sized : length payload_of ≡ extend_size (length e.host)
    unfolding payload_of
    sized = omega (
      arith,
      length-append e.host (be16 e.port ++ (e.client_pub ++ e.client_mlkem_pub)),
      length-append e.client_pub e.client_mlkem_pub,
      v.pub_size,
      v.mlkem_size,
    )

    -- The three fields after the host, at their offsets.
    after_host :
        (n : ℕ)
        → n ≡ length e.host
        → (from_be (slice (2 + n) (2 + n + 2) payload_of) ≡ e.port)
          × (slice (2 + n + 2) (2 + n + 2 + 32) payload_of ≡ e.client_pub)
          × (slice (2 + n + 2 + 32) (2 + n + 2 + 32 + 1184) payload_of ≡ e.client_mlkem_pub)
    unfolding payload_of
    after_host n l =
        let start = e.hop_index % 256 ∷ length e.host % 256 ∷ e.host in
        let keys = e.client_pub ++ e.client_mlkem_pub in
        let near : start ++ (be16 e.port ++ keys) ≡ (start ++ be16 e.port) ++ keys =
          sym (append_assoc start (be16 e.port) keys) in
        let far : start ++ (be16 e.port ++ keys)
            ≡ ((start ++ be16 e.port) ++ e.client_pub) ++ (e.client_mlkem_pub ++ []) =
          near
          ∙ sym (append_assoc (start ++ be16 e.port) e.client_pub e.client_mlkem_pub)
          ∙ ap (λ (x : List ℕ). ((start ++ be16 e.port) ++ e.client_pub) ++ x)
              (sym (append-nil e.client_mlkem_pub)) in
        let two : length (start ++ be16 e.port) ≡ 2 + n + 2 =
          omega (arith, length-append start (be16 e.port)) in
        (
          ap from_be (
                slice_mid _ start (be16 e.port) keys (2 + n) (2 + n + 2) refl (omega arith)
                  (omega arith))
              ∙ from_be-be16 e.port v.port_fits,
          slice_mid _ (start ++ be16 e.port) e.client_pub e.client_mlkem_pub (2 + n + 2)
              (2 + n + 2 + 32) near two (omega (arith, v.pub_size)),
          slice_mid _ ((start ++ be16 e.port) ++ e.client_pub) e.client_mlkem_pub []
              (2 + n + 2 + 32) (2 + n + 2 + 32 + 1184) far
              (omega (arith, two, length-append (start ++ be16 e.port) e.client_pub, v.pub_size))
              (omega (arith, v.mlkem_size)),
        )

  -- A well-formed EXTEND payload is encoded, and decoding it gives all its fields back.
  pub decode_extend_payload-encode_extend_payload :
      (e : Extend)
      → IsExtend e
      → (payload : List ℕ) × (encode_extend_payload e ≡ ok payload)
        × (decode_extend_payload utf8 payload ≡ ok e)
  unfolding payload_of
  decode_extend_payload-encode_extend_payload e v =
      let n = length e.host in
      let (p, k, m) = after_host e v n refl in
      (
        payload_of e v,
        encoded e v,
        decode-sized (payload_of e v) e.hop_index n (omega (arith, v.hop_fits))
              (omega (arith, v.host_fits)) v.hop_fits (sized e v)
            ∙ extend-fields (payload_of e v) e n refl
                (slice_mid (payload_of e v) (e.hop_index % 256 ∷ n % 256 ∷ []) e.host
                  (be16 e.port ++ (e.client_pub ++ e.client_mlkem_pub)) 2 (2 + n) refl refl refl)
                p k m v.text v.canonical,
      )
