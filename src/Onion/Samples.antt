-- ===== src/Onion/Samples.antt =====
-- A sample cipher and a sample circuit of one relay and an exit, for tests of src/onion.
use anon_guard.Base.{
  ℕ, zero, suc, ◌≡◌, refl, ap, none, some, List, [], ◌∷◌, ◌++◌, map, arith, ◌==◌, if◌then◌else◌,
  take, replicate, length, length-append, length-take, bytes_eq, bytes_eq_refl,
}
use anon_guard.Onion.Circuit.{
  Cipher, IsCipher, HopKeys, OnionCircuit, RelayCircuitHop, new_relay_hop,
}
use anon_guard.Onion.Replay

-- A cipher whose tag is the key, and whose stream swaps the bytes 0 and 1.
abbrev swap : ℕ → ℕ
swap b = if b == 0 then 1 else if b == 1 then 0 else b

abbrev key_tag : List ℕ → List ℕ
key_tag k = take 16 (k ++ replicate 16 0)

abbrev pub swapping : Cipher
swapping = record {
  seal = λ k n h t. (t, key_tag k);
  open_sealed = λ k n h t tag. if bytes_eq tag (key_tag k) then some t else none;
  keystream = λ k n t. map swap t;
}

swap-twice : (t : List ℕ) → map swap (map swap t) ≡ t
swap-twice [] = refl
swap-twice (b ∷ t) = let e : swap (swap b) ≡ b = ground arith in λ i. e i ∷ swap-twice t i

length-map-swap : (t : List ℕ) → length (map swap t) ≡ length t
length-map-swap [] = refl
length-map-swap (b ∷ t) = ap suc (length-map-swap t)

pub swapping-IsCipher : IsCipher swapping
swapping-IsCipher = record {
  opens = λ k n h t. rw (bytes_eq_refl (key_tag k));
  sealed_size = λ k n h t. refl;
  tag_size = λ k n h t.
      omega (arith, length-take 16 (k ++ replicate 16 0), length-append k (replicate 16 (zero)));
  undone = λ k n t. swap-twice t;
  stream_size = λ k n t. length-map-swap t;
}

abbrev pub keys : ℕ → HopKeys
keys a = record {
  forward_key = a ∷ [];
  backward_key = a ∷ [];
  forward_mac = a ∷ [];
  backward_mac = a ∷ [];
  forward_aead_key = a ∷ [];
  backward_aead_key = a ∷ [];
}

-- One relay and the exit.
abbrev pub middle : RelayCircuitHop
middle = new_relay_hop 7 (keys 1) 0

abbrev pub exit : RelayCircuitHop
exit = new_relay_hop 7 (keys 2) 1

abbrev pub client : OnionCircuit
client = record {
  circuit_id = 7;
  hops = keys 1 ∷ keys 2 ∷ [];
  sequence_no = 3;
  bwd_replay_windows = Replay.fresh ∷ Replay.fresh ∷ [];
}
