-- ===== src/Morphing/Padding.antt =====
-- `PacketPadder` of src/morphing/padding.rs: data is framed by its length and filled with zeros up
-- to a multiple of a block. Sizes stand for `usize` without its upper bound, which no buffer in
-- memory comes near.
use anon_guard.Base.{
  ℕ, ◌∙◌, ap, ◌+◌, ◌-◌, ◌%◌, ◌≤◌, ◌<◌, ◌≡◌, refl, sym, List, ◌++◌, arith, ltb, ltb-false, ◌==◌,
  if◌then◌else◌, be32, from_be, from_be-be32, take, drop, length, replicate, length-append,
  length-replicate, take-length_append, Result, ok, err,
}
use native.Mathlib.Nat.{add-mod-mod, mod-add-mod, mod_self, mod-lt}

pub record PacketPadder : Type 0 where
  pub block_size : ℕ

pub data UnpadError : Type 0 where
  too_short truncated : UnpadError

unfoldable pub new : ℕ → PacketPadder
new block_size = record { block_size = if block_size == 0 then 512 else block_size }

-- `resize` of a shorter buffer.
abbrev resize : ℕ → ℕ → List ℕ → List ℕ
resize n fill out = out ++ replicate (n - length out) fill

abbrev final_len : PacketPadder → List ℕ → ℕ
final_len p contents =
    let total_needed = length contents + 4 in
    let padding_needed = (p.block_size - total_needed % p.block_size) % p.block_size in
    total_needed + padding_needed

unfoldable pub pad : PacketPadder → List ℕ → List ℕ
pad p contents = resize (final_len p contents) 0 (be32 (length contents) ++ contents)

unfoldable pub unpad : PacketPadder → List ℕ → Result (List ℕ) UnpadError
unpad p padded =
    if ltb (length padded) 4
    then err too_short
    else let len = from_be (take 4 padded) in
      if ltb (length padded) (4 + len) then err truncated else ok (take len (drop 4 padded))

rounded-mod : (t b : ℕ) → 0 < b → (t + (b - t % b) % b) % b ≡ 0
rounded-mod t b h =
    let whole : t % b + (b - t % b) ≡ b = omega (arith, mod-lt t h) in
    add-mod-mod t (b - t % b) b
    ∙ sym (mod-add-mod t b (b - t % b))
    ∙ ap (λ n. n % b) whole
    ∙ mod_self b

new-positive : (n : ℕ) → 0 < (new n).block_size
unfolding new
new-positive n = ground arith

length-pad : (p : PacketPadder) (contents : List ℕ) → length (pad p contents) ≡ final_len p contents
unfolding pad
length-pad p contents =
    let framed = be32 (length contents) ++ contents in
    let fill : ℕ = 0 in
    length-append framed (replicate (final_len p contents - length framed) fill)
    ∙ omega (arith, length-replicate (final_len p contents - length framed) fill)

unpad-fields :
    (p : PacketPadder) (padded contents : List ℕ)
    → 4 + length contents ≤ length padded
    → from_be (take 4 padded) ≡ length contents
    → take (length contents) (drop 4 padded) ≡ contents
    → unpad p padded ≡ ok contents
unfolding unpad
unpad-fields p padded contents h e f = rw (
  e,
  ltb-false (length padded) 4 (omega arith),
  ltb-false (length padded) (4 + length contents) h,
  f,
)

unpad-parts :
    (p : PacketPadder) (contents fill : List ℕ)
    → length contents < 4294967296
    → unpad p ((be32 (length contents) ++ contents) ++ fill) ≡ ok contents
unpad-parts p contents fill h =
    unpad-fields p ((be32 (length contents) ++ contents) ++ fill) contents
      (omega (arith, length-append contents fill)) (from_be-be32 (length contents) h)
      (take-length_append contents fill (length contents) refl)

-- Padding any data shorter than 4 GiB, with any block size, gives a whole number of blocks, with
-- less than one block added to the data and its length, and taking the padding off gives the data.
pub unpad-pad :
    (block_size : ℕ) (contents : List ℕ)
    → length contents < 4294967296
    → (unpad (new block_size) (pad (new block_size) contents) ≡ ok contents)
      × (length (pad (new block_size) contents) % (new block_size).block_size ≡ 0)
      × (length contents + 4 ≤ length (pad (new block_size) contents))
      × (length (pad (new block_size) contents) < length contents + 4 + (new block_size).block_size)
unfolding pad
unpad-pad block_size contents h =
    let p = new block_size in
    let total = length contents + 4 in
    let some_block = new-positive block_size in
    let whole = length-pad p contents in
    let added = mod-lt (p.block_size - total % p.block_size) some_block in
    (
      unpad-parts p contents
          (replicate (final_len p contents - length (be32 (length contents) ++ contents)) 0) h,
      ap (λ n. n % p.block_size) whole ∙ rounded-mod total p.block_size some_block,
      omega (arith, whole),
      omega (arith, whole, added),
    )
