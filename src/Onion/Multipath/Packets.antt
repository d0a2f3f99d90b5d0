-- ===== src/Onion/Multipath/Packets.antt =====
-- The packets that the slicer of src/onion/multipath.rs makes.
use anon_guard.Base.{
  ℕ, ◌+◌, ◌<◌, ◌≡◌, refl, ap, ◌∙◌, subst, inl, inr, ◌||◌, List, ◌++◌, arith, ltb, ◌==◌, Bool-cases,
  length, take, drop, take-length_append, be64, from_be, from_be-be64, IsU64, u64_max, Result, ok,
}
use anon_guard.Onion.Cell.{payload_size}
use anon_guard.Onion.Multipath.{MultiPathSlicer, SliceError, slice, multipath_header_size}

ok_inj :
    (x y : MultiPathSlicer × List ℕ × ℕ)
    → ◌≡◌ {A = Result (MultiPathSlicer × List ℕ × ℕ) SliceError} (ok x) (ok y)
    → x ≡ y
ok_inj x y h = cc

-- The written part of the buffer.
written :
    (n : ℕ) (body rest : List ℕ)
    → take (length body + multipath_header_size) (be64 n ++ (body ++ rest)) ≡ be64 n ++ body
written n body rest =
    take-length_append (be64 n ++ body) rest (length body + multipath_header_size) (omega arith)

abbrev Made : MultiPathSlicer → List ℕ → MultiPathSlicer × List ℕ × ℕ → Type 0
Made s body x =
    (from_be (take 8 (take x.2 x.1)) ≡ s.next_seq)
    × (drop 8 (take x.2 x.1) ≡ body)
    × (x.0.next_seq ≡ s.next_seq + 1)
    × (s.next_seq < u64_max)

-- Whatever the slicer writes is a packet of the stream that gives the body the number of the
-- slicer: its first eight bytes are that number, the rest is the body, and the slicer moves on
-- to the next number.
pub slice-packet :
    (s s' : MultiPathSlicer) (body out buf : List ℕ) (len : ℕ)
    → IsU64 s.next_seq
    → slice s body out ≡ ok (s', buf, len)
    → (from_be (take 8 (take len buf)) ≡ s.next_seq)
      × (drop 8 (take len buf) ≡ body)
      × (s'.next_seq ≡ s.next_seq + 1)
      × (s.next_seq < u64_max)
unfolding slice
slice-packet s s' body out buf len n h =
    elim (Bool-cases (ltb u64_max (length body + multipath_header_size))) [
      | inl long ↦ cc (rw long at h)
      | inr short ↦
          elim (Bool-cases (
            ltb payload_size (length body + multipath_header_size)
            || ltb (length out) (length body + multipath_header_size))) [
              | inl full ↦ cc (rw (short, full) at h)
              | inr fits ↦ elim (Bool-cases (s.next_seq == u64_max)) [
                | inl top ↦ cc (rw (short, fits, top) at h)
                | inr below ↦
                    let packet =
                      written s.next_seq body (drop (length body + multipath_header_size) out) in
                    subst (Made s body) (ok_inj _ _ (rw (short, fits, below) at h)) (
                      ap (λ x. from_be (take 8 x)) packet ∙ from_be-be64 s.next_seq n,
                      ap (drop 8) packet,
                      refl,
                      ground arith,
                    )
              ]
            ]
    ]
