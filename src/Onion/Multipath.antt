-- ===== src/Onion/Multipath.antt =====
-- src/onion/multipath.rs: numbering the packets of a stream and putting them back in order.
pub mod Order
pub mod Packets
use anon_guard.Base.{
  ℕ, ◌+◌, ◌-◌, Bool, true, false, ◌||◌, Option, none, some, List, [], ◌∷◌, ◌++◌, ltb, leb, ◌==◌,
  if◌then◌else◌, length, take, drop, be64, from_be, u64_max, Result, ok, err,
}
use anon_guard.Onion.Cell.{payload_size}

abbrev pub multipath_header_size : ℕ
multipath_header_size = 8

pub record MultiPathSlicer : Type 0 where
  pub next_seq : ℕ

pub data SliceError : Type 0 where
  length_overflow exceeds_capacity sequence_exhausted : SliceError

abbrev new_slicer : MultiPathSlicer
new_slicer = record { next_seq = 0 }

-- The result holds the new slicer, the output buffer and the length written to it.
unfoldable pub slice :
    MultiPathSlicer → List ℕ → List ℕ → Result (MultiPathSlicer × List ℕ × ℕ) SliceError
slice s body out =
    let len = length body + multipath_header_size in
    if ltb u64_max len
    then err length_overflow
    else if ltb payload_size len || ltb (length out) len
    then err exceeds_capacity
    else if s.next_seq == u64_max
    then err sequence_exhausted
    else ok (record { next_seq = s.next_seq + 1 }, be64 s.next_seq ++ (body ++ drop len out), len)

-- The packets that arrived early, by sequence number. The map is never iterated over.
abbrev pub Buffer : Type 0
Buffer = List (ℕ × List ℕ)

pub record MultiPathReassembler : Type 0 where
  pub next_expected_seq : ℕ
  pub buffer : Buffer

abbrev pub new_reassembler : MultiPathReassembler
new_reassembler = record { next_expected_seq = 0; buffer = [] }

abbrev pub max_seq_gap : ℕ
max_seq_gap = 100000

abbrev pub max_buffered_entries : ℕ
max_buffered_entries = 10000

pub get : ℕ → Buffer → Option (List ℕ)
get k [] = none
get k ((j, v) ∷ m) = if j == k then some v else get k m

pub remove : ℕ → Buffer → Buffer
remove k [] = []
remove k ((j, v) ∷ m) = if j == k then m else (j, v) ∷ remove k m

abbrev pub contains_key : ℕ → Buffer → Bool
contains_key k m = elim (get k m) [ none ↦ false | some v ↦ true ]

abbrev unwrap_or : Option (List ℕ) → List ℕ → List ℕ
unwrap_or none d = d
unwrap_or (some v) d = v

-- The packet that the stream waits for: an early copy of it wins.
pub deliver : MultiPathReassembler → ℕ → List ℕ → MultiPathReassembler × Option (List ℕ)
unfolding get remove
deliver r seq body = (
  record { next_expected_seq = r.next_expected_seq + 1; buffer = remove seq r.buffer },
  some (unwrap_or (get seq r.buffer) body),
)

pub hold : MultiPathReassembler → ℕ → List ℕ → MultiPathReassembler × Option (List ℕ)
unfolding get
hold r seq body =
    if contains_key seq r.buffer || leb max_buffered_entries (length r.buffer)
    then (r, none)
    else (record r { buffer = (seq, body) ∷ r.buffer }, none)

pub receive : MultiPathReassembler → List ℕ → MultiPathReassembler × Option (List ℕ)
unfolding deliver hold
receive r payload =
    let seq = from_be (take 8 payload) in
    if ltb (length payload) multipath_header_size || ltb payload_size (length payload)
    then (r, none)
    else if ltb seq r.next_expected_seq || seq == u64_max
    then (r, none)
    else if ltb max_seq_gap (seq - r.next_expected_seq)
    then (r, none)
    else if seq == r.next_expected_seq
    then deliver r seq (drop 8 payload)
    else hold r seq (drop 8 payload)

abbrev pop_found : MultiPathReassembler → Option (List ℕ) → MultiPathReassembler × Option (List ℕ)
pop_found r none = (r, none)
pop_found r (some body) = (
  record {
    next_expected_seq = r.next_expected_seq + 1;
    buffer = remove r.next_expected_seq r.buffer;
  },
  some body,
)

pub pop_next_buffered : MultiPathReassembler → MultiPathReassembler × Option (List ℕ)
unfolding get remove
pop_next_buffered r = pop_found r (get r.next_expected_seq r.buffer)
