-- ===== src/Onion/Multipath/Order.antt =====
-- The order of delivery in src/onion/multipath.rs, for any interleaving of the packets.
use anon_guard.Base.{
  ℕ, zero, suc, ◌+◌, ◌-◌, ◌≤◌, ◌≡◌, refl, sym, ap, ◌∙◌, subst, inl, inr, Bool, true, false, ◌||◌,
  Option, none, some, List, [], ◌∷◌, arith, ltb, leb, ◌==◌, if◌then◌else◌, ==_iff, Option-cases,
  length, take, drop, All, from_be, u64_max,
}
use anon_guard.Onion.Cell.{payload_size}
use anon_guard.Onion.Multipath.{
  MultiPathReassembler, Buffer, receive, deliver, hold, pop_next_buffered, get, remove,
  contains_key, max_buffered_entries, max_seq_gap, multipath_header_size,
}

-- `sent k` is the data that the sender numbered k.
module _ (sent : ℕ → List ℕ) where
  -- Every early packet that is held is the one that was sent.
  abbrev Genuine : Buffer → Type 0
  Genuine [] = Unit {0}
  Genuine ((k, v) ∷ m) = (v ≡ sent k) × Genuine m

  get-Genuine : (m : Buffer) (k : ℕ) (v : List ℕ) → Genuine m → get k m ≡ some v → v ≡ sent k
  unfolding get
  get-Genuine [] k v g h = cc
  get-Genuine ((j, w) ∷ m) k v g h = ground (arith, get-Genuine m k v g.1)

  remove-Genuine : (m : Buffer) (k : ℕ) → Genuine m → Genuine (remove k m)
  unfolding remove
  remove-Genuine [] k g = tt
  remove-Genuine ((j, w) ∷ m) k g = ground (arith, remove-Genuine m k g.1)

length-remove : (m : Buffer) (k : ℕ) → length (remove k m) ≤ length m
unfolding remove
length-remove [] k = omega arith
length-remove ((j, w) ∷ m) k = ground (arith, length-remove m k)

pub data Event : Type 0 where
  packet : List ℕ → Event
  pop : Event

pub react : MultiPathReassembler → Event → MultiPathReassembler × Option (List ℕ)
react r (packet payload) = receive r payload
react r pop = pop_next_buffered r

abbrev emit : Option (List ℕ) → List (List ℕ) → List (List ℕ)
emit none rest = rest
emit (some d) rest = d ∷ rest

-- All that a run of the reassembler hands on, in order.
pub output : MultiPathReassembler → List Event → List (List ℕ)
output r [] = []
output r (e ∷ es) = let (q, o) = react r e in emit o (output q es)

-- The data numbered from n, k pieces of it.
pub sequence : (ℕ → List ℕ) → ℕ → ℕ → List (List ℕ)
sequence sent n zero = []
sequence sent n (suc k) = sent n ∷ sequence sent (n + 1) k

-- A packet of this stream: its number, then the data of that number. Packets that are too short
-- to carry a number may arrive too.
abbrev OfStream : (ℕ → List ℕ) → Event → Type 0
OfStream sent pop = Unit {0}
OfStream sent (packet p) = drop 8 p ≡ sent (from_be (take 8 p))

pub record IsReassembler (sent : ℕ → List ℕ) (r : MultiPathReassembler) : Type 0 where
  pub genuine : Genuine sent r.buffer
  pub bounded : length r.buffer ≤ max_buffered_entries

-- One step hands on nothing and waits for the same packet, or hands on that packet.
abbrev Handed :
    (ℕ → List ℕ) → MultiPathReassembler → MultiPathReassembler × Option (List ℕ) → Type 0
Handed sent r (q, none) = IsReassembler sent q × (q.next_expected_seq ≡ r.next_expected_seq)
Handed sent r (q, some d) =
    IsReassembler sent q
    × (q.next_expected_seq ≡ r.next_expected_seq + 1)
    × (d ≡ sent r.next_expected_seq)

module _ (sent : ℕ → List ℕ) (r : MultiPathReassembler) (v : IsReassembler sent r) where
  Handed-if :
      (b : Bool) (x y : MultiPathReassembler × Option (List ℕ))
      → (b ≡ true → Handed sent r x)
      → (b ≡ false → Handed sent r y)
      → Handed sent r (if b then x else y)
  Handed-if true x y f g = f refl
  Handed-if false x y f g = g refl

  pop-Handed : Handed sent r (pop_next_buffered r)
  unfolding pop_next_buffered
  pop-Handed = elim (Option-cases (get r.next_expected_seq r.buffer)) [
    | inl e ↦ rw e (v, refl)
    | inr (d, e) ↦ rw e (
      record {
        genuine = remove-Genuine sent r.buffer r.next_expected_seq v.genuine;
        bounded = omega (arith, v.bounded, length-remove r.buffer r.next_expected_seq);
      },
      refl,
      get-Genuine sent r.buffer r.next_expected_seq d v.genuine e,
    )
  ]

  deliver-Handed :
      (seq : ℕ) (body : List ℕ)
      → seq ≡ r.next_expected_seq
      → body ≡ sent seq
      → Handed sent r (deliver r seq body)
  unfolding deliver
  deliver-Handed seq body e g = (
    record {
      genuine = remove-Genuine sent r.buffer seq v.genuine;
      bounded = omega (arith, v.bounded, length-remove r.buffer seq);
    },
    refl,
    elim (Option-cases (get seq r.buffer)) [
      | inl n ↦ rw n (g ∙ ap sent e)
      | inr (d, s) ↦ rw s (get-Genuine sent r.buffer seq d v.genuine s ∙ ap sent e)
    ],
  )

  hold-Handed : (seq : ℕ) (body : List ℕ) → body ≡ sent seq → Handed sent r (hold r seq body)
  unfolding hold
  hold-Handed seq body g =
      Handed-if (contains_key seq r.buffer || leb max_buffered_entries (length r.buffer)) _ _
        (λ _. (v, refl))
        (λ room. (record { genuine = (g, v.genuine); bounded = ground arith }, refl))

  receive-Handed : (p : List ℕ) → drop 8 p ≡ sent (from_be (take 8 p)) → Handed sent r (receive r p)
  unfolding receive
  receive-Handed p g =
      let seq = from_be (take 8 p) in
      Handed-if (ltb (length p) multipath_header_size || ltb payload_size (length p)) _ _
        (λ _. (v, refl))
        λ _.
          Handed-if (ltb seq r.next_expected_seq || seq == u64_max) _ _ (λ _. (v, refl))
            λ _.
              Handed-if (ltb max_seq_gap (seq - r.next_expected_seq)) _ _ (λ _. (v, refl))
                λ _.
                  Handed-if (seq == r.next_expected_seq) _ _
                    (λ now. deliver-Handed seq (drop 8 p) ((==_iff _ _).0 now) g)
                    (λ _. hold-Handed seq (drop 8 p) g)

  react-Handed : (e : Event) → OfStream sent e → Handed sent r (react r e)
  unfolding react
  react-Handed (packet p) g = receive-Handed p g
  react-Handed pop g = pop-Handed

-- How far the run of the events gets: the number of pieces handed on, and the state that is left.
abbrev final : MultiPathReassembler → List Event → MultiPathReassembler
final r [] = r
final r (e ∷ es) = final (react r e).0 es

abbrev pub InOrder : (ℕ → List ℕ) → MultiPathReassembler → List Event → ℕ → Type 0
InOrder sent r es k =
    (output r es ≡ sequence sent r.next_expected_seq k)
    × ((final r es).next_expected_seq ≡ r.next_expected_seq + k)
    × IsReassembler sent (final r es)

Handed-IsReassembler :
    (sent : ℕ → List ℕ) (r : MultiPathReassembler) (x : MultiPathReassembler × Option (List ℕ))
    → Handed sent r x
    → IsReassembler sent x.0
Handed-IsReassembler sent r (q, none) h = h.0
Handed-IsReassembler sent r (q, some d) h = h.0

final-step :
    (r q : MultiPathReassembler) (o : Option (List ℕ)) (e : Event) (es : List Event)
    → react r e ≡ (q, o)
    → final r (e ∷ es) ≡ final q es
final-step r q o e es s = ap (λ (p : MultiPathReassembler × Option (List ℕ)). final p.0 es) s

output-step :
    (sent : ℕ → List ℕ) (r : MultiPathReassembler) (e : Event) (es : List Event)
    (q : MultiPathReassembler) (o : Option (List ℕ))
    → react r e ≡ (q, o)
    → Handed sent r (q, o)
    → (k : ℕ) × InOrder sent q es k
    → (k : ℕ) × InOrder sent r (e ∷ es) k
unfolding output sequence
output-step sent r e es q none s h (k, i) =
    let f = final-step r q none e es s in
    (
      k,
      (
        rw s (i.0 ∙ ap (λ (n : ℕ). sequence sent n k) h.1),
        omega (arith, ap (λ (x : MultiPathReassembler). x.next_expected_seq) f, i.1, h.1),
        subst (IsReassembler sent) (sym f) i.2,
      ),
    )
output-step sent r e es q (some d) s h (k, i) =
    let f = final-step r q (some d) e es s in
    (
      suc k,
      (
        rw (s, i.0, h.1, h.2),
        omega (arith, ap (λ (x : MultiPathReassembler). x.next_expected_seq) f, i.1, h.1),
        subst (IsReassembler sent) (sym f) i.2,
      ),
    )

-- Whatever packets of a stream arrive, in any order, repeated or missing, with the buffer popped
-- at any time: what the reassembler hands on is the data in the order in which it was sent, from
-- the expected number on, with nothing left out and nothing twice, and the buffer stays bounded.
pub output-InOrder :
    (sent : ℕ → List ℕ) (r : MultiPathReassembler) (es : List Event)
    → IsReassembler sent r
    → All (OfStream sent) es
    → (k : ℕ) × InOrder sent r es k
output-InOrder sent r [] v a = unfold output sequence in (0, (refl, omega arith, v))
output-InOrder sent r (e ∷ es) v a =
    let (k, i) =
      output-InOrder sent (react r e).0 es
        (Handed-IsReassembler sent r (react r e) (react-Handed sent r v e a.0)) a.1 in
    output-step sent r e es (react r e).0 (react r e).1 refl (react-Handed sent r v e a.0) (k, i)
