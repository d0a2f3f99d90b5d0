-- ===== src/Onion/Session/Outgoing/Drain.antt =====
-- Taking cells from the queue of src/onion/session.rs until it is empty.
use anon_guard.Base.{
  ℕ, zero, suc, ◌-◌, ◌≤◌, ◌<◌, ◌≡◌, refl, sym, ap, ◌∙◌, ◌⊎◌, inl, inr, Option, none, some, List, [],
  ◌∷◌, ◌++◌, arith, ltb, ◌==◌, Bool-cases, length, take, drop, All, length-append, length-take,
  length-drop, and_then, Result, ok, err,
}
use mathlib.Core.List.{append_assoc}
use anon_guard.Onion.Cell.{payload_size}
use anon_guard.Onion.Session.Outgoing.{
  Outgoing, TryRecvError, nothing, Packed, pack, packed, start, try_next,
}

abbrev pub flat : List (List ℕ) → List ℕ
flat [] = []
flat (x ∷ xs) = x ++ flat xs

abbrev rest_of : Option (List ℕ) → List ℕ
rest_of none = []
rest_of (some xs) = xs

-- The bytes that are still to be sent, in order.
abbrev pub content : Outgoing → List ℕ
content o = rest_of o.pending ++ flat o.queue

-- A read is not empty and fits into a cell.
abbrev pub IsChunk : List ℕ → Type 0
IsChunk xs = (0 < length xs) × (length xs ≤ payload_size)

abbrev IsRest : Option (List ℕ) → Type 0
IsRest none = Unit {0}
IsRest (some xs) = IsChunk xs

pub record IsOutgoing (o : Outgoing) : Type 0 where
  pub queued : All IsChunk o.queue
  pub remainder : IsRest o.pending

abbrev weight : Option (List ℕ) → List (List ℕ) → ℕ
weight none queue = length queue
weight (some xs) queue = suc (length queue)

take-drop : (n : ℕ) (xs : List ℕ) → take n xs ++ drop n xs ≡ xs
take-drop zero xs = refl
take-drop (suc n) [] = refl
take-drop (suc n) (x ∷ xs) = ap (λ (r : List ℕ). x ∷ r) (take-drop n xs)

-- What packing keeps: the bytes, a cell that fits, and that the queue gets no longer.
record Kept (cell : List ℕ) (queue : List (List ℕ)) (r : Packed) : Type 0 where
  pub same : cell ++ flat queue ≡ r.0 ++ (rest_of r.1 ++ flat r.2)
  pub fits_cell : IsChunk r.0
  pub remainder : IsRest r.1
  pub queued : All IsChunk r.2
  pub shorter : weight r.1 r.2 ≤ length queue

overflow-same :
    (cell next : List ℕ) (queue : List (List ℕ)) (n : ℕ)
    → cell ++ (next ++ flat queue) ≡ (cell ++ take n next) ++ (drop n next ++ flat queue)
overflow-same cell next queue n = sym (
    append_assoc cell (take n next) (drop n next ++ flat queue)
    ∙ ap (λ (r : List ℕ). cell ++ r)
        (sym (append_assoc (take n next) (drop n next) (flat queue))
          ∙ ap (λ (r : List ℕ). r ++ flat queue) (take-drop n next)))

pack-Kept :
    (n : ℕ) (cell : List ℕ) (queue : List (List ℕ))
    → IsChunk cell
    → All IsChunk queue
    → Kept cell queue (pack n cell queue)
unfolding pack
pack-Kept zero cell queue c q = record {
  same = refl;
  fits_cell = c;
  remainder = tt;
  queued = q;
  shorter = omega arith;
}
pack-Kept (suc n) cell [] c q = record {
  same = refl;
  fits_cell = c;
  remainder = tt;
  queued = tt;
  shorter = omega arith;
}
pack-Kept (suc n) cell (next ∷ queue) (some_data, fits) (k, q) =
    elim (Bool-cases (length cell == payload_size)) [
      | inl full ↦ rw full (record {
        same = refl;
        fits_cell = (some_data, fits);
        remainder = tt;
        queued = (k, q);
        shorter = omega arith;
      })
      | inr room ↦ elim (Bool-cases (ltb (payload_size - length cell) (length next))) [
        | inl over ↦
            let l = length-append cell (take (payload_size - length cell) next) in
            rw (room, over)
              (record {
                same = overflow-same cell next queue (payload_size - length cell);
                fits_cell = ground (arith, l, length-take (payload_size - length cell) next);
                remainder = ground (arith, length-drop (payload_size - length cell) next);
                queued = q;
                shorter = omega arith;
              })
        | inr whole ↦
            let l = length-append cell next in
            let r = pack-Kept n (cell ++ next) queue (ground (arith, l, whole)) q in
            rw (room, whole)
              (record {
                same = sym (append_assoc cell next (flat queue)) ∙ r.same;
                fits_cell = r.fits_cell;
                remainder = r.remainder;
                queued = r.queued;
                shorter = omega (arith, r.shorter);
              })
      ]
    ]

-- A call that gives a cell, and what it leaves.
record Gives (o next : Outgoing) (cell : List ℕ) : Type 0 where
  pub same : content o ≡ cell ++ content next
  pub fits_cell : IsChunk cell
  pub good : IsOutgoing next
  pub sender : next.open_end ≡ o.open_end
  pub lighter : weight next.pending next.queue < weight o.pending o.queue

packed-Gives :
    (o : Outgoing) (cell : List ℕ) (queue : List (List ℕ)) (r : Packed)
    → content o ≡ cell ++ flat queue
    → length queue < weight o.pending o.queue
    → Kept cell queue r
    → Gives o (packed o r).0 (packed o r).1
packed-Gives o cell queue (c, p, q) e l k = record {
  same = e ∙ k.same;
  fits_cell = k.fits_cell;
  good = record { queued = k.queued; remainder = k.remainder };
  sender = refl;
  lighter = omega (arith, k.shorter);
}

abbrev Tried : Outgoing → Result (Outgoing × List ℕ) TryRecvError → Type 0
Tried o r =
    ((content o ≡ []) × (r ≡ err (nothing o)))
    ⊎ ((next : Outgoing) × (cell : List ℕ) × (r ≡ ok (next, cell)) × Gives o next cell)

start-Tried :
    (o : Outgoing) (pending : Option (List ℕ)) (queue : List (List ℕ))
    → o.pending ≡ pending
    → o.queue ≡ queue
    → IsOutgoing o
    → Tried o (start o pending queue)
start-Tried o (some cell) queue p q v =
    let r = pack-Kept 31 cell queue (rw p at v.remainder) (rw q at v.queued) in
    inr (
      _,
      _,
      refl,
      packed-Gives o cell queue (pack 31 cell queue) (rw (p, q) refl) (rw (p, q) (omega arith)) r,
    )
start-Tried o none [] p q v = inl (rw (p, q) refl, refl)
start-Tried o none (cell ∷ queue) p q v =
    let (c, cs) = rw q at v.queued in
    let r = pack-Kept 31 cell queue c cs in
    inr (
      _,
      _,
      refl,
      packed-Gives o cell queue (pack 31 cell queue) (rw (p, q) refl) (rw (p, q) (omega arith)) r,
    )

try_next-Tried : (o : Outgoing) → IsOutgoing o → Tried o (try_next o)
unfolding try_next
try_next-Tried o v = start-Tried o o.pending o.queue refl refl v

-- The cells until a call fails, and how it fails; `none` where there are more than the number.
abbrev then_more :
    Result (Outgoing × List ℕ) TryRecvError
    → (Outgoing → Option (List (List ℕ) × TryRecvError))
    → Option (List (List ℕ) × TryRecvError)
then_more (err e) k = some ([], e)
then_more (ok (next, cell)) k = and_then (k next) (λ r. some (cell ∷ r.0, r.1))

pub drain : ℕ → Outgoing → Option (List (List ℕ) × TryRecvError)
drain zero o = none
drain (suc n) o = then_more (try_next o) (λ next. drain n next)

-- Packing ends: enough calls, at most one more than there are queued reads and remainder, give
-- cells that are not empty and fit, which together carry exactly the bytes queued, in order; the
-- call after them reports that the channel is empty, or closed if its sender is gone.
pub drain-content :
    (o : Outgoing) (n : ℕ)
    → IsOutgoing o
    → weight o.pending o.queue < n
    → (cells : List (List ℕ)) × (drain n o ≡ some (cells, nothing o))
      × (flat cells ≡ content o)
      × All IsChunk cells
unfolding drain
drain-content o zero v l = absurd (omega arith)
drain-content o (suc n) v l = elim (try_next-Tried o v) [
  | inl (e, r) ↦ ([], rw r refl, sym e, tt)
  | inr (next, cell, r, g) ↦
      let (cells, d, same, all_fit) = drain-content next n g.good (omega (arith, g.lighter)) in
      (
        cell ∷ cells,
        rw (r, d, g.sender) refl,
        ap (λ (xs : List ℕ). cell ++ xs) same ∙ sym g.same,
        (g.fits_cell, all_fit),
      )
]
