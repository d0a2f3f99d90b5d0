-- ===== src/Onion/Session/Outgoing.antt =====
-- `Outgoing` of src/onion/session.rs: queued reads are packed into cells. The queue is what a call
-- finds in the channel, and `open` is whether its sender is there.
pub mod Drain
use anon_guard.Base.{
  ℕ, zero, suc, ◌+◌, ◌-◌, Bool, Option, none, some, List, [], ◌∷◌, ◌++◌, ltb, ◌==◌, if◌then◌else◌,
  length, take, drop, Result, ok, err,
}
use anon_guard.Onion.Cell.{payload_size}

pub record Outgoing : Type 0 where
  pub queue : List (List ℕ)
  pub open_end : Bool
  pub pending : Option (List ℕ)

pub data TryRecvError : Type 0 where
  empty disconnected : TryRecvError

abbrev rounds : ℕ
rounds = 31

-- The loop: the cell, the remainder that did not fit, and the queue.
abbrev pub Packed : Type 0
Packed = List ℕ × Option (List ℕ) × List (List ℕ)

abbrev overflow : List ℕ → List ℕ → List (List ℕ) → Packed → Packed
overflow cell next queue rest =
    let available = payload_size - length cell in
    if ltb available (length next)
    then (cell ++ take available next, some (drop available next), queue)
    else rest

pub pack : ℕ → List ℕ → List (List ℕ) → Packed
pack zero cell queue = (cell, none, queue)
pack (suc n) cell [] = (cell, none, [])
pack (suc n) cell (next ∷ queue) =
    let rest = pack n (cell ++ next) queue in
    if length cell == payload_size
    then (cell, none, next ∷ queue)
    else overflow cell next queue rest

abbrev pub packed : Outgoing → Packed → Outgoing × List ℕ
packed o (cell, pending, queue) = (record o { pending = pending; queue = queue }, cell)

-- `try_recv` on an empty channel.
abbrev pub nothing : Outgoing → TryRecvError
nothing o = if o.open_end then empty else disconnected

abbrev pub start :
    Outgoing → Option (List ℕ) → List (List ℕ) → Result (Outgoing × List ℕ) TryRecvError
start o (some cell) queue = ok (packed o (pack rounds cell queue))
start o none [] = err (nothing o)
start o none (cell ∷ queue) = ok (packed o (pack rounds cell queue))

pub try_next : Outgoing → Result (Outgoing × List ℕ) TryRecvError
unfolding pack
try_next o = start o o.pending o.queue
