-- ===== src/Onion/Session/Sound.antt =====
-- What holds of the state of src/onion/session.rs between two rounds, and the lemmas on its map.
pub mod Frames
pub mod Events
pub mod Ticks
pub mod Reached
use anon_guard.Base.{
  ℕ, suc, ◌+◌, ◌-◌, ◌≤◌, ◌<◌, ◌≡◌, refl, sym, ap, subst, inl, inr, Bool, true, false, ◌||◌, some,
  some_inj, List, [], ◌∷◌, arith, ltb, ◌==◌, ==_iff, Bool-cases, length, length-retain, All,
  contains, u32_max, All-map, All-retain,
}
use anon_guard.Onion.Flow.{window_cells}
use anon_guard.Onion.Flow.Credit.{IsWindow}
use anon_guard.Onion.Session.State.{
  Session, Stream, Streams, max_streams, max_ids, find, is_not, delete, put, insert_stream, without,
  close,
}

-- The credit of a stream: at most 32 cells are received and not written, and in flight.
pub record IsStream (x : Stream) : Type 0 where
  pub behind : x.written ≤ x.received
  pub credit : x.received ≤ x.written + window_cells
  pub fits : x.received ≤ u32_max
  pub window : IsWindow x.window

-- An open stream has an identifier that was given out, and is neither closed nor being connected.
pub record IsEntry (last : ℕ) (closed connecting : List ℕ) (e : ℕ × Stream) : Type 0 where
  pub given : e.0 ≤ last
  pub not_closed : contains closed e.0 ≡ false
  pub not_waiting : contains connecting e.0 ≡ false
  pub sound : IsStream e.1

abbrev pub IsWaiting : ℕ → List ℕ → ℕ → Type 0
IsWaiting last closed id = (id ≤ last) × (contains closed id ≡ false)

-- Only the exit connects.
pub record IsTable (client : Bool) (streams : Streams) (connecting closed : List ℕ) (last : ℕ)
    : Type 0 where
  pub open_streams : All (IsEntry last closed connecting) streams
  pub waiting : All (IsWaiting last closed) connecting
  pub gone : All (λ id. id ≤ last) closed
  pub load : length streams + length connecting ≤ max_streams
  pub ids : last ≤ max_ids
  pub exit_only : client ≡ true → connecting ≡ []

abbrev pub IsSession : Session → Type 0
IsSession s = IsTable s.client s.streams s.connecting s.closed s.last_id

-- A later state is in order too, and what is closed stays closed.
abbrev pub Later : Session → Session → Type 0
Later s t = IsSession t × ((id : ℕ) → contains s.closed id ≡ true → contains t.closed id ≡ true)

abbrev pub Later_refl : (s : Session) → IsSession s → Later s s
Later_refl s v = (v, λ id h. h)

abbrev pub Later_trans : (s t u : Session) → Later s t → Later t u → Later s u
Later_trans s t u a b = (b.0, λ id h. b.1 id (a.1 id h))

pub find-All :
    (P : ℕ × Stream → Type 0) (id : ℕ) (xs : Streams) (x : Stream)
    → All P xs
    → find id xs ≡ some x
    → P (id, x)
unfolding find
find-All P id [] x h e = cc
find-All P id ((i, y) ∷ xs) x (h, hs) e = elim (Bool-cases (i == id)) [
  | inl same ↦
      subst (λ z. P (id, z)) (some_inj y x (rw same at e))
        (subst (λ j. P (j, y)) ((==_iff i id).0 same) h)
  | inr other ↦ find-All P id xs x hs (rw other at e)
]

put-All :
    (P : ℕ × Stream → Type 0) (id : ℕ) (x : Stream) (xs : Streams)
    → P (id, x)
    → All P xs
    → All P (put id x xs)
put-All P id x [] p h = tt
put-All P id x ((i, y) ∷ xs) p (h, hs) = elim (Bool-cases (i == id)) [
  | inl same ↦
      rw same (subst (λ j. P (j, x)) (sym ((==_iff i id).0 same)) p, put-All P id x xs p hs)
  | inr other ↦ rw other (h, put-All P id x xs p hs)
]

length-put : (id : ℕ) (x : Stream) (xs : Streams) → length (put id x xs) ≡ length xs
length-put id x [] = refl
length-put id x (e ∷ xs) = ap suc (length-put id x xs)

pub insert_stream-All :
    (P : ℕ × Stream → Type 0) (id : ℕ) (x : Stream) (xs : Streams)
    → P (id, x)
    → All P xs
    → All P (insert_stream id x xs) × (length (insert_stream id x xs) ≤ suc (length xs))
unfolding insert_stream
insert_stream-All P id x [] p h = ((p, tt), omega arith)
insert_stream-All P id x ((i, y) ∷ xs) p (h, hs) =
    let (rest, l) = insert_stream-All P id x xs p hs in
    elim (Bool-cases (ltb id i)) [
      | inl below ↦ rw below ((p, (h, hs)), omega arith)
      | inr above ↦ elim (Bool-cases (id == i)) [
        | inl same ↦ rw (above, same) ((p, hs), omega arith)
        | inr other ↦ rw (above, other) ((h, rest), omega arith)
      ]
    ]

pub without-shorter :
    (id : ℕ) (ids : List ℕ) → contains ids id ≡ true → length (without id ids) < length ids
without-shorter id [] h = cc
without-shorter id (x ∷ xs) h = elim (Bool-cases (x == id)) [
  | inl same ↦ rw same (omega (arith, length-retain (is_not id) xs))
  | inr other ↦ let r = without-shorter id xs (rw other at h) in rw other (omega arith)
]

pub without-apart : (id : ℕ) (ids : List ℕ) → contains (without id ids) id ≡ false
without-apart id [] = refl
without-apart id (x ∷ xs) = elim (Bool-cases (x == id)) [
  | inl same ↦ rw same (without-apart id xs)
  | inr other ↦ rw (other, other) (without-apart id xs)
]

without-less :
    (id i : ℕ) (ids : List ℕ) → contains ids i ≡ false → contains (without id ids) i ≡ false
without-less id i [] h = refl
without-less id i (x ∷ xs) h = elim (Bool-cases (x == i)) [
  | inl same ↦ cc (rw same at h)
  | inr other ↦
      let r = without-less id i xs (rw other at h) in
      elim (Bool-cases (x == id)) [ inl gone ↦ rw gone r | inr kept ↦ rw (kept, other) r ]
]

-- An identifier above all of the list is not in it.
pub above-apart :
    (last id : ℕ) (ids : List ℕ) → All (λ i. i ≤ last) ids → last < id → contains ids id ≡ false
above-apart last id [] h l = refl
above-apart last id (x ∷ xs) (h, hs) l = ground (arith, above-apart last id xs hs l)

close-IsEntry :
    (id last : ℕ) (closed connecting : List ℕ) (e : ℕ × Stream)
    → IsEntry last closed connecting e × (is_not id e.0 ≡ true)
    → IsEntry last (id ∷ closed) connecting e
close-IsEntry id last closed connecting (i, x) (v, n) = record {
  given = v.given;
  not_closed = apart id i (contains closed i) n v.not_closed;
  not_waiting = v.not_waiting;
  sound = v.sound;
}
  where
    apart : (a b : ℕ) (c : Bool) → is_not a b ≡ true → c ≡ false → ((a == b) || c) ≡ false
    apart a b c n h = ground arith

close-IsWaiting :
    (id last : ℕ) (closed ids : List ℕ)
    → contains ids id ≡ false
    → All (IsWaiting last closed) ids
    → All (IsWaiting last (id ∷ closed)) ids
close-IsWaiting id last closed [] n h = tt
close-IsWaiting id last closed (i ∷ is) n ((l, c), hs) = elim (Bool-cases (i == id)) [
  | inl same ↦ cc (rw same at n)
  | inr other ↦
      ((l, rw (swapped id i other) c), close-IsWaiting id last closed is (rw other at n) hs)
]
  where
    swapped : (a b : ℕ) → (b == a) ≡ false → (a == b) ≡ false
    swapped a b h = ground arith

cons-keeps : (id i : ℕ) (ids : List ℕ) → contains ids i ≡ true → contains (id ∷ ids) i ≡ true
cons-keeps id i ids h = ground arith

-- Closing an identifier that is not being connected.
pub close-Later :
    (s : Session) (id : ℕ)
    → IsSession s
    → id ≤ s.last_id
    → contains s.connecting id ≡ false
    → Later s (close id s)
close-Later s id v l n = (
  record {
    open_streams =
        All-map _ _ (delete id s.streams) (close-IsEntry id s.last_id s.closed s.connecting)
          (All-retain _ (λ e. is_not id e.0) s.streams v.open_streams);
    waiting = close-IsWaiting id s.last_id s.closed s.connecting n v.waiting;
    gone = (l, v.gone);
    load = omega (arith, v.load, length-retain (λ (e : ℕ × Stream). is_not id e.0) s.streams);
    ids = v.ids;
    exit_only = v.exit_only;
  },
  λ i h. cons-keeps id i s.closed h,
)

-- A stream that is written back.
pub put-Later :
    (s : Session) (id : ℕ) (x y : Stream)
    → IsSession s
    → find id s.streams ≡ some x
    → IsStream y
    → Later s (record s { streams = put id y s.streams })
put-Later s id x y v f k =
    let e = find-All (IsEntry s.last_id s.closed s.connecting) id s.streams x v.open_streams f in
    (
      record {
        open_streams =
            put-All (IsEntry s.last_id s.closed s.connecting) id y s.streams
              (record {
                given = e.given;
                not_closed = e.not_closed;
                not_waiting = e.not_waiting;
                sound = k;
              })
              v.open_streams;
        waiting = v.waiting;
        gone = v.gone;
        load = rw (length-put id y s.streams) v.load;
        ids = v.ids;
        exit_only = v.exit_only;
      },
      λ i h. h,
    )

pub without-IsSession :
    (s : Session) (id : ℕ)
    → IsSession s
    → IsSession (record s { connecting = without id s.connecting })
without-IsSession s id v = record {
  open_streams =
      All-map _ _ s.streams
        (λ e i. record {
          given = i.given;
          not_closed = i.not_closed;
          not_waiting = without-less id e.0 s.connecting i.not_waiting;
          sound = i.sound;
        })
        v.open_streams;
  waiting =
      All-map _ _ (without id s.connecting) (λ i w. w.0)
        (All-retain _ (is_not id) s.connecting v.waiting);
  gone = v.gone;
  load = omega (arith, v.load, length-retain (is_not id) s.connecting);
  ids = v.ids;
  exit_only = λ c. ap (without id) (v.exit_only c);
}
