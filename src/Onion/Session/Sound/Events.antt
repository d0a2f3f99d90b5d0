-- ===== src/Onion/Session/Sound/Events.antt =====
-- What the tasks and the owner report keeps the state of src/onion/session.rs in order.
use anon_guard.Base.{
  ℕ, ◌+◌, ◌≤◌, ◌<◌, ◌≡◌, refl, subst, inl, inr, Bool, true, false, not, ◌||◌, some, Option-cases,
  List, [], ◌∷◌, arith, ltb, leb, ◌==◌, ==_iff, Bool-cases, length, All, contains, u32_max, Result,
  Holds-guard, Holds-if, ok, err,
}
use anon_guard.Onion.Flow.{window_cells}
use anon_guard.Onion.Flow.Credit.{IsWindow}
use anon_guard.Onion.CircuitError.{CircuitError}
use anon_guard.Onion.Payload.{encode_relay_target}
use anon_guard.Onion.Session.State.{
  Session, Stream, max_streams, max_ids, attach, find, insert_stream, without,
}
use anon_guard.Onion.Session.Frame.{
  is_empty, write_done, connect_done, task_failed, open_encoded, open_request,
}
use anon_guard.Onion.Session.Sound.{
  IsStream, IsEntry, IsWaiting, IsSession, Later, Later_refl, find-All, insert_stream-All,
  without-shorter, without-apart, above-apart, close-Later, put-Later, without-IsSession,
}
use anon_guard.Onion.Session.Sound.Frames.{Kept, raised}

pub write_done-Kept :
    (s : Session) (id count : ℕ) → IsSession s → Kept s (write_done s id count (find id s.streams))
write_done-Kept s id count v = elim (Option-cases (find id s.streams)) [
  | inl n ↦ rw n (Later_refl s v)
  | inr (x, k) ↦
      let e = find-All _ id s.streams x v.open_streams k in
      rw k (
        Holds-guard (Later s) (not (count == x.written + 1) || ltb x.received count) _ _ (λ h.
          put-Later s id x (record x { written = count; ack = some count }) v k
            (wrote x x.received x.written count h e.sound.credit e.sound.fits e.sound.window)))
]
  where
    wrote :
        (x : Stream) (r w count : ℕ)
        → (not (count == w + 1) || ltb r count) ≡ false
        → r ≤ w + window_cells
        → r ≤ u32_max
        → IsWindow x.window
        → IsStream (record x { received = r; written = count; ack = some count })
    wrote x r w count h i j u = record {
      behind = ground arith;
      credit = ground arith;
      fits = j;
      window = u;
    }

attached : IsStream attach
attached = record {
  behind = omega arith;
  credit = omega arith;
  fits = omega arith;
  window = record { behind = omega arith; in_flight = omega arith; fits = omega arith };
}

-- A stream for an identifier that was waiting.
joined :
    (s : Session) (id : ℕ)
    → IsSession s
    → contains s.connecting id ≡ true
    → Later s (record s {
      connecting = without id s.connecting;
      streams = insert_stream id attach s.streams;
    })
joined s id v c =
    let t = without-IsSession s id v in
    let (l, n) = known id s.connecting v.waiting c in
    let (es, size) =
      insert_stream-All (IsEntry s.last_id s.closed (without id s.connecting)) id attach s.streams
        (record {
          given = l;
          not_closed = n;
          not_waiting = without-apart id s.connecting;
          sound = attached;
        })
        t.open_streams in
    (
      record {
        open_streams = es;
        waiting = t.waiting;
        gone = t.gone;
        load = omega (arith, size, without-shorter id s.connecting c, v.load);
        ids = v.ids;
        exit_only = t.exit_only;
      },
      λ i h. h,
    )
  where
    known :
        (id : ℕ) (ids : List ℕ)
        → All (IsWaiting s.last_id s.closed) ids
        → contains ids id ≡ true
        → IsWaiting s.last_id s.closed id
    known id [] h c = cc
    known id (i ∷ is) (h, hs) c = elim (Bool-cases (i == id)) [
      | inl same ↦ subst (λ j. IsWaiting s.last_id s.closed j) ((==_iff i id).0 same) h
      | inr other ↦ known id is hs (rw other at c)
    ]

pub connect_done-Kept :
    (s : Session) (id : ℕ) (success : Bool) → IsSession s → Kept s (connect_done s id success)
connect_done-Kept s id success v = Holds-guard _ s.client _ _ (λ a.
    Holds-if _ (not (contains s.connecting id)) _ _ (λ h. Later_refl s v)
      (λ h.
        Holds-if _ success _ _ (λ g. joined s id v (waits (contains s.connecting id) h))
          (λ g. (without-IsSession s id v, λ i k. k))))
  where
    waits : (b : Bool) → not b ≡ false → b ≡ true
    waits true h = refl
    waits false h = cc

pub task_failed-Kept :
    (s : Session) (id : ℕ) → IsSession s → Kept s (task_failed s id (find id s.streams))
task_failed-Kept s id v = elim (Option-cases (find id s.streams)) [
  | inl n ↦ rw n (Later_refl s v)
  | inr (x, k) ↦
      let e = find-All _ id s.streams x v.open_streams k in
      rw k (close-Later s id v e.given e.not_waiting)
]

-- The owner's new stream, on the side that connects nothing.
open_encoded-Kept :
    (s : Session) (now : ℕ) (r : Result (List ℕ) CircuitError)
    → IsSession s
    → s.connecting ≡ []
    → length s.streams < max_streams
    → s.last_id < max_ids
    → Kept s (open_encoded s now r)
open_encoded-Kept s now (err e) v c room more = Later_refl s v
open_encoded-Kept s now (ok target) v c room more =
    let w = raised s (s.last_id + 1) v (omega arith) (omega arith) in
    let (es, size) =
      insert_stream-All (IsEntry (s.last_id + 1) s.closed s.connecting) (s.last_id + 1)
        (record attach { ready = false; reply = true; application = true }) s.streams
        (record {
          given = omega arith;
          not_closed = above-apart s.last_id (s.last_id + 1) s.closed v.gone (omega arith);
          not_waiting = rw c refl;
          sound = record {
            behind = attached.behind;
            credit = attached.credit;
            fits = attached.fits;
            window = attached.window;
          };
        })
        w.open_streams in
    (
      record {
        open_streams = es;
        waiting = w.waiting;
        gone = w.gone;
        load = rw c (omega (arith, size));
        ids = w.ids;
        exit_only = v.exit_only;
      },
      λ i h. h,
    )

pub open_request-Kept :
    (s : Session) (now : ℕ) (host : List ℕ) (port : ℕ)
    → IsSession s
    → s.client ≡ true
    → Kept s (open_request s now host port)
open_request-Kept s now host port v c =
    Holds-if _ (leb max_streams (length s.streams) || leb max_ids s.last_id) _ _
      (λ h. Later_refl s v)
      (λ h.
        Holds-if _ ((port == 0) || is_empty host) _ _ (λ g. Later_refl s v)
          (λ g.
            let (room, more) = both_free (length s.streams) s.last_id h in
            open_encoded-Kept s now (encode_relay_target host port) v (v.exit_only c) room more))
  where
    both_free :
        (n m : ℕ) → (leb max_streams n || leb max_ids m) ≡ false → (n < max_streams) × (m < max_ids)
    both_free n m h = ground arith
