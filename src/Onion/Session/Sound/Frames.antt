-- ===== src/Onion/Session/Sound/Frames.antt =====
-- The cells that arrive keep the state of src/onion/session.rs in order.
use anon_guard.Base.{
  ℕ, ◌+◌, ◌-◌, ◌≤◌, ◌<◌, ◌≡◌, inl, inr, Bool, true, false, not, ◌&&◌, ◌||◌, some, Option-cases,
  List, [], ◌∷◌, arith, ltb, leb, ◌==◌, if◌then◌else◌, length, All-map, contains, bytes_eq, u32_max,
  Result, Holds, Holds-guard, Holds-if, ok, err,
}
use anon_guard.Onion.Cell.{
  CellCommand, create, created, relay, destroy, extend, extended, stream_data, data_ack, dummy, end,
  session, session_accepted, session_open, session_opened, session_refused, session_finish,
  session_finished, session_reset,
}
use anon_guard.Onion.Flow.{SendWindow, FlowError, window_cells, acknowledge}
use anon_guard.Onion.Flow.Credit.{IsWindow, acknowledge-IsWindow}
use anon_guard.Onion.Payload.{decode_relay_target}
use anon_guard.Onion.Session.State.{
  Session, Stream, SessionError, Stop, max_streams, max_ids, find, without, close,
}
use anon_guard.Onion.Session.Frame.{
  Frame, Stepped, is_empty, with_stream, check_target, open_target, opened, refuse, receive_data,
  take_ack, receive_ack, receive_end, receive, late, on_frame,
}
use anon_guard.Onion.Session.Sound.{
  IsStream, IsEntry, IsSession, Later, Later_refl, find-All, without-apart, above-apart,
  close-Later, put-Later, without-IsSession,
}

abbrev pub Kept : Session → Stepped → Type 0
Kept s r = Holds (Later s) r

-- A handler of a stream is given one that is in order.
with_stream-Kept :
    (s : Session) (id : ℕ) (e : SessionError) (f : Stream → Stepped)
    → IsSession s
    → ((x : Stream)
        → find id s.streams ≡ some x
        → IsEntry s.last_id s.closed s.connecting (id, x)
        → Kept s (f x))
    → Kept s (with_stream (find id s.streams) e f)
with_stream-Kept s id e f v h = elim (Option-cases (find id s.streams)) [
  | inl n ↦ rw n tt
  | inr (x, k) ↦ rw k (h x k (find-All _ id s.streams x v.open_streams k))
]

opened-Kept :
    (s : Session) (f : Frame) (x : Stream)
    → IsSession s
    → find f.id s.streams ≡ some x
    → IsEntry s.last_id s.closed s.connecting (f.id, x)
    → Kept s (opened s f x)
opened-Kept s f x v k e = Holds-guard _ x.ready _ _ (λ a.
    Holds-guard _ (not x.reply || not x.application) _ _ (λ b.
      Holds-if _ f.taken _ _
        (λ t.
          put-Later s f.id x (record x { ready = true; reply = false; application = false }) v k
            (record {
              behind = e.sound.behind;
              credit = e.sound.credit;
              fits = e.sound.fits;
              window = e.sound.window;
            }))
        (λ t. close-Later s f.id v e.given e.not_waiting)))

refuse-Kept :
    (s : Session) (f : Frame) (x : Stream)
    → IsSession s
    → IsEntry s.last_id s.closed s.connecting (f.id, x)
    → Kept s (refuse s f x)
refuse-Kept s f x v e = Holds-guard _ x.ready _ _ (λ a. close-Later s f.id v e.given e.not_waiting)

receive_data-Kept :
    (now : ℕ) (s : Session) (f : Frame) (x : Stream)
    → IsSession s
    → find f.id s.streams ≡ some x
    → IsEntry s.last_id s.closed s.connecting (f.id, x)
    → Kept s (receive_data now s f x)
receive_data-Kept now s f x v k e =
    Holds-guard _
      (not x.ready
        || (x.received_end || (is_empty f.body || leb window_cells (x.received - x.written))))
      _ _
      (λ a. Holds-guard _ (x.received == u32_max) _ _ (λ b. Holds-guard _ (not f.queued) _ _ (λ c.
        put-Later s f.id x (record x { received = x.received + 1 }) v k
          (room x.received x.written (not x.ready) x.received_end (is_empty f.body) a b
            e.sound.behind e.sound.credit e.sound.fits e.sound.window))))
  where
    room :
        (r w : ℕ) (p q t : Bool)
        → (p || (q || (t || leb window_cells (r - w)))) ≡ false
        → (r == u32_max) ≡ false
        → w ≤ r
        → r ≤ w + window_cells
        → r ≤ u32_max
        → IsWindow x.window
        → IsStream (record x { received = r + 1; written = w })
    room r w p q t a b h i j u = record {
      behind = omega arith;
      credit = ground arith;
      fits = ground arith;
      window = u;
    }

take_ack-Kept :
    (s : Session) (f : Frame) (x : Stream) (r : Result SendWindow FlowError)
    → IsSession s
    → find f.id s.streams ≡ some x
    → IsStream x
    → Holds IsWindow r
    → Kept s (take_ack s f x r)
take_ack-Kept s f x (err e) v k i w = tt
take_ack-Kept s f x (ok y) v k i w =
    put-Later s f.id x (record x { window = y }) v k
      (record { behind = i.behind; credit = i.credit; fits = i.fits; window = w })

receive_ack-Kept :
    (s : Session) (f : Frame) (x : Stream)
    → IsSession s
    → find f.id s.streams ≡ some x
    → IsEntry s.last_id s.closed s.connecting (f.id, x)
    → Kept s (receive_ack s f x)
receive_ack-Kept s f x v k e = Holds-guard _ (not x.ready) _ _ (λ a.
    take_ack-Kept s f x (acknowledge x.window f.body) v k e.sound
      (acknowledge-IsWindow x.window f.body e.sound.window))

receive_end-Kept :
    (now : ℕ) (s : Session) (f : Frame) (x : Stream)
    → IsSession s
    → find f.id s.streams ≡ some x
    → IsEntry s.last_id s.closed s.connecting (f.id, x)
    → Kept s (receive_end now s f x)
receive_end-Kept now s f x v k e = Holds-guard _ (not x.ready || x.received_end) _ _ (λ a.
    Holds-guard _ (not f.queued) _ _ (λ b.
      put-Later s f.id x (record x { received_end = true }) v k
        (record {
          behind = e.sound.behind;
          credit = e.sound.credit;
          fits = e.sound.fits;
          window = e.sound.window;
        })))

pub raised :
    (s : Session) (id : ℕ)
    → IsSession s
    → s.last_id < id
    → id ≤ max_ids
    → IsSession (record s { last_id = id })
raised s id v l m = record {
  open_streams =
      All-map _ _ s.streams
        (λ e i. record {
          given = omega (arith, i.given);
          not_closed = i.not_closed;
          not_waiting = i.not_waiting;
          sound = i.sound;
        })
        v.open_streams;
  waiting = All-map _ _ s.connecting (λ i w. (omega (arith, w.0), w.1)) v.waiting;
  gone = All-map _ _ s.closed (λ i g. omega arith) v.gone;
  load = v.load;
  ids = m;
  exit_only = v.exit_only;
}

-- A new identifier is being connected.
connecting-Later :
    (s : Session) (id : ℕ)
    → IsSession s
    → s.last_id < id
    → id ≤ max_ids
    → length s.streams + length s.connecting < max_streams
    → s.client ≡ false
    → Later s (record s { last_id = id; connecting = id ∷ s.connecting })
connecting-Later s id v l m room x =
    let w = raised s id v l m in
    (
      record {
        open_streams =
            All-map _ _ s.streams
              (λ e i. record {
                given = omega (arith, i.given);
                not_closed = i.not_closed;
                not_waiting = other e.0 s.connecting i.given i.not_waiting;
                sound = i.sound;
              })
              v.open_streams;
        waiting = ((omega arith, above-apart s.last_id id s.closed v.gone l), w.waiting);
        gone = w.gone;
        load = omega arith;
        ids = m;
        exit_only = λ c. cc (c, x);
      },
      λ i h. h,
    )
  where
    other :
        (i : ℕ) (ids : List ℕ)
        → i ≤ s.last_id
        → contains ids i ≡ false
        → contains (id ∷ ids) i ≡ false
    other i ids g n = ground (arith, l)

free_room : (n m : ℕ) → leb n m ≡ false → m < n
free_room n m h = ground arith

open_target-Kept :
    (utf8 : List ℕ → Bool) (has_policy : Bool) (now : ℕ) (s : Session) (id : ℕ) (body : List ℕ)
    → IsSession s
    → s.last_id < id
    → id ≤ max_ids
    → s.client ≡ false
    → Kept s (open_target utf8 has_policy now (record s { last_id = id }) id body)
open_target-Kept utf8 has_policy now s id body v l m x =
    Holds-if _ (leb max_streams (length s.streams + length s.connecting)) _ _
      (λ full. (raised s id v l m, λ i h. h))
      (λ room. Holds-guard _ (not (check_target body (decode_relay_target utf8 body))) _ _ (λ a.
        Holds-guard _ (not has_policy) _ _ (λ b.
          connecting-Later s id v l m
            (free_room max_streams (length s.streams + length s.connecting) room) x)))

-- The other end gives a stream up.
reset-Kept :
    (s : Session) (id : ℕ)
    → IsSession s
    → id ≤ s.last_id
    → Later s (close id (record s { connecting = without id s.connecting }))
reset-Kept s id v l =
    let t = record s { connecting = without id s.connecting } in
    close-Later t id (without-IsSession s id v) l (without-apart id s.connecting)

new_id :
    (a b : Bool) (n id : ℕ)
    → (a && (b && (ltb n id && leb id max_ids))) ≡ true
    → (n < id) × (id ≤ max_ids) × (a ≡ true)
new_id a b n id h = ground arith

exit_side : (b : Bool) → not b ≡ true → b ≡ false
exit_side b h = ground arith

old_id : (n id : ℕ) (b : Bool) → (ltb 0 id && (leb id n && b)) ≡ true → id ≤ n
old_id n id b h = ground arith

module _ (utf8 : List ℕ → Bool) (has_policy : Bool) (now : ℕ) (s : Session) (f : Frame)
    (v : IsSession s) where
  same-Kept : (b : Bool) (e : Stop) → Kept s (if b then ok s else err e)
  same-Kept true e = Later_refl s v
  same-Kept false e = tt

  guarded-Kept :
      (b : Bool) (e : Stop) (x : SessionError) (g : Stream → Stepped)
      → ((y : Stream)
          → find f.id s.streams ≡ some y
          → IsEntry s.last_id s.closed s.connecting (f.id, y)
          → Kept s (g y))
      → Kept s (if b then with_stream (find f.id s.streams) x g else err e)
  guarded-Kept b e x g h = Holds-if _ b _ _ (λ t. with_stream-Kept s f.id x g v h) (λ n. tt)

  receive-Kept : (c : CellCommand) → Kept s (receive utf8 has_policy now s f c)
  unfolding receive
  receive-Kept dummy = same-Kept ((f.id == 0) && is_empty f.body) _
  receive-Kept session_open =
      Holds-if _ (not s.client && (not s.peer_finish && (ltb s.last_id f.id && leb f.id max_ids))) _
        _
        (λ h.
          let (l, m, x) = new_id (not s.client) (not s.peer_finish) s.last_id f.id h in
          open_target-Kept utf8 has_policy now s f.id f.body v l m (exit_side s.client x))
        (λ n. tt)
  receive-Kept session_opened =
      guarded-Kept (s.client && is_empty f.body) _ _ (opened s f) (λ x k e. opened-Kept s f x v k e)
  receive-Kept session_refused =
      guarded-Kept (s.client && bytes_eq f.body (1 ∷ [])) _ _ (refuse s f)
        (λ x k e. refuse-Kept s f x v e)
  receive-Kept stream_data =
      with_stream-Kept s f.id _ (receive_data now s f) v
        (λ x k e. receive_data-Kept now s f x v k e)
  receive-Kept data_ack =
      with_stream-Kept s f.id _ (receive_ack s f) v (λ x k e. receive_ack-Kept s f x v k e)
  receive-Kept end =
      guarded-Kept (is_empty f.body) _ _ (receive_end now s f)
        (λ x k e. receive_end-Kept now s f x v k e)
  receive-Kept session_reset =
      Holds-if _ (ltb 0 f.id && (leb f.id s.last_id && is_empty f.body)) _ _
        (λ h. reset-Kept s f.id v (old_id s.last_id f.id (is_empty f.body) h)) (λ n. tt)
  receive-Kept session_finish =
      Holds-if _
        (not s.client
          && ((f.id == 0)
              && (is_empty f.body
                  && (is_empty s.streams && (is_empty s.connecting && not s.peer_finish)))))
        _ _ (λ h. Later_refl s v) (λ n. tt)
  receive-Kept session_finished =
      Holds-if _ (s.client && (s.finishing && ((f.id == 0) && is_empty f.body))) _ _ (λ h. tt)
        (λ n. tt)
  receive-Kept create = tt
  receive-Kept created = tt
  receive-Kept relay = tt
  receive-Kept destroy = tt
  receive-Kept extend = tt
  receive-Kept extended = tt
  receive-Kept session = tt
  receive-Kept session_accepted = tt

  pub on_frame-Kept : Kept s (on_frame utf8 has_policy now s f)
  on_frame-Kept =
      Holds-if (Later s) (contains s.closed f.id && late f.command) (ok s)
        (receive utf8 has_policy now s f f.command) (λ h. Later_refl s v)
        (λ n. receive-Kept f.command)
