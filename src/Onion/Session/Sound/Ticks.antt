-- ===== src/Onion/Session/Sound/Ticks.antt =====
-- A tick of the clock keeps the state of src/onion/session.rs in order.
use anon_guard.Base.{
  ℕ, ◌+◌, ◌-◌, ◌≡◌, refl, inl, inr, Bool, true, false, not, ◌&&◌, Option, none, some, Option-cases,
  List, [], ◌∷◌, leb, ◌==◌, if◌then◌else◌, Bool-cases, All, All-map, u64_max, Result, Holds,
  Holds-bind, Holds-guard, Holds-if, ok, err,
}
use anon_guard.Onion.Cell.{session_finish, session_reset}
use anon_guard.Onion.Flow.{SendWindow, FlowError, send, available}
use anon_guard.Onion.Flow.Credit.{IsWindow, send-IsWindow}
use anon_guard.Onion.Session.Profile.{can_finish}
use anon_guard.Onion.Session.Outgoing.{Outgoing, TryRecvError, empty, disconnected, try_next}
use anon_guard.Onion.Session.State.{Session, Stream, Streams, Control, Stop, find, push, close}
use anon_guard.Onion.Session.Frame.{is_empty}
use anon_guard.Onion.Session.Run.{
  Picked, taken, from_queue, acked_or_next, offer, Selected, settle, pick, turn_order, popped,
  pop_control, from_streams, filled, or_control, select, is_retired, retire_all, cancel_all,
  after_write, answered, finish_part, on_tick,
}
use anon_guard.Onion.Session.Sound.{
  IsStream, IsEntry, IsSession, Later, Later_refl, Later_trans, find-All, close-Later, put-Later,
}

abbrev Offered : Picked → Type 0
Offered (x, c) = IsStream x

taken-Offered :
    (x : Stream) (o : Outgoing) (body : List ℕ) (r : Result SendWindow FlowError)
    → IsStream x
    → Holds IsWindow r
    → Holds Offered (taken x o body r)
taken-Offered x o body (err e) v w = tt
taken-Offered x o body (ok y) v w = record {
  behind = v.behind;
  credit = v.credit;
  fits = v.fits;
  window = w;
}

from_queue-Offered :
    (x : Stream) (r : Result (Outgoing × List ℕ) TryRecvError)
    → IsStream x
    → Holds Offered (from_queue x r)
from_queue-Offered x (ok (o, body)) v =
    taken-Offered x o body (send x.window) v (send-IsWindow x.window v.window)
from_queue-Offered x (err disconnected) v = record {
  behind = v.behind;
  credit = v.credit;
  fits = v.fits;
  window = v.window;
}
from_queue-Offered x (err empty) v = v

offer-Offered : (x : Stream) → IsStream x → Holds Offered (offer x)
offer-Offered x v =
    Holds-if Offered (not x.ready) (ok (x, none)) (acked_or_next x x.ack) (λ h. v)
      (λ h. acked x.ack)
  where
    acked : (o : Option ℕ) → Holds Offered (acked_or_next x o)
    acked (some a) = record {
      behind = v.behind;
      credit = v.credit;
      fits = v.fits;
      window = v.window;
    }
    acked none =
        Holds-if Offered (not x.sent_end && available x.window) (from_queue x (try_next x.outgoing))
          (ok (x, none)) (λ h. from_queue-Offered x (try_next x.outgoing) v) (λ h. v)

abbrev Selects : Session → Selected → Type 0
Selects s (t, c) = Later s t

settle-Selects :
    (s : Session) (id : ℕ) (x : Stream) (rest : Result Selected Stop)
    → IsSession s
    → find id s.streams ≡ some x
    → (p : Picked) → Offered p
    → Holds (Selects s) rest
    → Holds (Selects s) (settle s id rest p)
settle-Selects s id x rest v k (y, none) i r = r
settle-Selects s id x rest v k (y, some (c, b)) i r = put-Later s id x y v k i

pick-Selects : (s : Session) (ids : List ℕ) → IsSession s → Holds (Selects s) (pick s ids)
unfolding pick
pick-Selects s [] v = Later_refl s v
pick-Selects s (id ∷ ids) v = elim (Option-cases (find id s.streams)) [
  | inl n ↦ rw n tt
  | inr (x, k) ↦
      let e = find-All (IsEntry s.last_id s.closed s.connecting) id s.streams x v.open_streams k in
      rw k (
        Holds-bind Offered (Selects s) (offer x) (settle s id (pick s ids))
          (offer-Offered x e.sound)
          (λ p i. settle-Selects s id x (pick s ids) v k p i (pick-Selects s ids v)))
]

retire_all-Later :
    (xs : Streams) (s : Session)
    → IsSession s
    → All (IsEntry s.last_id [] s.connecting) xs
    → Later s (retire_all xs s)
unfolding retire_all
retire_all-Later [] s v h = Later_refl s v
retire_all-Later ((id, x) ∷ xs) s v (h, hs) = elim (Bool-cases (is_retired x)) [
  | inl done ↦ rw done (
      let c = close-Later s id v h.given h.not_waiting in
      Later_trans s (close id s) (retire_all xs (close id s)) c
        (retire_all-Later xs (close id s) c.0 hs))
  | inr on ↦ rw on (retire_all-Later xs s v hs)
]

cancel_all-Later :
    (reply_closed : ℕ → Bool) (xs : Streams) (s : Session)
    → IsSession s
    → All (IsEntry s.last_id [] s.connecting) xs
    → Later s (cancel_all reply_closed xs s)
unfolding cancel_all
cancel_all-Later reply_closed [] s v h = Later_refl s v
cancel_all-Later reply_closed ((id, x) ∷ xs) s v (h, hs) =
    elim (Bool-cases (x.reply && reply_closed id)) [
      | inl done ↦ rw done (
          let c = close-Later s id v h.given h.not_waiting in
          let t = push (session_reset, id, []) (close id s) in
          Later_trans s t (cancel_all reply_closed xs t) c
            (cancel_all-Later reply_closed xs t c.0 hs))
      | inr on ↦ rw on (cancel_all-Later reply_closed xs s v hs)
    ]

entries : (s : Session) → IsSession s → All (IsEntry s.last_id [] s.connecting) s.streams
entries s v =
    All-map _ _ s.streams
      (λ e i. record {
        given = i.given;
        not_closed = refl;
        not_waiting = i.not_waiting;
        sound = i.sound;
      })
      v.open_streams

abbrev pub Emits : Session → Session × List Control → Type 0
Emits s (t, cs) = Later s t

after_write-Emits :
    (s : Session) (success : Bool) (reply_closed : ℕ → Bool) (t : Session) (c : Control)
    → Later s t
    → Holds (Emits s) (after_write success reply_closed (t, c))
after_write-Emits s success reply_closed t c l = Holds-guard (Emits s) (not success) _ _ (λ a.
    Holds-guard (Emits s) (t.cells == u64_max) _ _ (λ b.
      let r = retire_all-Later t.streams (record t { cells = t.cells + 1 }) l.0 (entries t l.0) in
      let u = retire_all t.streams (record t { cells = t.cells + 1 }) in
      let k = cancel_all-Later reply_closed u.streams u r.0 (entries u r.0) in
      Later_trans s t (cancel_all reply_closed u.streams u) l
        (Later_trans t u (cancel_all reply_closed u.streams u) r k)))

popped-Selects : (s : Session) (cs : List Control) → IsSession s → Selects s (popped s cs)
popped-Selects s [] v = Later_refl s v
popped-Selects s (c ∷ cs) v = Later_refl s v

filled-Later : (s : Session) (r : Selected) → Selects s r → Later s (filled r).0
filled-Later s (t, some c) l = l
filled-Later s (t, none) l = l

or_control-Later : (s : Session) (r : Selected) → Selects s r → Later s (or_control r).0
or_control-Later s (t, some c) l = l
or_control-Later s (t, none) l =
    filled-Later s (popped t t.controls)
      (onward (popped t t.controls) (popped-Selects t t.controls l.0))
  where
    onward : (r : Selected) → Selects t r → Selects s r
    onward (u, c) k = Later_trans s t u l k

from_streams-Selects :
    (s : Session) (now : ℕ) (r : Selected) → Selects s r → Holds (Selects s) (from_streams now r)
from_streams-Selects s now (t, some c) l = l
from_streams-Selects s now (t, none) l =
    Holds-if (Selects s) (leb 1000000000 now) (pick t (turn_order t)) (ok (t, none))
      (λ h. onward (pick t (turn_order t)) (pick-Selects t (turn_order t) l.0)) (λ h. l)
  where
    onward : (r : Result Selected Stop) → Holds (Selects t) r → Holds (Selects s) r
    onward (ok (u, c)) k = Later_trans s t u l k
    onward (err e) k = tt

select-Later : (s : Session) (now : ℕ) → IsSession s → Holds (λ r. Later s r.0) (select now s)
select-Later s now v =
    let t = record s { prefer_control = not s.prefer_control } in
    Holds-bind (Selects s) (λ r. Later s r.0)
      (from_streams now (if t.prefer_control then pop_control t else (t, none)))
      (λ r. ok (or_control r))
      (from_streams-Selects s now (if t.prefer_control then pop_control t else (t, none))
        (first t.prefer_control))
      (λ r l. or_control-Later s r l)
  where
    first :
        (b : Bool)
        → Selects s (
            if b
            then popped (record s { prefer_control = not s.prefer_control }) s.controls
            else (record s { prefer_control = not s.prefer_control }, none))
    first true = popped-Selects (record s { prefer_control = not s.prefer_control }) s.controls v
    first false = Later_refl s v

finish_part-Later :
    (s : Session) (now : ℕ) (success : Bool)
    → IsSession s
    → Holds (Later s) (finish_part now success s)
finish_part-Later s now success v =
    Holds-if (Later s)
      ((is_empty s.streams && (is_empty s.connecting && is_empty s.controls))
        && can_finish s.profile now (now - s.activity) s.cells)
      (if s.client
        then ok (
            if not s.finishing
            then push (session_finish, 0, []) (record s { finishing = true })
            else s)
        else if s.peer_finish
        then err (answered success)
        else ok s)
      (ok s)
      (λ h.
        Holds-if (Later s) s.client _ (if s.peer_finish then err (answered success) else ok s)
          (λ c. asked (not s.finishing))
          (λ c.
            Holds-guard (Later s) s.peer_finish (answered success) (ok s) (λ p. Later_refl s v)))
      (λ h. Later_refl s v)
  where
    asked :
        (b : Bool)
        → Later s (if b then push (session_finish, 0, []) (record s { finishing = true }) else s)
    asked true = Later_refl s v
    asked false = Later_refl s v

pub on_tick-Emits :
    (s : Session) (now : ℕ) (success : Bool) (reply_closed : ℕ → Bool)
    → IsSession s
    → Holds (Emits s) (on_tick now success reply_closed s)
on_tick-Emits s now success reply_closed v =
    Holds-bind (Later s) (Emits s) (finish_part now success s) _ (finish_part-Later s now success v)
      (λ t l.
        Holds-bind (λ r. Later t r.0) (Emits s) (select now t) (after_write success reply_closed)
          (select-Later t now l.0)
          (λ r k. after_write-Emits s success reply_closed r.0 r.1 (Later_trans s t r.0 l k)))
