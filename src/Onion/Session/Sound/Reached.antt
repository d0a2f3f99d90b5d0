-- ===== src/Onion/Session/Sound/Reached.antt =====
-- Runs of src/onion/session.rs: any number of rounds, with any events at any times.
use anon_guard.Base.{
  ℕ, ◌≡◌, refl, subst, Bool, true, false, not, ◌||◌, inl, inr, none, Option-cases, List, [], ◌∷◌,
  arith, ltb, leb, length, contains, Result, Holds, Holds-bind, Holds-guard, Holds-if, ok, err,
  ◌>>=◌,
}
use anon_guard.Onion.Session.Profile.{Profile}
use anon_guard.Onion.Session.Outgoing.{Outgoing}
use anon_guard.Onion.Session.State.{
  Session, Stop, failed, owner_closed, lifetime, max_controls, new_session, find,
}
use anon_guard.Onion.Session.Frame.{Stepped, open_request}
use anon_guard.Onion.Session.Run.{
  Incoming, gone, over_budget, refused, arrived, Event, tick, asked, owner_gone, panicked, written,
  connected, task_error, incoming, queued, hung_up, silent, fed, on_incoming, handle, round,
}
use anon_guard.Onion.Session.Sound.{
  IsEntry, IsSession, Later, Later_refl, Later_trans, find-All, put-Later,
}
use anon_guard.Onion.Session.Sound.Frames.{Kept, on_frame-Kept}
use anon_guard.Onion.Session.Sound.Events.{
  write_done-Kept, connect_done-Kept, task_failed-Kept, open_request-Kept,
}
use anon_guard.Onion.Session.Sound.Ticks.{Emits, on_tick-Emits}

silent-Emits : (s : Session) (r : Stepped) → Kept s r → Holds (Emits s) (silent r)
silent-Emits s (ok t) k = k
silent-Emits s (err e) k = tt

fed-Later :
    (s : Session) (id : ℕ) (f : Outgoing → Outgoing)
    → IsSession s
    → Later s (fed s id (find id s.streams) f)
fed-Later s id f v = elim (Option-cases (find id s.streams)) [
  | inl n ↦ rw n (Later_refl s v)
  | inr (x, k) ↦
      let e = find-All (IsEntry s.last_id s.closed s.connecting) id s.streams x v.open_streams k in
      rw k (
        put-Later s id x (record x { outgoing = f x.outgoing }) v k
          (record {
            behind = e.sound.behind;
            credit = e.sound.credit;
            fits = e.sound.fits;
            window = e.sound.window;
          }))
]

client_side : (c f : Bool) → (not c || f) ≡ false → c ≡ true
client_side c f h = ground arith

-- One round of the loop: when it is entered, when its event comes, and the event.
pub record Round : Type 0 where
  pub entered : ℕ
  pub now : ℕ
  pub event : Event

module _ (utf8 : List ℕ → Bool) (has_policy : Bool) where
  on_incoming-Kept :
      (now : ℕ) (s : Session) (i : Incoming)
      → IsSession s
      → Kept s (on_incoming utf8 has_policy now s i)
  on_incoming-Kept now s gone v = tt
  on_incoming-Kept now s over_budget v = tt
  on_incoming-Kept now s refused v = tt
  on_incoming-Kept now s (arrived f) v = on_frame-Kept utf8 has_policy now s f v

  handle-Emits :
      (now : ℕ) (s : Session) (e : Event)
      → IsSession s
      → Holds (Emits s) (handle utf8 has_policy now s e)
  handle-Emits now s (tick success reply_closed) v = on_tick-Emits s now success reply_closed v
  handle-Emits now s (asked host port) v =
      Holds-if (Emits s) (not s.client || s.finishing) (ok (s, []))
        (silent (open_request s now host port)) (λ h. Later_refl s v)
        (λ h.
          silent-Emits s (open_request s now host port)
            (open_request-Kept s now host port v (client_side s.client s.finishing h)))
  handle-Emits now s owner_gone v =
      Holds-if (Emits s) (not s.client || s.finishing) (ok (s, [])) (err (failed owner_closed))
        (λ h. Later_refl s v) (λ h. tt)
  handle-Emits now s panicked v = tt
  handle-Emits now s (written id count) v = silent-Emits s _ (write_done-Kept s id count v)
  handle-Emits now s (connected id success) v = silent-Emits s _ (connect_done-Kept s id success v)
  handle-Emits now s (task_error id) v = silent-Emits s _ (task_failed-Kept s id v)
  handle-Emits now s (incoming i) v = silent-Emits s _ (on_incoming-Kept now s i v)
  handle-Emits now s (queued id body) v = fed-Later s id _ v
  handle-Emits now s (hung_up id) v = fed-Later s id _ v

  round-Emits :
      (r : Round) (s : Session)
      → IsSession s
      → Holds (Emits s) (round utf8 has_policy r.entered r.now s r.event)
  round-Emits r s v = Holds-guard (Emits s) (leb lifetime r.entered) _ _ (λ a.
      Holds-guard (Emits s) (ltb max_controls (length s.controls)) _ _
        (λ b. handle-Emits r.now s r.event v))

  unfoldable pub run : Session → List Round → Result Session Stop
  run s [] = ok s
  run s (r ∷ rs) = round utf8 has_policy r.entered r.now s r.event >>= λ t. run t.0 rs

  run-Later : (s : Session) (rs : List Round) → IsSession s → Holds (Later s) (run s rs)
  unfolding run
  run-Later s [] v = Later_refl s v
  run-Later s (r ∷ rs) v =
      Holds-bind (Emits s) (Later s) (round utf8 has_policy r.entered r.now s r.event)
        (λ t. run t.0 rs) (round-Emits r s v)
        (λ t l. onward t.0 l (run t.0 rs) (run-Later t.0 rs l.0))
    where
      onward :
          (t : Session)
          → Later s t
          → (q : Result Session Stop) → Holds (Later t) q
          → Holds (Later s) q
      onward t l (ok u) k = Later_trans s t u l k
      onward t l (err e) k = tt

  new_session-IsSession :
      (client : Bool) (profile : Profile) → IsSession (new_session client profile)
  new_session-IsSession client profile = record {
    open_streams = tt;
    waiting = tt;
    gone = tt;
    load = omega arith;
    ids = omega arith;
    exit_only = λ c. refl;
  }

  -- Whatever happens to a new session on either side, as long as it runs there are at most 16
  -- streams, open or being connected, at most 1024 identifiers were given out, no identifier is
  -- two of open, being connected and closed, and on each stream at most 32 cells are received and
  -- not yet written, and at most 32 are in flight.
  pub run-IsSession :
      (client : Bool) (profile : Profile) (rs : List Round)
      → Holds IsSession (run (new_session client profile) rs)
  run-IsSession client profile rs =
      weaker (run (new_session client profile) rs)
        (run-Later (new_session client profile) rs (new_session-IsSession client profile))
    where
      weaker :
          (q : Result Session Stop)
          → Holds (Later (new_session client profile)) q
          → Holds IsSession q
      weaker (ok t) k = k.0
      weaker (err e) k = tt

  -- What is closed is not open.
  closed-away :
      (t : Session) (id : ℕ) → IsSession t → contains t.closed id ≡ true → find id t.streams ≡ none
  closed-away t id v c = elim (Option-cases (find id t.streams)) [
    | inl n ↦ n
    | inr (x, k) ↦ cc (
      (find-All (IsEntry t.last_id t.closed t.connecting) id t.streams x v.open_streams
          k).not_closed,
      c,
    )
  ]

  -- An identifier whose stream was closed is never that of an open stream again, however long the
  -- session runs on, whatever the peer sends.
  pub run-closed :
      (client : Bool) (profile : Profile) (before after : List Round) (s : Session) (id : ℕ)
      → run (new_session client profile) before ≡ ok s
      → contains s.closed id ≡ true
      → Holds (λ t. (find id t.streams ≡ none) × (contains t.closed id ≡ true)) (run s after)
  run-closed client profile before after s id h c = still (run s after) (
      run-Later s after
        (reached (run (new_session client profile) before) h (run-IsSession client profile before)))
    where
      reached : (q : Result Session Stop) → q ≡ ok s → Holds IsSession q → IsSession s
      reached (ok t) e v = subst (Holds IsSession) e v
      reached (err x) e v = cc

      still :
          (q : Result Session Stop)
          → Holds (Later s) q
          → Holds (λ t. (find id t.streams ≡ none) × (contains t.closed id ≡ true)) q
      still (ok t) k = (closed-away t id k.0 (k.1 id c), k.1 id c)
      still (err e) k = tt
