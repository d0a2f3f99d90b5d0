-- ===== src/Onion/Session/State.antt =====
-- The state of `run` of src/onion/session.rs. Times are nanoseconds since the session started.
-- Tasks, channels and sockets are left out: what they deliver comes with the events.
use anon_guard.Base.{
  ℕ, Bool, true, false, not, Option, none, some, List, [], ◌∷◌, ◌++◌, map, ltb, ◌==◌, if◌then◌else◌,
  retain,
}
use anon_guard.Onion.Cell.{CellCommand}
use anon_guard.Onion.Flow.{SendWindow, fresh}
use anon_guard.Onion.Session.Outgoing.{Outgoing}
use anon_guard.Onion.Session.Profile.{Profile}

abbrev pub max_streams : ℕ
max_streams = 16

abbrev pub max_controls : ℕ
max_controls = 64

abbrev pub max_ids : ℕ
max_ids = 1024

abbrev pub lifetime : ℕ
lifetime = 300000000000

-- `reply` and `application` are whether the option holds something.
pub record Stream : Type 0 where
  pub outgoing : Outgoing
  pub window : SendWindow
  pub received : ℕ
  pub written : ℕ
  pub ack : Option ℕ
  pub sent_end : Bool
  pub received_end : Bool
  pub ready : Bool
  pub reply : Bool
  pub application : Bool

-- What `attach` returns.
abbrev pub attach : Stream
attach = record {
  outgoing = record { queue = []; open_end = true; pending = none };
  window = fresh;
  received = 0;
  written = 0;
  ack = none;
  sent_end = false;
  received_end = false;
  ready = true;
  reply = false;
  application = false;
}

-- A command, the stream and the data of a cell.
abbrev pub Control : Type 0
Control = CellCommand × ℕ × List ℕ

abbrev pub Streams : Type 0
Streams = List (ℕ × Stream)

pub record Session : Type 0 where
  pub client : Bool
  pub profile : Profile
  pub streams : Streams
  pub connecting : List ℕ
  pub closed : List ℕ
  pub controls : List Control
  pub last_id : ℕ
  pub cursor : ℕ
  pub cells : ℕ
  pub activity : ℕ
  pub finishing : Bool
  pub peer_finish : Bool
  pub prefer_control : Bool

pub data SessionError : Type 0 where
  lifetime_expired control_budget unknown_stream duplicate_open missing_reply refused_after_open
        credit_violation count_exhausted queue_exhausted early_ack flow_violation duplicate_end
        invalid_command truncated rate_budget owner_closed invalid_write unexpected_connect
        noncanonical missing_policy bad_cell write_failed worker_panicked :
      SessionError

-- The session ends well, with the cells that are written last, or with an error.
pub data Stop : Type 0 where
  finished : List Control → Stop
  failed : SessionError → Stop

abbrev pub new_session : Bool → Profile → Session
new_session client profile = record {
  client = client;
  profile = profile;
  streams = [];
  connecting = [];
  closed = [];
  controls = [];
  last_id = 0;
  cursor = 0;
  cells = 0;
  activity = 0;
  finishing = false;
  peer_finish = false;
  prefer_control = false;
}

-- The map of the streams, in the order of the identifiers.
unfoldable pub find : ℕ → Streams → Option Stream
find id [] = none
find id ((i, x) ∷ xs) = if i == id then some x else find id xs

abbrev pub is_not : ℕ → ℕ → Bool
is_not id i = not (i == id)

abbrev pub delete : ℕ → Streams → Streams
delete id xs = retain (λ e. is_not id e.0) xs

-- A stream that `get_mut` gave out is written back.
abbrev put_at : ℕ → Stream → ℕ × Stream → ℕ × Stream
put_at id x (i, y) = if i == id then (i, x) else (i, y)

abbrev pub put : ℕ → Stream → Streams → Streams
put id x xs = map (put_at id x) xs

unfoldable pub insert_stream : ℕ → Stream → Streams → Streams
insert_stream id x [] = (id, x) ∷ []
insert_stream id x ((i, y) ∷ xs) =
    let rest = insert_stream id x xs in
    if ltb id i then (id, x) ∷ (i, y) ∷ xs else if id == i then (id, x) ∷ xs else (i, y) ∷ rest

abbrev pub without : ℕ → List ℕ → List ℕ
without id ids = retain (is_not id) ids

abbrev pub push : Control → Session → Session
push c s = record s { controls = s.controls ++ c ∷ [] }

-- A stream goes, and its identifier is closed.
abbrev pub close : ℕ → Session → Session
close id s = record s { streams = delete id s.streams; closed = id ∷ s.closed }
