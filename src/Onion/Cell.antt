-- ===== src/Onion/Cell.antt =====
-- src/onion/cell.rs: the 8192-byte protocol cells. A buffer is the list of its bytes.
pub mod Wire
use anon_guard.Base.{
  ℕ, ◌+◌, ◌-◌, ◌%◌, Option, none, some, List, ◌∷◌, ◌++◌, ltb, ◌==◌, if◌then◌else◌, length, take,
  drop, replicate, be16, be32, from_be, Result, ok, err,
}

abbrev pub onion_cell_size : ℕ
onion_cell_size = 8192

abbrev header_size : ℕ
header_size = 61

abbrev pub payload_size : ℕ
payload_size = 8131

pub data CellCommand : Type 0 where
  create created relay destroy extend extended stream_data data_ack dummy end : CellCommand
  session session_accepted session_open session_opened session_refused : CellCommand
  session_finish session_finished session_reset : CellCommand

-- `command as u8`
unfoldable pub to_u8 : CellCommand → ℕ
to_u8 create = 1
to_u8 created = 2
to_u8 relay = 3
to_u8 destroy = 4
to_u8 extend = 5
to_u8 extended = 6
to_u8 stream_data = 7
to_u8 data_ack = 8
to_u8 dummy = 9
to_u8 end = 10
to_u8 session = 11
to_u8 session_accepted = 12
to_u8 session_open = 13
to_u8 session_opened = 14
to_u8 session_refused = 15
to_u8 session_finish = 16
to_u8 session_finished = 17
to_u8 session_reset = 18

pub from_u8 : ℕ → Option CellCommand
from_u8 b =
    if b == 1
    then some create
    else if b == 2
    then some created
    else if b == 3
    then some relay
    else if b == 4
    then some destroy
    else if b == 5
    then some extend
    else if b == 6
    then some extended
    else if b == 7
    then some stream_data
    else if b == 8
    then some data_ack
    else if b == 9
    then some dummy
    else if b == 10
    then some end
    else if b == 11
    then some session
    else if b == 12
    then some session_accepted
    else if b == 13
    then some session_open
    else if b == 14
    then some session_opened
    else if b == 15
    then some session_refused
    else if b == 16
    then some session_finish
    else if b == 17
    then some session_finished
    else if b == 18
    then some session_reset
    else none

pub record OnionCell : Type 0 where
  pub circuit_id : ℕ
  pub sequence_no : ℕ
  pub command : CellCommand
  pub stream_id : ℕ
  pub len : ℕ
  pub ephemeral_key : List ℕ
  pub mac : List ℕ
  pub payload : List ℕ

pub data CellError : Type 0 where
  payload_too_long unknown_command length_too_long : CellError

-- `random` is what the generator fills the 32 padding bytes with.
unfoldable pub new :
    (random : List ℕ) → ℕ → ℕ → CellCommand → ℕ → List ℕ → Result OnionCell CellError
new random circuit_id sequence_no command stream_id body =
    if ltb payload_size (length body)
    then err payload_too_long
    else ok (record {
      circuit_id = circuit_id;
      sequence_no = sequence_no;
      command = command;
      stream_id = stream_id;
      len = length body % 65536;
      ephemeral_key = random;
      mac = replicate 16 0;
      payload = body ++ replicate (payload_size - length body) 0;
    })

-- The fields tile the buffer: the copies of the source start where the one before ends.
unfoldable pub serialize : OnionCell → List ℕ
unfolding to_u8
serialize c =
    be32 c.circuit_id
    ++ (be32 c.sequence_no
        ++ (to_u8 c.command
            ∷ (be16 c.stream_id ++ (be16 c.len ++ (c.ephemeral_key ++ (c.payload ++ c.mac))))))

-- `&buf[from..to]`
abbrev pub slice : ℕ → ℕ → List ℕ → List ℕ
slice from to buf = take (to - from) (drop from buf)

abbrev pub byte_at : ℕ → List ℕ → ℕ
byte_at i buf = from_be (slice i (i + 1) buf)

pub parse_with : Option CellCommand → List ℕ → Result OnionCell CellError
parse_with none buf = err unknown_command
parse_with (some command) buf =
    let len = from_be (slice 11 13 buf) in
    if ltb payload_size len
    then err length_too_long
    else ok (record {
      circuit_id = from_be (slice 0 4 buf);
      sequence_no = from_be (slice 4 8 buf);
      command = command;
      stream_id = from_be (slice 9 11 buf);
      len = len;
      ephemeral_key = slice 13 45 buf;
      mac = slice (onion_cell_size - 16) onion_cell_size buf;
      payload = slice 45 (45 + payload_size) buf;
    })

pub parse : List ℕ → Result OnionCell CellError
unfolding parse_with from_u8
parse buf = parse_with (from_u8 (byte_at 8 buf)) buf
