-- ===== src/Smpp/Session.antt =====
-- libs/smpp/net/session.hpp: the state of a session, its header, sending, the timers and closing.
-- Receiving is in the child Receive. The socket is a parameter: the bytes it has taken are `sent`,
-- and an `async_write` is under way while `writing_send_buf` is not empty. A handler is a function on
-- the session, since the code it calls holds the session and may call its public operations; a
-- handler that is not set is the identity. The receive buffer is not part of this record, but an
-- argument of the operations that read it. A handler is without it: one that calls
-- `resume_receiving` on a session that is not paused is a handler of this kind, one that does so on a
-- paused session is not.
pub mod Receive
pub mod Idle
pub mod Segments
pub mod Frames
pub mod Sending
pub mod Delivery
pub mod Operations
pub mod Receiving
pub mod Reachable
pub mod Numbers
pub mod Closing
mod Tests
use Prim.Native.Nat.{bit_and}
use smppgw.Base.{
  ℕ, zero, suc, ◌+◌, ◌-◌, ◌^◌, ◌*◌, ◌/◌, ◌%◌, ◌<◌, ◌≡◌, Bool, true, false, not, ◌&&◌, ◌||◌, List,
  [], ◌∷◌, ◌++◌, Option, none, some, length, take, drop, get_or, replicate, ltb, leb, ◌==◌,
  if◌then◌else◌,
}
use smppgw.Base.Results.{Result, ok, throw, Exception, logic_error}
use smppgw.Smpp.Byte.{Bytes}
use smppgw.Smpp.Pdu.{Pdu, is_empty, serialize_to}
use smppgw.Smpp.CommandId

-- `state::open` is `opened`.
pub data State : Type 0 where
  opened unbinding close : State

pub data ReceivingState : Type 0 where
  receiving pending_pause paused : ReceivingState

-- The reasons that `close` is called with. `system` stands for an error code's message.
pub data Reason : Type 0 where
  unbind_resp_received inactivity system : Reason

pub record Session : Type 0 where
  pub state : State
  pub receiving_state : ReceivingState
  pub sequence_number : ℕ
  pub inactivity_counter : ℕ
  pub enquirelink_counter : ℕ
  -- A wait on the enquire-link timer is under way; a wait was cancelled and its handler is to run.
  pub enquirelink_waiting : Bool
  pub enquirelink_cancelled : Bool
  pub writing_send_buf : Bytes
  pub pending_send_buf : Bytes
  pub send_buf_threshold : ℕ
  pub sent : Bytes
  -- The calls of `close_handler` that were posted, with their `opt_error`.
  pub closings : List (Option Reason)

abbrev pub is_open : State → Bool
is_open opened = true
is_open _ = false

abbrev pub is_closed : State → Bool
is_closed close = true
is_closed _ = false

abbrev pub header_length : ℕ
header_length = 16

abbrev pub rok : ℕ
rok = 0x00000000

abbrev pub rinvcmdid : ℕ
rinvcmdid = 0x00000003

-- `session(socket, ...)`.
abbrev pub start : Session
start = record {
  state = opened;
  receiving_state = paused;
  sequence_number = 0;
  inactivity_counter = 0;
  enquirelink_counter = 0;
  enquirelink_waiting = false;
  enquirelink_cancelled = false;
  writing_send_buf = [];
  pending_send_buf = [];
  send_buf_threshold = 1024 * 1024;
  sent = [];
  closings = [];
}

pub record Header : Type 0 where
  pub command_length : ℕ
  pub command_id : ℕ
  pub command_status : ℕ
  pub sequence : ℕ

abbrev pub u32_bytes : ℕ → Bytes
u32_bytes val = (val / 16777216 % 256) ∷ (val / 65536 % 256) ∷ (val / 256 % 256) ∷ (val % 256) ∷ []

-- The four bytes from an index on; the caller has made sure that they are there.
abbrev pub u32_at : ℕ → Bytes → ℕ
u32_at i buf =
    get_or buf i 0 * 16777216
    + get_or buf (i + 1) 0 * 65536
    + get_or buf (i + 2) 0 * 256
    + get_or buf (i + 3) 0

unfoldable pub serialize_header : Header → Bytes
serialize_header h =
    u32_bytes h.command_length
    ++ (u32_bytes h.command_id ++ (u32_bytes h.command_status ++ u32_bytes h.sequence))

unfoldable pub deserialize_header : Bytes → Header
deserialize_header buf = record {
  command_length = u32_at 0 buf;
  command_id = u32_at 4 buf;
  command_status = u32_at 8 buf;
  sequence = u32_at 12 buf;
}

unfoldable pub is_response : ℕ → Bool
is_response command_id = not (bit_and command_id 0x80000000 == 0)

-- The number that is drawn, and the session after it. `++` on `uint32_t` wraps.
unfoldable pub next_sequence_number : Session → ℕ × Session
next_sequence_number s =
    let n = (s.sequence_number + 1) % 2 ^ 32 in
    let drawn = if ltb 0x7FFFFFFF n then 1 else n in (drawn, record s { sequence_number = drawn })

-- `close(reason)`. What it posts is `on_closed`.
unfoldable pub close_with : Reason → Session → Session
close_with reason s = if is_closed s.state then s else record s {
  state = close;
  closings = s.closings ++ (if is_open s.state then some reason else none) ∷ [];
}

-- `cancel` and `expires_after` make the handler of a wait that is under way run with an error code.
unfoldable pub do_unset_enquirelink_timer : Session → Session
do_unset_enquirelink_timer s = record s {
  enquirelink_waiting = false;
  enquirelink_cancelled = s.enquirelink_cancelled || s.enquirelink_waiting;
}

-- The function that `close` posts: `close_handler` is called and the timer's wait is cancelled. It
-- also clears the session's handlers, which are parameters of the operations here.
unfoldable pub on_closed : (Session → Session) → Session → Session
on_closed close_handler s = do_unset_enquirelink_timer (close_handler s)

unfoldable pub do_set_enquirelink_timer : Session → Session
do_set_enquirelink_timer s = record (do_unset_enquirelink_timer s) { enquirelink_waiting = true }

-- `send_buf_available_handler`.
module _ (send_buf_available : Session → Session) where
  -- `do_send`. The old `writing_send_buf_` is empty, so the swap empties `pending_send_buf_`.
  unfoldable pub do_send : Session → Session
  do_send s =
      let swapped = record s { writing_send_buf = s.pending_send_buf; pending_send_buf = [] } in
      if not (is_empty s.writing_send_buf)
      then s
      else if ltb s.send_buf_threshold (length s.pending_send_buf)
      then send_buf_available swapped
      else swapped

  -- The handler of `async_write`, without an error.
  unfoldable pub on_written : Session → Session
  on_written s =
      let cleared = record s { sent = s.sent ++ s.writing_send_buf; writing_send_buf = [] } in
      if is_empty s.pending_send_buf then cleared else do_send cleared

  -- `send_command(command_id, sequence_number, cmd_status)`.
  unfoldable pub send_command : ℕ → ℕ → ℕ → Session → Session
  send_command command_id number status s =
      let header = serialize_header (record {
        command_length = header_length;
        command_id = command_id;
        command_status = status;
        sequence = number;
      }) in
      do_send (record s { pending_send_buf = s.pending_send_buf ++ header })

  -- `send_command(command_id)`.
  unfoldable pub send_command_next : ℕ → Session → Session
  send_command_next command_id s =
      let drawn = next_sequence_number s in send_command command_id drawn.0 rok drawn.1

  -- `send_impl`, with the exception that leaves it, if one does. An exception of `serialize_to`
  -- leaves `pending_send_buf_` as it was. `command_length` is converted to `uint32_t`.
  unfoldable pub send_impl :
      {Args P : Type 0} → Pdu Args P → P → ℕ → ℕ → Session → Option Exception × Session
  send_impl pdu p number status s =
      let prev_size = length s.pending_send_buf in
      if not (is_open s.state)
      then (some logic_error, s)
      else elim (serialize_to pdu (s.pending_send_buf ++ replicate header_length 0) p) [
        | throw e ↦ (some e, s)
        | ok buf ↦
            let header = serialize_header (record {
              command_length = (length buf - prev_size) % 2 ^ 32;
              command_id = pdu.command_id_of p;
              command_status = status;
              sequence = number;
            }) in
            (
              none,
              do_send (record s {
                pending_send_buf = take prev_size buf ++ (header ++ drop (prev_size + 16) buf);
              }),
            )
      ]

  -- `send(pdu, sequence_number, command_status)` is `send_impl`; this is `send(pdu)`, with the
  -- number that it returns.
  unfoldable pub send_request :
      {Args P : Type 0} → Pdu Args P → P → Session → (Option Exception × ℕ) × Session
  send_request pdu p s =
      let drawn = next_sequence_number s in
      let result = send_impl pdu p drawn.0 rok drawn.1 in ((result.0, drawn.0), result.1)

  -- `unbind(force)`.
  unfoldable pub unbind : Bool → Session → Session
  unbind force s =
      let t = do_unset_enquirelink_timer (record s { state = unbinding }) in
      if is_open s.state then (if force then t else send_command_next CommandId.unbind t) else s

  -- The handler of the enquire-link timer when it expires.
  unfoldable pub on_enquirelink_timer : Session → Session
  on_enquirelink_timer s =
      let expired = record s { enquirelink_waiting = false } in
      let asked =
        if leb 1 s.enquirelink_counter && is_open s.state
        then send_command_next CommandId.enquire_link expired
        else expired in
      do_set_enquirelink_timer
        (record asked { enquirelink_counter = (asked.enquirelink_counter + 1) % 2 ^ 32 })

unfoldable pub bind : Session → Session
bind s = if is_open s.state then do_set_enquirelink_timer s else s

-- The handler of a wait on the enquire-link timer that was cancelled.
unfoldable pub on_enquirelink_cancelled : Session → Session
on_enquirelink_cancelled s = close_with system (record s { enquirelink_cancelled = false })

-- The handler of the inactivity timer, which nothing cancels.
unfoldable pub on_inactivity_timer : Session → Session
on_inactivity_timer s =
    if leb 1 s.inactivity_counter
    then close_with inactivity s
    else record s { inactivity_counter = s.inactivity_counter + 1 }

unfoldable pub pause_receiving : Session → Session
pause_receiving s = record s {
  receiving_state = elim s.receiving_state [ receiving ↦ pending_pause | r ↦ r ];
}

unfoldable pub set_send_buf_threshold : ℕ → Session → Session
set_send_buf_threshold size s = record s { send_buf_threshold = size }

unfoldable pub is_send_buf_above_threshold : Session → Bool
is_send_buf_above_threshold s = ltb s.send_buf_threshold (length s.pending_send_buf)
