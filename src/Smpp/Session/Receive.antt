-- ===== src/Smpp/Session/Receive.antt =====
-- libs/smpp/net/session.hpp: receiving. The messages that a session hands to its handlers, and the
-- loop of `do_receive` over the receive buffer.
use smppgw.Base.{
  ℕ, zero, suc, ◌-◌, ◌*◌, Bool, true, false, not, List, [], ◌∷◌, ◌++◌, Option, none, some, length,
  take, drop, ltb, ◌==◌, if◌then◌else◌,
}
use smppgw.Base.Results.{Result, ok, throw, ◌>>=◌, Exception, logic_error, length_error}
use smppgw.Smpp.Byte.{Bytes}
use smppgw.Smpp.CommandId
use smppgw.Smpp.CommandId.{BindType, transmitter, receiver, transceiver}
use smppgw.Smpp.Pdu.{deserialize}
use smppgw.Smpp.Pdu.Requests.{
  AlertNotification, alert_notification_pdu, BindRequest, bind_request_pdu, CancelSm, cancel_sm_pdu,
  DataSm, data_sm_pdu, DeliverSm, deliver_sm_pdu, QuerySm, query_sm_pdu, ReplaceSm, replace_sm_pdu,
  SubmitSm, submit_sm_pdu,
}
use smppgw.Smpp.Pdu.Responses.{
  BindResp, bind_resp_pdu, CancelSmResp, cancel_sm_resp_pdu, DataSmResp, data_sm_resp_pdu,
  DeliverSmResp, deliver_sm_resp_pdu, GenericNack, generic_nack_pdu, QuerySmResp, query_sm_resp_pdu,
  ReplaceSmResp, replace_sm_resp_pdu, SubmitSmResp, submit_sm_resp_pdu,
}
use smppgw.Smpp.Session.{
  Session, opened, unbinding, ReceivingState, receiving, pending_pause, paused, Header,
  header_length, deserialize_header, is_response, is_open, rok, rinvcmdid, send_command, close_with,
  unbind_resp_received,
}

-- The variants `request` and `response`; `monostate` is `none` of an `Option`.
pub data Request : Type 0 where
  bind_request : BindRequest → Request
  query_sm : QuerySm → Request
  submit_sm : SubmitSm → Request
  deliver_sm : DeliverSm → Request
  replace_sm : ReplaceSm → Request
  cancel_sm : CancelSm → Request
  alert_notification : AlertNotification → Request
  data_sm : DataSm → Request

pub data Response : Type 0 where
  generic_nack : GenericNack → Response
  bind_resp : BindResp → Response
  query_sm_resp : QuerySmResp → Response
  submit_sm_resp : SubmitSmResp → Response
  deliver_sm_resp : DeliverSmResp → Response
  replace_sm_resp : ReplaceSmResp → Response
  cancel_sm_resp : CancelSmResp → Response
  data_sm_resp : DataSmResp → Response

-- The handlers that receiving calls. A handler that is not set is the identity.
pub record Handlers : Type 0 where
  pub request_handler : Request → ℕ → Session → Session
  pub response_handler : Response → ℕ → ℕ → Session → Session
  pub send_buf_available_handler : Session → Session
  pub deserialization_error_handler : Exception → ℕ → Bytes → Session → Session

-- A value of the variant from the read of one of its types.
abbrev pub read_as : {P V : Type 0} → (P → V) → Result P → Result (Option V)
read_as inject r = r >>= λ p. ok (some (inject p))

-- The first entry with the key.
abbrev pub lookup : {A : Type 0} → ℕ → List (ℕ × A) → Option A
lookup k [] = none
lookup k ((j, v) ∷ m) = if k == j then some v else lookup k m

-- The cases of the `switch` of `consume_request_pdu` that read a request.
unfoldable pub request_readers : List (ℕ × (Bytes → Result (Option Request)))
request_readers =
    (
      CommandId.bind_transmitter,
      λ b. read_as bind_request (deserialize bind_request_pdu b transmitter),
    )
    ∷ (CommandId.bind_receiver, λ b. read_as bind_request (deserialize bind_request_pdu b receiver))
    ∷ (
      CommandId.bind_transceiver,
      λ b. read_as bind_request (deserialize bind_request_pdu b transceiver),
    )
    ∷ (CommandId.query_sm, λ b. read_as query_sm (deserialize query_sm_pdu b tt))
    ∷ (CommandId.submit_sm, λ b. read_as submit_sm (deserialize submit_sm_pdu b tt))
    ∷ (CommandId.deliver_sm, λ b. read_as deliver_sm (deserialize deliver_sm_pdu b tt))
    ∷ (CommandId.replace_sm, λ b. read_as replace_sm (deserialize replace_sm_pdu b tt))
    ∷ (CommandId.cancel_sm, λ b. read_as cancel_sm (deserialize cancel_sm_pdu b tt))
    ∷ (
      CommandId.alert_notification,
      λ b. read_as alert_notification (deserialize alert_notification_pdu b tt),
    )
    ∷ (CommandId.data_sm, λ b. read_as data_sm (deserialize data_sm_pdu b tt))
    ∷ []

unfoldable pub response_readers : List (ℕ × (Bytes → Result (Option Response)))
response_readers =
    (CommandId.generic_nack, λ b. read_as generic_nack (deserialize generic_nack_pdu b tt))
    ∷ (CommandId.enquire_link_resp, λ b. ok none)
    ∷ (CommandId.unbind_resp, λ b. ok none)
    ∷ (
      CommandId.bind_transmitter_resp,
      λ b. read_as bind_resp (deserialize bind_resp_pdu b transmitter),
    )
    ∷ (CommandId.bind_receiver_resp, λ b. read_as bind_resp (deserialize bind_resp_pdu b receiver))
    ∷ (
      CommandId.bind_transceiver_resp,
      λ b. read_as bind_resp (deserialize bind_resp_pdu b transceiver),
    )
    ∷ (CommandId.query_sm_resp, λ b. read_as query_sm_resp (deserialize query_sm_resp_pdu b tt))
    ∷ (CommandId.submit_sm_resp, λ b. read_as submit_sm_resp (deserialize submit_sm_resp_pdu b tt))
    ∷ (
      CommandId.deliver_sm_resp,
      λ b. read_as deliver_sm_resp (deserialize deliver_sm_resp_pdu b tt),
    )
    ∷ (
      CommandId.replace_sm_resp,
      λ b. read_as replace_sm_resp (deserialize replace_sm_resp_pdu b tt),
    )
    ∷ (CommandId.cancel_sm_resp, λ b. read_as cancel_sm_resp (deserialize cancel_sm_resp_pdu b tt))
    ∷ (CommandId.data_sm_resp, λ b. read_as data_sm_resp (deserialize data_sm_resp_pdu b tt))
    ∷ []

-- A command without a reader is an unknown PDU.
abbrev pub read_by :
    {V : Type 0} → List (ℕ × (Bytes → Result (Option V))) → ℕ → Bytes → Result (Option V)
read_by readers command_id buf = elim (lookup command_id readers) [
  | none ↦ throw logic_error
  | some r ↦ r buf
]

abbrev pub is_receiving : ReceivingState → Bool
is_receiving receiving = true
is_receiving _ = false

-- The `switch` of `consume_request_pdu`: enquire-link and unbind read nothing.
unfoldable pub read_request : ℕ → Bytes → Result (Option Request)
read_request command_id buf =
    if (command_id == CommandId.enquire_link)
    then ok none
    else if command_id == CommandId.unbind
    then ok none
    else read_by request_readers command_id buf

-- What a call of `do_receive` comes to: the exception that leaves it, if one does, the session and the
-- receive buffer. A call of which the source defines nothing is `none`.
abbrev pub Received : Type 0
Received = Option (Option Exception × Session × Bytes)

-- `receive_buf_.prepare(64 * 1024)` throws where the buffer of 1 MiB has less room than that
-- (`FlatBuffer.prepare`).
unfoldable pub prepare_read : Bytes → Option Exception
prepare_read buf = if ltb (1024 * 1024 - length buf) (64 * 1024) then some length_error else none

-- The end of `do_receive`: a pause that was asked for takes effect; otherwise `async_receive` waits.
unfoldable pub wait_for : Session → Bytes → Option Exception × Session × Bytes
wait_for s buf = elim s.receiving_state [
  | pending_pause ↦ (none, record s { receiving_state = paused }, buf)
  | _ ↦ (prepare_read buf, s, buf)
]

module _ (handlers : Handlers) where
  -- What the `switch` of `consume_request_pdu` does besides reading.
  unfoldable pub answer : ℕ → ℕ → Session → Session
  answer command_id number s =
      let available = handlers.send_buf_available_handler in
      if command_id == CommandId.enquire_link
      then send_command available CommandId.enquire_link_resp number rok s
      else if command_id == CommandId.unbind
      then send_command available CommandId.unbind_resp number rok
          (record s { state = elim s.state [ opened ↦ unbinding | t ↦ t ] })
      else elim (lookup command_id request_readers) [
        | none ↦ send_command available CommandId.generic_nack number rinvcmdid s
        | some r ↦ s
      ]

  unfoldable pub consume_request_pdu : Header → Bytes → Session → Session
  consume_request_pdu h buf s =
      let t = answer h.command_id h.sequence s in
      elim (read_request h.command_id buf) [
        | throw e ↦ handlers.deserialization_error_handler e h.command_id buf t
        | ok none ↦ t
        | ok (some r) ↦ if is_open t.state then handlers.request_handler r h.sequence t else t
      ]

  unfoldable pub consume_response_pdu : Header → Bytes → Session → Session
  consume_response_pdu h buf s =
      let t =
        if h.command_id == CommandId.unbind_resp then close_with unbind_resp_received s else s in
      elim (read_by response_readers h.command_id buf) [
        | throw e ↦ handlers.deserialization_error_handler e h.command_id buf t
        | ok none ↦ t
        | ok (some r) ↦
            if is_open t.state then handlers.response_handler r h.sequence h.command_status t else t
      ]

  -- One message, by its header and the bytes of its body.
  unfoldable pub consume : Header → Bytes → Session → Session
  consume h body s =
      if is_response h.command_id
      then consume_response_pdu h body s
      else consume_request_pdu h body s

  -- The loop of `do_receive`. A round whose `command_length` is at least that of the header takes so
  -- many bytes, so the length of the buffer is fuel enough. A `command_length` below that of the
  -- header makes a span whose end is before its begin, which is undefined: that is `none`, which
  -- says nothing of what the program does from there on, nor that it stops.
  unfoldable pub receive_loop : ℕ → Bytes → Session → Option (Session × Bytes)
  receive_loop zero buf s = some (s, buf)
  receive_loop (suc fuel) buf s =
      let h = deserialize_header buf in
      let body = take (h.command_length - header_length) (drop header_length buf) in
      let next = receive_loop fuel (drop h.command_length buf) (consume h body s) in
      if not (is_receiving s.receiving_state)
      then some (s, buf)
      else if ltb (length buf) header_length
      then some (s, buf)
      else if ltb (length buf) h.command_length
      then some (s, buf)
      else if ltb h.command_length header_length
      then none
      else next

  unfoldable pub receive : Bytes → Session → Option (Session × Bytes)
  receive buf s = receive_loop (length buf) buf s

  unfoldable pub do_receive : Bytes → Session → Received
  do_receive buf s = elim (receive buf s) [ none ↦ none | some (t, rest) ↦ some (wait_for t rest) ]

  -- The handler of `async_receive`, without an error.
  unfoldable pub on_received : Bytes → Bytes → Session → Received
  on_received chunk buf s = do_receive (buf ++ chunk) (record s {
    inactivity_counter = 0;
    enquirelink_counter = if is_open s.state then 0 else s.enquirelink_counter;
  })

  unfoldable pub resume_receiving : Bytes → Session → Received
  resume_receiving buf s =
      let resumed = record s { receiving_state = receiving } in
      elim s.receiving_state [ paused ↦ do_receive buf resumed | _ ↦ some (none, resumed, buf) ]

  -- `start()`. The wait on the inactivity timer that it sets can end at any time.
  unfoldable pub start_session : Bytes → Session → Received
  start_session buf s = resume_receiving buf s
