-- ===== src/Smpp/Session/Delivery.antt =====
-- Sending on a session, and what the session at the other end makes of the bytes.
use smppgw.Base.{
  ℕ, ◌+◌, ◌-◌, ◌%◌, ◌^◌, ◌<◌, ◌≡◌, refl, ap, ap₂, ◌∙◌, true, false, ◌++◌, none, length, take, drop,
  replicate, arith, length-append, take-length_append, drop-length_append, append_assoc,
}
use smppgw.Base.Results.{ok}
use smppgw.Smpp.Byte.{Bytes}
use smppgw.Smpp.Wire.{AllFit}
use smppgw.Smpp.Pdu.{Pdu, serialize_to, deserialize}
use smppgw.Smpp.Pdu.RoundTrip.{deserialize-serialize_to}
use smppgw.Smpp.Session.{
  Session, Header, header_length, serialize_header, is_open, is_response, do_send, send_impl,
}
use smppgw.Smpp.Session.Receive.{
  Request, Handlers, is_receiving, read_as, read_request, answer, consume, consume_request_pdu,
  receive,
}
use smppgw.Smpp.Session.Frames.{receive-frame}
use smppgw.Smpp.Session.Sending.{stream, Appends, do_send-stream, regroup}

module _ {Args P : Type 0} (pdu : Pdu Args P) (p : P) (number status : ℕ) where
  abbrev pub header_of : Bytes → Header
  header_of body = record {
    command_length = (16 + length body) % 2 ^ 32;
    command_id = pdu.command_id_of p;
    command_status = status;
    sequence = number;
  }

  abbrev pub zeros : Bytes
  zeros = replicate header_length 0

  before_body :
      (pending body : Bytes) → drop (length pending + 16) ((pending ++ zeros) ++ body) ≡ body
  before_body pending body =
      ap (λ n. drop n ((pending ++ zeros) ++ body)) (omega (arith, length-append pending zeros))
      ∙ drop-length_append (pending ++ zeros) body

  pub patched :
      (pending body : Bytes)
      → take (length pending) ((pending ++ zeros) ++ body)
          ++ (serialize_header (record {
            command_length = (length ((pending ++ zeros) ++ body) - length pending) % 2 ^ 32;
            command_id = pdu.command_id_of p;
            command_status = status;
            sequence = number;
          })
              ++ drop (length pending + 16) ((pending ++ zeros) ++ body))
        ≡ pending ++ (serialize_header (header_of body) ++ body)
  patched pending body =
      let size : length ((pending ++ zeros) ++ body) - length pending ≡ 16 + length body =
        omega (arith, length-append (pending ++ zeros) body, length-append pending zeros) in
      ap₂ (λ a b. a ++ b)
        (ap (take (length pending)) (append_assoc pending zeros body)
          ∙ take-length_append pending (zeros ++ body))
        (ap₂
          (λ n b.
            serialize_header (record {
              command_length = n % 2 ^ 32;
              command_id = pdu.command_id_of p;
              command_status = status;
              sequence = number;
            })
            ++ b)
          size (before_body pending body))

  send_impl-serialized :
      (available : Session → Session) (s : Session) (body : Bytes)
      → is_open s.state ≡ true
      → serialize_to pdu (s.pending_send_buf ++ replicate header_length 0) p
        ≡ ok ((s.pending_send_buf ++ replicate header_length 0) ++ body)
      → send_impl available pdu p number status s ≡ (
        none,
        do_send available (record s {
          pending_send_buf = s.pending_send_buf ++ (serialize_header (header_of body) ++ body);
        }),
      )
  unfolding send_impl
  send_impl-serialized available s body o e =
      rw (o, e)
        (ap (λ b. (none, do_send available (record s { pending_send_buf = b })))
          (patched s.pending_send_buf body))

  -- The bytes of the message: the header and the body.
  abbrev pub message : Bytes → Bytes
  message body = serialize_header (header_of body) ++ body

  -- What the receiving session makes of the body under the message's command.
  abbrev pub Reads : Handlers → (P → Request) → Type 0
  Reads handlers inject =
      (is_response (pdu.command_id_of p) ≡ false)
      × ((body : Bytes)
          → read_request (pdu.command_id_of p) body
            ≡ read_as inject (deserialize pdu body (pdu.args p)))
      × ((n : ℕ) (s : Session) → answer handlers (pdu.command_id_of p) n s ≡ s)

  consume_request_pdu-Reads :
      (handlers : Handlers) (inject : P → Request) (body : Bytes) (s : Session)
      → Reads handlers inject
      → is_open s.state ≡ true
      → deserialize pdu body (pdu.args p) ≡ ok p
      → consume_request_pdu handlers (header_of body) body s
        ≡ handlers.request_handler (inject p) number s
  unfolding consume_request_pdu
  consume_request_pdu-Reads handlers inject body s (a, b, c) o e =
      rw (consume_request_pdu, b body, e, c number s, o) refl

  consume-Reads :
      (handlers : Handlers) (inject : P → Request) (body : Bytes) (s : Session)
      → Reads handlers inject
      → is_open s.state ≡ true
      → deserialize pdu body (pdu.args p) ≡ ok p
      → consume handlers (header_of body) body s ≡ handlers.request_handler (inject p) number s
  unfolding consume
  consume-Reads handlers inject body s reads o e =
      rw (reads.0) (consume_request_pdu-Reads handlers inject body s reads o e)

  -- A message whose members fit, with a command, a status and a number of 32 bits, sent on an open
  -- session whose handler only appends: the message is appended to the session's stream, and what was
  -- sent before does not change. An open, receiving session at the other end, if the command is one of a
  -- request that it reads and the message is shorter than 2 ^ 32 bytes, calls its request handler with
  -- the request that was sent and its number, and goes on with the bytes that follow.
  pub receive-send_impl :
      (available : Session → Session) (handlers : Handlers) (inject : P → Request)
      (sender receiver : Session)
      → Appends available
      → AllFit pdu.members (pdu.values p)
      → (number < 2 ^ 32) × (status < 2 ^ 32) × (pdu.command_id_of p < 2 ^ 32)
      → Reads handlers inject
      → is_open sender.state ≡ true
      → is_open receiver.state ≡ true
      → is_receiving receiver.receiving_state ≡ true
      → (body : Bytes) × (more : Bytes) × ((send_impl available pdu p number status sender).0
          ≡ none)
        × (stream (send_impl available pdu p number status sender).1
            ≡ stream sender ++ (message body ++ more))
        × ((rest : Bytes)
            → 16 + length body < 2 ^ 32
            → receive handlers (message body ++ rest) receiver
              ≡ receive handlers rest (handlers.request_handler (inject p) number receiver))
  receive-send_impl available handlers inject sender receiver grows fit (n, st, c) reads os or rr =
      let (body, written, read) =
        deserialize-serialize_to pdu (sender.pending_send_buf ++ zeros) p fit in
      let queued = record sender {
        pending_send_buf = sender.pending_send_buf ++ (serialize_header (header_of body) ++ body);
      } in
      let (more, d) = do_send-stream available queued grows in
      let sends = send_impl-serialized available sender body os written in
      (
        body,
        more,
        ap (λ r. r.0) sends,
        ap (λ r. stream r.1) sends
            ∙ d
            ∙ regroup sender.sent sender.writing_send_buf sender.pending_send_buf (message body)
                more,
        λ rest small.
            ap (λ b. receive handlers b receiver)
              (append_assoc (serialize_header (header_of body)) body rest)
            ∙ receive-frame handlers (header_of body) body rest receiver (omega arith, c, st, n)
                (omega (arith, small)) rr
            ∙ ap (receive handlers rest)
                (consume-Reads handlers inject body receiver reads or read),
      )
