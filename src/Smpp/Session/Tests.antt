-- ===== src/Smpp/Session/Tests.antt =====
-- The theorems of a session at concrete sessions.
use smppgw.Base.{
  ◌+◌, ◌^◌, ◌≤◌, ◌<◌, ◌≡◌, ◌≢◌, refl, sym, subst, true, false, [], ◌∷◌, ◌++◌, none, some, length,
  arith, append-nil,
}
use smppgw.Smpp.Byte.{Bytes}
use smppgw.Smpp.Pdu.Requests.{submit_sm_pdu}
use smppgw.Smpp.Tests.{greeting}
use smppgw.Smpp.Session.{
  Session, Header, receiving, close, start, serialize_header, deserialize_header, send_impl, bind,
  unbind, on_enquirelink_cancelled, is_response, send_command, do_send, do_set_enquirelink_timer,
  do_unset_enquirelink_timer,
}
use smppgw.Smpp.Session.Receive
use smppgw.Smpp.Session.Receive.{Handlers, submit_sm, receive, consume}
use smppgw.Smpp.Session.Segments.{receive-append}
use smppgw.Smpp.Session.Sending.{stream, Appends}
use smppgw.Smpp.Session.Delivery.{message, receive-send_impl}
use smppgw.Smpp.Session.Operations.{IsSession, Keeps}
use smppgw.Smpp.Session.Receiving.{AllKeep}
use smppgw.Smpp.Session.Reachable.{Reachable-IsSession, started, binds, unbinds}
use smppgw.Smpp.Session.Numbers.{draw, draw-distinct}
use smppgw.Smpp.Session.Idle.{Ends, WellFramed, framed, cut_header, receive-Ends}
use smppgw.Smpp.Session.Closing.{on_enquirelink_cancelled-unbind}

-- A server that counts the requests and the responses it is handed.
abbrev counting : Handlers
counting = record {
  request_handler = λ r n s. record s { inactivity_counter = s.inactivity_counter + 1 };
  response_handler = λ r n status s. record s { enquirelink_counter = s.enquirelink_counter + 1 };
  send_buf_available_handler = λ s. s;
  deserialization_error_handler = λ e c b s. s;
}

abbrev listening : Session
listening = record start { receiving_state = receiving }

abbrev enquire : Header
enquire = record { command_length = 16; command_id = 21; command_status = 0; sequence = 7 }

-- An enquire-link message, and the first two bytes of the next.
abbrev one_and_two : Bytes
one_and_two = 0 ∷ 0 ∷ 0 ∷ 16 ∷ 0 ∷ 0 ∷ 0 ∷ 21 ∷ 0 ∷ 0 ∷ 0 ∷ 0 ∷ 0 ∷ 0 ∷ 0 ∷ 7 ∷ 0 ∷ 0 ∷ []

abbrev others : Bytes
others = 0 ∷ 16 ∷ 0 ∷ 0 ∷ 0 ∷ 21 ∷ 0 ∷ 0 ∷ 0 ∷ 0 ∷ 0 ∷ 0 ∷ 0 ∷ 8 ∷ []

one_received :
    receive counting one_and_two listening
    ≡ some (consume counting enquire [] listening, 0 ∷ 0 ∷ [])
unfolding receive Receive.receive_loop deserialize_header consume is_response
    Receive.consume_request_pdu Receive.read_request Receive.answer send_command do_send
    serialize_header
one_received = refl

receive-append_example :
    receive counting (one_and_two ++ others) listening
    ≡ receive counting ((0 ∷ 0 ∷ []) ++ others) (consume counting enquire [] listening)
receive-append_example =
    receive-append counting one_and_two others listening (consume counting enquire [] listening)
      (0 ∷ 0 ∷ []) one_received

silent : Appends (λ s. s)
silent s = ([], sym (append-nil (stream s)))

receive-send_impl_example :
    (body : Bytes) × (more : Bytes) × ((send_impl (λ s. s) submit_sm_pdu greeting 5 0 start).0
      ≡ none)
    × (stream (send_impl (λ s. s) submit_sm_pdu greeting 5 0 start).1
        ≡ stream start ++ (message submit_sm_pdu greeting 5 0 body ++ more))
    × ((rest : Bytes)
        → 16 + length body < 2 ^ 32
        → receive counting (message submit_sm_pdu greeting 5 0 body ++ rest) listening
          ≡ receive counting rest (counting.request_handler (submit_sm greeting) 5 listening))
unfolding submit_sm_pdu Receive.read_request Receive.request_readers Receive.answer is_response
receive-send_impl_example =
    receive-send_impl submit_sm_pdu greeting 5 0 (λ s. s) counting submit_sm start listening silent
      (omega arith) (omega arith, omega arith, omega arith) (refl, λ body. refl, λ n s. refl) refl
      refl refl

keeps : AllKeep counting
keeps = record {
  request = λ r n s w. record {
    counted = record { closed_once = w.counted.closed_once; number_bound = w.counted.number_bound };
    none_wait = w.none_wait;
  };
  response = λ r n status s w. record {
    counted = record { closed_once = w.counted.closed_once; number_bound = w.counted.number_bound };
    none_wait = w.none_wait;
  };
  available = λ s w. w;
  error = λ e c b s w. w;
}

Reachable-IsSession_example : IsSession (unbind (λ s. s) false (bind start))
Reachable-IsSession_example =
    Reachable-IsSession {IsHandlers = λ h. h ≡ counting} {IsCloseHandler = λ f. f ≡ (λ s. s)}
      (λ h set. subst AllKeep (sym set) keeps) (λ f set. subst Keeps (sym set) (λ s w. w))
      (unbinds false counting refl (binds started))

draw-distinct_example :
    ((1 ≤ (draw 1 start).sequence_number) × ((draw 1 start).sequence_number ≤ 0x7FFFFFFF))
    × ((draw 1 start).sequence_number ≢ (draw 6 start).sequence_number)
draw-distinct_example = draw-distinct 0 5 start (omega arith) (omega arith) (omega arith)

on_enquirelink_cancelled-unbind_example :
    ((unbind (λ t. t) false (bind start)).enquirelink_cancelled ≡ true)
    × ((on_enquirelink_cancelled (unbind (λ t. t) false (bind start))).state ≡ close)
    × ((on_enquirelink_cancelled (unbind (λ t. t) false (bind start))).closings
        ≡ (bind start).closings ++ none ∷ [])
unfolding bind do_set_enquirelink_timer do_unset_enquirelink_timer
on_enquirelink_cancelled-unbind_example =
    on_enquirelink_cancelled-unbind false (bind start) refl refl

-- A whole message of sixteen bytes, and two bytes of the next.
one_and_two-WellFramed : WellFramed one_and_two
unfolding deserialize_header
one_and_two-WellFramed = framed refl (cut_header refl)

receive-Ends_example : Ends counting one_and_two listening
receive-Ends_example = receive-Ends counting one_and_two listening one_and_two-WellFramed
