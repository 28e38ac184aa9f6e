-- ===== src/Smpp/Session/Receiving.antt =====
-- What receiving keeps.
use smppgw.Base.{
  ℕ, zero, suc, ◌≡◌, refl, sym, ◌∙◌, inl, inr, Option, none, some, length, ◌==◌, if◌then◌else◌,
  Bool-cases, Option-cases,
}
use smppgw.Base.Results.{Exception, Result-cases}
use smppgw.Smpp.Byte.{Bytes}
use smppgw.Smpp.CommandId
use smppgw.Smpp.Session.{
  Session, State, opened, unbinding, close, ReceivingState, receiving, pending_pause, paused,
  unbind_resp_received, Header, is_open, is_closed, is_response, close_with,
}
use smppgw.Smpp.Session.Receive.{
  Handlers, Request, Response, consume, consume_request_pdu, consume_response_pdu, answer,
  read_request, read_by, request_readers, response_readers, lookup, receive_loop, receive,
  do_receive, resume_receiving, Received, prepare_read, wait_for,
}
use smppgw.Smpp.Session.Segments.{
  round, receive_loop_stop, receive_loop_undefined, receive_loop_more, receive_loop_zero,
  subst_some,
}
use smppgw.Smpp.Session.Operations.{
  IsCounted, IsSession, Keeps, Alike-IsSession, close_with-IsSession, send_command-IsSession,
}

-- Handlers act on the session through its operations, so they keep what those keep.
pub record AllKeep (handlers : Handlers) : Type 0 where
  pub request : (r : Request) (n : ℕ) → Keeps (handlers.request_handler r n)
  pub response : (r : Response) (n status : ℕ) → Keeps (handlers.response_handler r n status)
  pub available : Keeps handlers.send_buf_available_handler
  pub error :
      (e : Exception) (c : ℕ) (b : Bytes) → Keeps (handlers.deserialization_error_handler e c b)

module _ (handlers : Handlers) (keep : AllKeep handlers) where
  answer-IsSession : (command_id number : ℕ) → Keeps (answer handlers command_id number)
  unfolding answer
  answer-IsSession command_id number s w =
      elim (Bool-cases (command_id == CommandId.enquire_link)) [
        | inl e ↦ rw e (send_command-IsSession _ keep.available _ _ _ s w.counted)
        | inr e ↦ elim (Bool-cases (command_id == CommandId.unbind)) [
          | inl d ↦
              rw (e, d) (send_command-IsSession _ keep.available _ _ _ _ (leaving s w.counted))
          | inr d ↦ elim (Option-cases (lookup command_id request_readers)) [
            | inl n ↦ rw (e, d, n) (send_command-IsSession _ keep.available _ _ _ s w.counted)
            | inr (r, n) ↦ rw (e, d, n) w
          ]
        ]
      ]
    where
      unbound_closed :
          (x : State)
          → is_closed (elim x as (λ y. State) [ opened ↦ unbinding | t ↦ t ]) ≡ is_closed x
      unbound_closed opened = refl
      unbound_closed unbinding = refl
      unbound_closed close = refl

      leaving :
          (s : Session)
          → IsCounted s
          → IsCounted (record s { state = elim s.state [ opened ↦ unbinding | t ↦ t ] })
      leaving s w = record {
        closed_once = rw (unbound_closed s.state) w.closed_once;
        number_bound = w.number_bound;
      }

  consume_request_pdu-IsSession :
      (h : Header) (body : Bytes) → Keeps (consume_request_pdu handlers h body)
  unfolding consume_request_pdu
  consume_request_pdu-IsSession h body s w =
      let t = answer-IsSession h.command_id h.sequence s w in
      elim (Result-cases (read_request h.command_id body)) [
        | inr (x, e) ↦ rw (consume_request_pdu, e) (keep.error x h.command_id body _ t)
        | inl (none, e) ↦ rw (consume_request_pdu, e) t
        | inl (some r, e) ↦
            elim (Bool-cases (is_open (answer handlers h.command_id h.sequence s).state)) [
              | inl o ↦ rw (consume_request_pdu, e, o) (keep.request r h.sequence _ t)
              | inr o ↦ rw (consume_request_pdu, e, o) t
            ]
      ]

  abbrev after_unbind_resp : Header → Session → Session
  after_unbind_resp h s =
      if h.command_id == CommandId.unbind_resp then close_with unbind_resp_received s else s

  closed : (h : Header) → Keeps (after_unbind_resp h)
  closed h s w = elim (Bool-cases (h.command_id == CommandId.unbind_resp)) [
    | inl d ↦ rw d (close_with-IsSession unbind_resp_received s w)
    | inr d ↦ rw d w
  ]

  consume_response_pdu-IsSession :
      (h : Header) (body : Bytes) → Keeps (consume_response_pdu handlers h body)
  unfolding consume_response_pdu
  consume_response_pdu-IsSession h body s w =
      elim (Result-cases (read_by response_readers h.command_id body)) [
        | inr (x, e) ↦
            rw (consume_response_pdu, e) (keep.error x h.command_id body _ (closed h s w))
        | inl (none, e) ↦ rw (consume_response_pdu, e) (closed h s w)
        | inl (some r, e) ↦ elim (Bool-cases (is_open (after_unbind_resp h s).state)) [
          | inl o ↦
              rw (consume_response_pdu, e, o)
                (keep.response r h.sequence h.command_status _ (closed h s w))
          | inr o ↦ rw (consume_response_pdu, e, o) (closed h s w)
        ]
      ]

  consume-IsSession : (h : Header) (body : Bytes) → Keeps (consume handlers h body)
  unfolding consume
  consume-IsSession h body s w = elim (Bool-cases (is_response h.command_id)) [
    | inl e ↦ rw e (consume_response_pdu-IsSession h body s w)
    | inr e ↦ rw e (consume_request_pdu-IsSession h body s w)
  ]

  receive_loop-IsSession :
      (fuel : ℕ) (buf : Bytes) (s t : Session) (rest : Bytes)
      → IsSession s
      → receive_loop handlers fuel buf s ≡ some (t, rest)
      → IsSession t
  receive_loop-IsSession zero buf s t rest w e =
      subst_some (λ r. IsSession r.0) (sym (receive_loop_zero handlers buf s) ∙ e) w
  receive_loop-IsSession (suc fuel) buf s t rest w e = elim (round handlers buf s) [
    | inl h ↦
        subst_some (λ r. IsSession r.0) (sym (receive_loop_stop handlers (suc fuel) buf s h) ∙ e) w
    | inr (inl (h, d)) ↦ cc (receive_loop_undefined handlers fuel buf s h d)
    | inr (inr (h, d)) ↦
        receive_loop-IsSession fuel _ _ t rest (consume-IsSession _ _ s w)
          (sym (receive_loop_more handlers fuel buf s h d) ∙ e)
  ]

  wait_for-IsSession : (s : Session) (buf : Bytes) → IsSession s → IsSession (wait_for s buf).1
  unfolding wait_for
  wait_for-IsSession s buf w = waiting s.receiving_state
    where
      waiting :
          (r : ReceivingState)
          → IsSession
              (elim r as (λ x. Option Exception × Session × Bytes) [
                | pending_pause ↦ (none, record s { receiving_state = paused }, buf)
                | _ ↦ (prepare_read buf, s, buf)
              ]).1
      waiting receiving = w
      waiting pending_pause = Alike-IsSession s _ (refl, refl, refl, refl, refl) w
      waiting paused = w

  pub do_receive-IsSession :
      (buf : Bytes) (s t : Session) (x : Option Exception) (rest : Bytes)
      → IsSession s
      → do_receive handlers buf s ≡ some (x, t, rest)
      → IsSession t
  unfolding do_receive receive
  do_receive-IsSession buf s t x rest w e =
      elim (Option-cases (receive_loop handlers (length buf) buf s)) [
        | inl n ↦ cc (rw (do_receive, n) at e)
        | inr (r, d) ↦
            subst_some (λ y. IsSession y.1) (rw (do_receive, d) at e)
              (wait_for-IsSession r.0 r.1 (receive_loop-IsSession (length buf) buf s r.0 r.1 w d))
      ]

  pub resume_receiving-IsSession :
      (buf : Bytes) (s t : Session) (x : Option Exception) (rest : Bytes)
      → IsSession s
      → resume_receiving handlers buf s ≡ some (x, t, rest)
      → IsSession t
  unfolding resume_receiving
  resume_receiving-IsSession buf s t x rest w e = resumed s.receiving_state e
    where
      same : IsSession (record s { receiving_state = receiving })
      same = Alike-IsSession s _ (refl, refl, refl, refl, refl) w

      resumed :
          (r : ReceivingState)
          → (elim r as (λ y. Received) [
            | paused ↦ do_receive handlers buf (record s { receiving_state = receiving })
            | _ ↦ some (none, record s { receiving_state = receiving }, buf)
          ])
            ≡ some (x, t, rest)
          → IsSession t
      resumed receiving d = subst_some (λ y. IsSession y.1) d same
      resumed pending_pause d = subst_some (λ y. IsSession y.1) d same
      resumed paused d = do_receive-IsSession buf _ t x rest same d
