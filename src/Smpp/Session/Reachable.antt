-- ===== src/Smpp/Session/Reachable.antt =====
-- The states that a session reaches by its operations and by the events of its socket and timers.
use smppgw.Base.{ℕ, ◌≡◌, refl, inl, inr, Bool, [], Option, some, leb, arith, Bool-cases}
use smppgw.Base.Results.{Exception}
use smppgw.Smpp.Byte.{Bytes}
use smppgw.Smpp.Pdu.{Pdu}
use smppgw.Smpp.Session.{
  Session, system, inactivity, is_open, start, close_with, on_written, send_impl, send_request,
  unbind, bind, do_set_enquirelink_timer, do_unset_enquirelink_timer, on_enquirelink_timer,
  on_enquirelink_cancelled, on_inactivity_timer, pause_receiving, on_closed, set_send_buf_threshold,
}
use smppgw.Smpp.Session.Receive.{Handlers, on_received, resume_receiving, start_session}
use smppgw.Smpp.Session.Operations.{
  IsSession, Keeps, Alike-IsSession, close_with-IsSession, send_impl-IsSession,
  send_request-IsSession, on_written-IsSession, unbind-IsSession, on_enquirelink_timer-IsSession,
}
use smppgw.Smpp.Session.Receiving.{AllKeep, do_receive-IsSession, resume_receiving-IsSession}

module _ (IsHandlers : Handlers → Type 0) (IsCloseHandler : (Session → Session) → Type 0) where
  -- A session and its receive buffer, as operations and events reach it. The handlers are the ones that
  -- are set at the time, of those that are ever set: their owner may set others, and `close` clears them.
  pub data Reachable : Session → Bytes → Type 1 where
    started : Reachable start []
    sends :
        {s : Session} {buf : Bytes} {Args P : Type 0} (pdu : Pdu Args P) (p : P)
        (handlers : Handlers) (set : IsHandlers handlers)
        → Reachable s buf
        → Reachable (send_request handlers.send_buf_available_handler pdu p s).1 buf
    responds :
        {s : Session} {buf : Bytes} {Args P : Type 0} (pdu : Pdu Args P) (p : P) (number status : ℕ)
        (handlers : Handlers) (set : IsHandlers handlers)
        → Reachable s buf
        → Reachable (send_impl handlers.send_buf_available_handler pdu p number status s).1 buf
    written :
        {s : Session} {buf : Bytes} (handlers : Handlers) (set : IsHandlers handlers)
        → Reachable s buf
        → Reachable (on_written handlers.send_buf_available_handler s) buf
    unbinds :
        {s : Session} {buf : Bytes} (force : Bool) (handlers : Handlers) (set : IsHandlers handlers)
        → Reachable s buf
        → Reachable (unbind handlers.send_buf_available_handler force s) buf
    binds : {s : Session} {buf : Bytes} → Reachable s buf → Reachable (bind s) buf
    pauses : {s : Session} {buf : Bytes} → Reachable s buf → Reachable (pause_receiving s) buf
    resumes :
        {s t : Session} {buf rest : Bytes} {x : Option Exception} (handlers : Handlers)
        (set : IsHandlers handlers)
        → Reachable s buf
        → resume_receiving handlers buf s ≡ some (x, t, rest)
        → Reachable t rest
    -- The chunk may leave the buffer without room for the next read: the exception leaves the session.
    received :
        {s t : Session} {buf rest : Bytes} {x : Option Exception} (chunk : Bytes)
        (handlers : Handlers) (set : IsHandlers handlers)
        → Reachable s buf
        → on_received handlers chunk buf s ≡ some (x, t, rest)
        → Reachable t rest
    inactive : {s : Session} {buf : Bytes} → Reachable s buf → Reachable (on_inactivity_timer s) buf
    asks :
        {s : Session} {buf : Bytes} (handlers : Handlers) (set : IsHandlers handlers)
        → Reachable s buf
        → Reachable (on_enquirelink_timer handlers.send_buf_available_handler s) buf
    cancels :
        {s : Session} {buf : Bytes} → Reachable s buf → Reachable (on_enquirelink_cancelled s) buf
    thresholds :
        {s : Session} {buf : Bytes} (size : ℕ)
        → Reachable s buf
        → Reachable (set_send_buf_threshold size s) buf
    starts :
        {s t : Session} {buf rest : Bytes} {x : Option Exception} (handlers : Handlers)
        (set : IsHandlers handlers)
        → Reachable s buf
        → start_session handlers buf s ≡ some (x, t, rest)
        → Reachable t rest
    closed :
        {s : Session} {buf : Bytes} (close_handler : Session → Session)
        → IsCloseHandler close_handler
        → Reachable s buf
        → Reachable (on_closed close_handler s) buf
    -- A read, a write or a wait that failed.
    fails : {s : Session} {buf : Bytes} → Reachable s buf → Reachable (close_with system s) buf

module _ {IsHandlers : Handlers → Type 0} {IsCloseHandler : (Session → Session) → Type 0}
    (keep : (handlers : Handlers) → IsHandlers handlers → AllKeep handlers)
    (closing : (close_handler : Session → Session)
      → IsCloseHandler close_handler
      → Keeps close_handler) where
  -- If the handlers that are ever set, the close handler among them, keep what the operations keep, then
  -- whatever the peer sends, and whatever happens to the socket and the timers while each read is
  -- defined: `close_handler` is posted once when the session closes and never before, sequence numbers
  -- stay in range, and no bytes wait while no write is under way.
  pub Reachable-IsSession :
      {s : Session} {buf : Bytes} → Reachable IsHandlers IsCloseHandler s buf → IsSession s
  unfolding bind do_set_enquirelink_timer do_unset_enquirelink_timer pause_receiving
      on_inactivity_timer on_enquirelink_cancelled resume_receiving on_received start_session
      set_send_buf_threshold on_closed
  Reachable-IsSession started = record {
    counted = record { closed_once = refl; number_bound = omega arith };
    none_wait = λ k. refl;
  }
  Reachable-IsSession (sends {s = s} pdu p handlers set r) =
      send_request-IsSession _ (keep handlers set).available pdu p s (Reachable-IsSession r)
  Reachable-IsSession (responds {s = s} pdu p number status handlers set r) =
      send_impl-IsSession _ (keep handlers set).available pdu p number status s
        (Reachable-IsSession r)
  Reachable-IsSession (written {s = s} handlers set r) =
      on_written-IsSession _ (keep handlers set).available s (Reachable-IsSession r)
  Reachable-IsSession (unbinds {s = s} force handlers set r) =
      unbind-IsSession _ (keep handlers set).available force s (Reachable-IsSession r)
  Reachable-IsSession (binds {s = s} r) = elim (Bool-cases (is_open s.state)) [
    | inl e ↦ rw e (Alike-IsSession s _ (refl, refl, refl, refl, refl) (Reachable-IsSession r))
    | inr e ↦ rw e (Reachable-IsSession r)
  ]
  Reachable-IsSession (pauses {s = s} r) =
      Alike-IsSession s _ (refl, refl, refl, refl, refl) (Reachable-IsSession r)
  Reachable-IsSession (resumes {s = s} handlers set r e) =
      resume_receiving-IsSession handlers (keep handlers set) _ s _ _ _ (Reachable-IsSession r) e
  Reachable-IsSession (received {s = s} chunk handlers set r e) =
      do_receive-IsSession handlers (keep handlers set) _ _ _ _ _
        (Alike-IsSession s _ (refl, refl, refl, refl, refl) (Reachable-IsSession r)) e
  Reachable-IsSession (inactive {s = s} r) = elim (Bool-cases (leb 1 s.inactivity_counter)) [
    | inl e ↦ rw e (close_with-IsSession inactivity s (Reachable-IsSession r))
    | inr e ↦ rw e (Alike-IsSession s _ (refl, refl, refl, refl, refl) (Reachable-IsSession r))
  ]
  Reachable-IsSession (asks {s = s} handlers set r) =
      on_enquirelink_timer-IsSession _ (keep handlers set).available s (Reachable-IsSession r)
  Reachable-IsSession (cancels {s = s} r) =
      close_with-IsSession system _
        (Alike-IsSession s _ (refl, refl, refl, refl, refl) (Reachable-IsSession r))
  Reachable-IsSession (fails {s = s} r) = close_with-IsSession system s (Reachable-IsSession r)
  Reachable-IsSession (thresholds {s = s} size r) =
      Alike-IsSession s _ (refl, refl, refl, refl, refl) (Reachable-IsSession r)
  Reachable-IsSession (starts {s = s} handlers set r e) =
      resume_receiving-IsSession handlers (keep handlers set) _ s _ _ _ (Reachable-IsSession r) e
  Reachable-IsSession (closed {s = s} close_handler set r) =
      Alike-IsSession (close_handler s) _ (refl, refl, refl, refl, refl)
        (closing close_handler set s (Reachable-IsSession r))
