-- ===== src/Smpp/Session/Closing.antt =====
-- Unbinding a session whose enquire-link timer is set.
use smppgw.Base.{◌≡◌, true, Bool, [], ◌∷◌, ◌++◌, arith, none}
use smppgw.Smpp.Session.{
  Session, close, is_open, unbind, on_enquirelink_cancelled, do_unset_enquirelink_timer, close_with,
  send_command_next, send_command, do_send, next_sequence_number,
}

-- An open session with a wait on the enquire-link timer is unbound, with a handler that does nothing:
-- the wait is cancelled, and when that is reported the session closes, before any answer of the peer.
pub on_enquirelink_cancelled-unbind :
    (force : Bool) (s : Session)
    → is_open s.state ≡ true
    → s.enquirelink_waiting ≡ true
    → ((unbind (λ t. t) force s).enquirelink_cancelled ≡ true)
      × ((on_enquirelink_cancelled (unbind (λ t. t) force s)).state ≡ close)
      × ((on_enquirelink_cancelled (unbind (λ t. t) force s)).closings ≡ s.closings ++ none ∷ [])
unfolding unbind on_enquirelink_cancelled do_unset_enquirelink_timer close_with send_command_next
    send_command do_send next_sequence_number
on_enquirelink_cancelled-unbind force s o w = ground (arith, o, w)
