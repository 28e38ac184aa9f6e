-- ===== src/Smpp/Session/Operations.antt =====
-- What the operations of a session keep.
use smppgw.Base.{
  ℕ, ◌≤◌, ◌≡◌, refl, inl, inr, Bool, true, false, [], ◌∷◌, ◌++◌, none, some, length, replicate, leb,
  ◌&&◌, if◌then◌else◌, arith, Bool-cases, length-append,
}
use smppgw.Base.Results.{Result-cases}
use smppgw.Smpp.CommandId
use smppgw.Smpp.Pdu.{Pdu, is_empty, serialize_to}
use smppgw.Smpp.Session.{
  Session, State, opened, unbinding, close, Reason, header_length, is_open, is_closed,
  next_sequence_number, close_with, do_send, on_written, send_command, send_command_next, send_impl,
  send_request, unbind, do_set_enquirelink_timer, do_unset_enquirelink_timer, on_enquirelink_timer,
}
use smppgw.Smpp.Session.Sending.{do_send_cases, swapped, is_empty_eq}

-- `close_handler` is posted once, when the session is closed, and sequence numbers stay in range.
pub record IsCounted (s : Session) : Type 0 where
  pub closed_once : length s.closings ≡ (if is_closed s.state then 1 else 0)
  pub number_bound : s.sequence_number ≤ 0x7FFFFFFF

-- Besides, no bytes wait while no write is under way.
pub record IsSession (s : Session) : Type 0 where
  pub counted : IsCounted s
  pub none_wait : is_empty s.writing_send_buf ≡ true → s.pending_send_buf ≡ []

abbrev pub Keeps : (Session → Session) → Type 0
Keeps f = (s : Session) → IsSession s → IsSession (f s)

-- The fields that the invariant speaks of are those of another session.
abbrev pub Alike : Session → Session → Type 0
Alike s t =
    (t.state ≡ s.state)
    × (t.sequence_number ≡ s.sequence_number)
    × (t.closings ≡ s.closings)
    × (t.writing_send_buf ≡ s.writing_send_buf)
    × (t.pending_send_buf ≡ s.pending_send_buf)

Alike-IsCounted : (s t : Session) → Alike s t → IsCounted s → IsCounted t
Alike-IsCounted s t (a, b, c, d, e) w = record {
  closed_once = rw (a, c) w.closed_once;
  number_bound = rw b w.number_bound;
}

pub Alike-IsSession : (s t : Session) → Alike s t → IsSession s → IsSession t
Alike-IsSession s t (a, b, c, d, e) w = record {
  counted = Alike-IsCounted s t (a, b, c, d, e) w.counted;
  none_wait = rw (d, e) w.none_wait;
}

open_not_closed : (x : State) → is_open x ≡ true → is_closed x ≡ false
open_not_closed opened e = refl
open_not_closed unbinding e = refl
open_not_closed close e = cc

pub close_with-IsSession : (reason : Reason) → Keeps (close_with reason)
unfolding close_with
close_with-IsSession reason s w = elim (Bool-cases (is_closed s.state)) [
  | inl e ↦ rw e w
  | inr e ↦ rw e (record {
    counted = record {
      closed_once = omega (
        arith,
        length-append s.closings ((if is_open s.state then some reason else none) ∷ []),
        rw e at w.counted.closed_once,
      );
      number_bound = w.counted.number_bound;
    };
    none_wait = w.none_wait;
  })
]

next_sequence_number-IsCounted : (s : Session) → IsCounted s → IsCounted (next_sequence_number s).1
unfolding next_sequence_number
next_sequence_number-IsCounted s w = record {
  closed_once = w.closed_once;
  number_bound = ground (arith, w.number_bound);
}

module _ (available : Session → Session) (keeps : Keeps available) where
  do_send-IsSession : (s : Session) → IsCounted s → IsSession (do_send available s)
  do_send-IsSession s w = elim (do_send_cases available s) [
    | inl (busy, e) ↦ rw e (record { counted = w; none_wait = λ k. cc })
    | inr (idle, inl e) ↦ rw e (swapped_whole s w)
    | inr (idle, inr e) ↦ rw e (keeps (swapped s) (swapped_whole s w))
  ]
    where
      swapped_whole : (s : Session) → IsCounted s → IsSession (swapped s)
      swapped_whole s w = record {
        counted = record { closed_once = w.closed_once; number_bound = w.number_bound };
        none_wait = λ k. refl;
      }

  pub send_command-IsSession :
      (command_id number status : ℕ) (s : Session)
      → IsCounted s
      → IsSession (send_command available command_id number status s)
  unfolding send_command
  send_command-IsSession command_id number status s w =
      do_send-IsSession _ (record { closed_once = w.closed_once; number_bound = w.number_bound })

  send_command_next-IsSession :
      (command_id : ℕ) (s : Session)
      → IsCounted s
      → IsSession (send_command_next available command_id s)
  unfolding send_command_next
  send_command_next-IsSession command_id s w =
      send_command-IsSession command_id _ _ _ (next_sequence_number-IsCounted s w)

  module _ {Args P : Type 0} (pdu : Pdu Args P) (p : P) where
    pub send_impl-IsSession :
        (number status : ℕ) → Keeps (λ s. (send_impl available pdu p number status s).1)
    unfolding send_impl
    send_impl-IsSession number status s w = elim (Bool-cases (is_open s.state)) [
      | inr e ↦ rw e w
      | inl e ↦
          elim (Result-cases
            (serialize_to pdu (s.pending_send_buf ++ replicate header_length 0) p)) [
              | inr (x, d) ↦ rw (e, d) w
              | inl (buf, d) ↦
                  rw (e, d)
                    (do_send-IsSession _ (record {
                      closed_once = w.counted.closed_once;
                      number_bound = w.counted.number_bound;
                    }))
            ]
    ]

    pub send_request-IsSession : Keeps (λ s. (send_request available pdu p s).1)
    unfolding send_request next_sequence_number
    send_request-IsSession s w =
        send_impl-IsSession _ _ _
          (record { counted = next_sequence_number-IsCounted s w.counted; none_wait = w.none_wait })

  pub on_written-IsSession : Keeps (on_written available)
  unfolding on_written
  on_written-IsSession s w = elim (Bool-cases (is_empty s.pending_send_buf)) [
    | inl e ↦ rw e (record {
      counted = record {
        closed_once = w.counted.closed_once;
        number_bound = w.counted.number_bound;
      };
      none_wait = λ k. is_empty_eq _ e;
    })
    | inr e ↦ rw e (
        do_send-IsSession _
          (record { closed_once = w.counted.closed_once; number_bound = w.counted.number_bound }))
  ]

  pub unbind-IsSession : (force : Bool) → Keeps (unbind available force)
  unfolding unbind do_unset_enquirelink_timer
  unbind-IsSession force s w = elim (Bool-cases (is_open s.state)) [
    | inr e ↦ rw e w
    | inl e ↦ elim (Bool-cases force) [
      | inl f ↦ rw (e, f) (record { counted = unbound s w.counted e; none_wait = w.none_wait })
      | inr f ↦ rw (e, f) (send_command_next-IsSession _ _ (unbound s w.counted e))
    ]
  ]
    where
      unbound :
          (s : Session)
          → IsCounted s
          → is_open s.state ≡ true
          → IsCounted (do_unset_enquirelink_timer (record s { state = unbinding }))
      unbound s w e = record {
        closed_once = rw (open_not_closed s.state e) at w.closed_once;
        number_bound = w.number_bound;
      }

  pub on_enquirelink_timer-IsSession : Keeps (on_enquirelink_timer available)
  unfolding on_enquirelink_timer do_set_enquirelink_timer do_unset_enquirelink_timer
  on_enquirelink_timer-IsSession s w =
      elim (Bool-cases (leb 1 s.enquirelink_counter && is_open s.state)) [
        | inl e ↦ rw e (
            Alike-IsSession
              (send_command_next available CommandId.enquire_link
                (record s { enquirelink_waiting = false }))
              _ (refl, refl, refl, refl, refl)
              (send_command_next-IsSession _ _
                (Alike-IsCounted s _ (refl, refl, refl, refl, refl) w.counted)))
        | inr e ↦ rw e (Alike-IsSession s _ (refl, refl, refl, refl, refl) w)
      ]
