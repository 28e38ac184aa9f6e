-- ===== src/Smpp/Session/Sending.antt =====
-- The bytes that a session has sent, and what `do_send` does to them.
use smppgw.Base.{
  ◌≡◌, refl, sym, ap, ◌∙◌, ◌⊎◌, inl, inr, true, false, [], ◌∷◌, ◌++◌, length, ltb, Bool-cases,
  append_assoc, append-nil,
}
use smppgw.Smpp.Byte.{Bytes}
use smppgw.Smpp.Pdu.{is_empty}
use smppgw.Smpp.Session.{Session, do_send}

-- The bytes that the socket has taken, and those that wait for it.
abbrev pub stream : Session → Bytes
stream s = s.sent ++ (s.writing_send_buf ++ s.pending_send_buf)

-- A handler may send, but cannot take back or change what was sent before.
abbrev pub Appends : (Session → Session) → Type 0
Appends handler = (s : Session) → (more : Bytes) × (stream (handler s) ≡ stream s ++ more)

pub is_empty_eq : (b : Bytes) → is_empty b ≡ true → b ≡ []
is_empty_eq [] h = refl
is_empty_eq (x ∷ b) h = cc

abbrev pub swapped : Session → Session
swapped s = record s { writing_send_buf = s.pending_send_buf; pending_send_buf = [] }

pub do_send_cases :
    (available : Session → Session) (s : Session)
    → ((is_empty s.writing_send_buf ≡ false) × (do_send available s ≡ s))
      ⊎ ((s.writing_send_buf ≡ [])
          × ((do_send available s ≡ swapped s) ⊎ (do_send available s ≡ available (swapped s))))
unfolding do_send
do_send_cases available s = elim (Bool-cases (is_empty s.writing_send_buf)) [
  | inr e ↦ inl (e, rw e refl)
  | inl e ↦ inr (
    is_empty_eq _ e,
    elim (Bool-cases (ltb s.send_buf_threshold (length s.pending_send_buf))) [
      | inl d ↦ inr (rw (e, d) refl)
      | inr d ↦ inl (rw (e, d) refl)
    ],
  )
]

swapped-stream : (s : Session) → s.writing_send_buf ≡ [] → stream (swapped s) ≡ stream s
swapped-stream s e = rw (e, append-nil) refl

pub regroup : (a b c d e : Bytes) → (a ++ (b ++ (c ++ d))) ++ e ≡ (a ++ (b ++ c)) ++ (d ++ e)
regroup [] [] c d e = append_assoc c d e
regroup [] (x ∷ b) c d e = ap (λ l. x ∷ l) (regroup [] b c d e)
regroup (x ∷ a) b c d e = ap (λ l. x ∷ l) (regroup a b c d e)

pub do_send-stream :
    (available : Session → Session) (s : Session)
    → Appends available
    → (more : Bytes) × (stream (do_send available s) ≡ stream s ++ more)
do_send-stream available s h = elim (do_send_cases available s) [
  | inl (w, e) ↦ ([], ap stream e ∙ sym (append-nil _))
  | inr (w, inl e) ↦ ([], ap stream e ∙ swapped-stream s w ∙ sym (append-nil _))
  | inr (w, inr e) ↦
      let (more, d) = h (swapped s) in
      (more, ap stream e ∙ d ∙ ap (λ b. b ++ more) (swapped-stream s w))
]
