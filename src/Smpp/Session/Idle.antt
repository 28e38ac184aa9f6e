-- ===== src/Smpp/Session/Idle.antt =====
-- The loop of `do_receive` ends, within as many rounds as headers fit into the bytes that are there.
use smppgw.Base.{
  ℕ, zero, suc, ◌+◌, ◌*◌, ◌≤◌, ◌≡◌, ◌∙◌, true, false, some, length, drop, ltb, arith, inl, inr,
  length-drop, ltb_false→le,
}
use smppgw.Smpp.Byte.{Bytes}
use smppgw.Smpp.Session.{Session, header_length, deserialize_header}
use smppgw.Smpp.Session.Receive.{Handlers, receive}
use smppgw.Smpp.Session.Segments.{
  Stops, IsWhole, length_of, consumed, round, receive_loop_stop, receive_more, round_size,
}

abbrev pub announced : Bytes → ℕ
announced buf = (deserialize_header buf).command_length

-- The messages in the bytes, up to one that is not complete, all claim to be as long as their header
-- at least.
pub data WellFramed : Bytes → Type 0 where
  cut_header : {buf : Bytes} → ltb (length buf) header_length ≡ true → WellFramed buf
  cut_body : {buf : Bytes} → ltb (length buf) (announced buf) ≡ true → WellFramed buf
  framed :
      {buf : Bytes}
      → ltb (announced buf) header_length ≡ false
      → WellFramed (drop (announced buf) buf)
      → WellFramed buf

-- A number of rounds of the loop, each of which takes a whole message.
pub data Rounds (handlers : Handlers) : ℕ → Bytes → Session → Bytes → Session → Type 0 where
  here : {buf : Bytes} {s : Session} → Rounds handlers 0 buf s buf s
  taken :
      {n : ℕ} {buf rest : Bytes} {s t : Session}
      → IsWhole handlers buf s
      → Rounds handlers n (drop (length_of handlers buf) buf) (consumed handlers buf s) rest t
      → Rounds handlers (suc n) buf s rest t

-- The loop ends with nothing left that it could take, after rounds that took sixteen bytes each at least.
abbrev pub Ends : Handlers → Bytes → Session → Type 0
Ends handlers buf s =
    (n : ℕ) × (rest : Bytes) × (t : Session) × Rounds handlers n buf s rest t
    × (n * 16 + length rest ≤ length buf)
    × Stops handlers rest t
    × (receive handlers buf s ≡ some (t, rest))

module _ (handlers : Handlers) where
  whole_framed :
      (buf : Bytes) (s : Session)
      → IsWhole handlers buf s
      → WellFramed buf
      → (ltb (announced buf) header_length ≡ false) × WellFramed (drop (announced buf) buf)
  whole_framed buf s w (cut_header h) = cc
  whole_framed buf s w (cut_body h) = cc
  whole_framed buf s w (framed h rest) = (h, rest)

  Ends-more :
      (buf : Bytes) (s : Session)
      → IsWhole handlers buf s
      → ltb (announced buf) header_length ≡ false
      → Ends handlers (drop (announced buf) buf) (consumed handlers buf s)
      → Ends handlers buf s
  Ends-more buf s w h e =
      let long : 16 ≤ announced buf = ltb_false→le _ _ h in
      let there : announced buf ≤ length buf = ltb_false→le _ _ w.2 in
      let left = length-drop (announced buf) buf in
      (
        suc e.0,
        e.1,
        e.2,
        taken w e.3,
        omega (arith, e.4, left, long, there),
        e.5,
        receive_more handlers buf s w h ∙ e.6,
      )

  -- By the bytes that are there.
  Ends-fuel :
      (fuel : ℕ) (buf : Bytes) (s : Session)
      → length buf ≤ fuel
      → WellFramed buf
      → Ends handlers buf s
  unfolding receive
  Ends-fuel zero buf s enough wf =
      let stops = inr (inl (ground arith)) in
      (0, buf, s, here, omega arith, stops, receive_loop_stop handlers (length buf) buf s stops)
  Ends-fuel (suc fuel) buf s enough wf = elim (round handlers buf s) [
    | inl stops ↦
        (0, buf, s, here, omega arith, stops, receive_loop_stop handlers (length buf) buf s stops)
    | inr (inl (w, short)) ↦ let long = (whole_framed buf s w wf).0 in cc
    | inr (inr (w, long)) ↦ Ends-more buf s w long (
        Ends-fuel fuel (drop (announced buf) buf) (consumed handlers buf s)
          (round_size handlers fuel buf s w long enough) (whole_framed buf s w wf).1)
  ]

  -- Where no message of the bytes claims to be shorter than its header, the loop of `do_receive` ends
  -- from any session, whatever its handlers do: after rounds that each take a whole message, at most
  -- one for every sixteen bytes, with nothing left that it could take.
  pub receive-Ends : (buf : Bytes) (s : Session) → WellFramed buf → Ends handlers buf s
  receive-Ends buf s wf = Ends-fuel (length buf) buf s (omega arith) wf
