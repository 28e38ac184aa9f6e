-- ===== src/Smpp/Session/Frames.antt =====
-- A message at the front of the receive buffer.
use smppgw.Base.{
  ℕ, ◌+◌, ◌*◌, ◌/◌, ◌%◌, ◌^◌, ◌<◌, ◌≡◌, refl, sym, ap, ap₂, ◌∙◌, true, ◌++◌, length, take, drop,
  arith, length-append, take-length_append, drop-length_append, append_assoc, le→ltb_false,
}
use smppgw.Smpp.Byte.{Bytes}
use smppgw.Smpp.Session.{Session, Header, header_length, serialize_header, deserialize_header}
use smppgw.Smpp.Session.Receive.{Handlers, is_receiving, consume, receive}
use smppgw.Smpp.Session.Segments.{receive_more}

-- The fields are 32-bit words.
abbrev pub IsHeader : Header → Type 0
IsHeader h =
    (h.command_length < 2 ^ 32)
    × (h.command_id < 2 ^ 32)
    × (h.command_status < 2 ^ 32)
    × (h.sequence < 2 ^ 32)

u32_back :
    (v : ℕ)
    → v < 2 ^ 32
    → v / 16777216 % 256 * 16777216 + v / 65536 % 256 * 65536 + v / 256 % 256 * 256 + v % 256 ≡ v
u32_back v h = omega arith

-- A header whose fields are 32-bit words is read as it was written, whatever follows it.
pub deserialize_header-serialize :
    (h : Header) (rest : Bytes) → IsHeader h → deserialize_header (serialize_header h ++ rest) ≡ h
unfolding deserialize_header serialize_header
deserialize_header-serialize h rest (a, b, c, d) =
    let a' = u32_back h.command_length a in
    let b' = u32_back h.command_id b in
    let c' = u32_back h.command_status c in
    let d' = u32_back h.sequence d in
    λ i. record { command_length = a' i; command_id = b' i; command_status = c' i; sequence = d' i }

length-serialize_header : (h : Header) → length (serialize_header h) ≡ 16
unfolding serialize_header
length-serialize_header h = refl

module _ (handlers : Handlers) (h : Header) (body rest : Bytes) where
  abbrev frame : Bytes
  frame = serialize_header h ++ (body ++ rest)

  after_header : drop 16 frame ≡ body ++ rest
  unfolding serialize_header
  after_header = refl

  after_body : drop (16 + length body) frame ≡ rest
  after_body =
      ap₂ drop {x = 16 + length body} {y = length (serialize_header h ++ body)}
        (omega (arith, length-append (serialize_header h) body, length-serialize_header h))
        (sym (append_assoc (serialize_header h) body rest))
      ∙ drop-length_append (serialize_header h ++ body) rest

  -- A whole message at the front of the buffer is consumed, and the loop goes on with what follows.
  pub receive-frame :
      (s : Session)
      → IsHeader h
      → h.command_length ≡ header_length + length body
      → is_receiving s.receiving_state ≡ true
      → receive handlers frame s ≡ receive handlers rest (consume handlers h body s)
  receive-frame s w size r =
      let read = deserialize_header-serialize h (body ++ rest) w in
      let same = ap (λ (x : Header). x.command_length) read ∙ size in
      let long : length frame ≡ 16 + (length body + length rest) = omega (
        arith,
        length-append (serialize_header h) (body ++ rest),
        length-append body rest,
        length-serialize_header h,
      ) in
      receive_more handlers frame s
        (r, le→ltb_false _ _ (omega (arith, long)), le→ltb_false _ _ (omega (arith, long, same)))
        (le→ltb_false _ _ (omega (arith, same)))
      ∙ ap₂ (receive handlers) (ap (λ n. drop n frame) same ∙ after_body) (
          ap₂ (λ x b. consume handlers x b s) read
            (ap₂ take (omega (arith, same)) after_header ∙ take-length_append body rest))
