-- ===== src/Pinex/Codec/RoundTrip.antt =====
-- A message that a pinex session sends is received as the PDU that was sent.
use smppgw.Base.{
  ℕ, ◌+◌, ◌-◌, ◌/◌, ◌%◌, ◌^◌, ◌<◌, ◌≤◌, ◌≡◌, ◌≢◌, refl, [], ◌∷◌, ◌++◌, length, replicate, arith,
  All, append_assoc, take-length_append, drop-length_append, length-append, lt→leb_false,
  le→ltb_false,
}
use smppgw.Base.Results.{ok}
use smppgw.Smpp.Byte.{Bytes}
use smppgw.Pinex.Codec.{
  c_octet_str, split_nul, deserialize_member, serialize_member, Pdu, bind_request, bind_response,
  stream_request, stream_response, member_of, can_be_omitted, command_id_of, deserialize, u32_of,
  serialize_header, send_pdu, message, body_of, receive_frame,
}

-- The strings that a PDU can carry.
abbrev pub Fits : Pdu → Bytes → Type 0
Fits bind_request val = (length val < 20) × All (λ b. b ≢ 0) val
Fits bind_response val = (length val < 20) × All (λ b. b ≢ 0) val
Fits stream_request val = Unit
Fits stream_response val = Unit

abbrev pub body : Pdu → Bytes → Bytes
body bind_request val = val ++ 0 ∷ []
body bind_response val = val ++ 0 ∷ []
body stream_request val = val
body stream_response val = val

split_nul-nul : (val : Bytes) → All (λ b. b ≢ 0) val → split_nul (val ++ 0 ∷ []) ≡ ok (val, [])
unfolding split_nul
split_nul-nul [] h = refl
split_nul-nul (b ∷ val) h = ground (arith, split_nul-nul val h.1, h.0)

serialize_member-body :
    (p : Pdu) (vec val : Bytes)
    → Fits p val
    → serialize_member (member_of p) vec val ≡ ok (vec ++ body p val)
unfolding serialize_member member_of
serialize_member-body bind_request vec val h = rw (lt→leb_false 20 (length val) h.0)
serialize_member-body bind_response vec val h = rw (lt→leb_false 20 (length val) h.0)
serialize_member-body stream_request vec val h = refl
serialize_member-body stream_response vec val h = refl

deserialize_nul :
    (val : Bytes)
    → length val < 20
    → All (λ b. b ≢ 0) val
    → deserialize_member (c_octet_str 20) (val ++ 0 ∷ []) ≡ ok (val, [])
unfolding deserialize_member
deserialize_nul val short h = rw (split_nul-nul val h) (rw (lt→leb_false 20 (length val) short))

deserialize-body : (p : Pdu) (val : Bytes) → Fits p val → deserialize p (body p val) ≡ ok val
unfolding deserialize member_of can_be_omitted deserialize_member
deserialize-body bind_request [] h = refl
deserialize-body bind_request (b ∷ val) h = rw (deserialize_nul (b ∷ val) h.0 h.1) refl
deserialize-body bind_response [] h = refl
deserialize-body bind_response (b ∷ val) h = rw (deserialize_nul (b ∷ val) h.0 h.1) refl
deserialize-body stream_request [] h = refl
deserialize-body stream_request (b ∷ val) h = refl
deserialize-body stream_response [] h = refl
deserialize-body stream_response (b ∷ val) h = refl

u32_back :
    (v : ℕ)
    → v < 2 ^ 32
    → u32_of (v / 2 ^ 24 % 256) (v / 2 ^ 16 % 256) (v / 2 ^ 8 % 256) (v % 256) ≡ v
u32_back v h = omega arith

-- The message of a PDU, with its header.
abbrev pub message_of : Pdu → Bytes → ℕ → ℕ → Bytes
message_of p val number status =
    serialize_header ((10 + length (body p val)) % 2 ^ 32) (command_id_of p) number status
    ++ body p val

send_pdu-message :
    (pending : Bytes) (p : Pdu) (val : Bytes) (number status : ℕ)
    → Fits p val
    → send_pdu pending p val number status ≡ ok (pending ++ message_of p val number status)
unfolding send_pdu
send_pdu-message pending p val number status h =
    let zeros = replicate 10 0 in
    let size : length (pending ++ (zeros ++ body p val)) - length pending
        ≡ 10 + length (body p val) =
      omega (arith, length-append pending (zeros ++ body p val)) in
    rw (serialize_member-body p (pending ++ zeros) val h) (
      rw
        (
          append_assoc pending zeros (body p val),
          size,
          take-length_append pending (zeros ++ body p val),
          drop-length_append pending (zeros ++ body p val),
        )
        refl)

body_of-append :
    (command_id command_status number : ℕ) (xs rest : Bytes)
    → body_of (10 + length xs) command_id command_status number (xs ++ rest)
      ≡ message command_id command_status number xs rest
unfolding body_of
body_of-append command_id command_status number xs rest =
    let enough : 10 + length xs ≤ 10 + length (xs ++ rest) = omega (arith, length-append xs rest) in
    let exact : 10 + length xs - 10 ≡ length xs = omega arith in
    rw
      (
        le→ltb_false (10 + length (xs ++ rest)) (10 + length xs) enough,
        le→ltb_false (10 + length xs) 10 (omega arith),
        exact,
        take-length_append xs rest,
        drop-length_append xs rest,
      )
      refl

receive_frame-message :
    (p : Pdu) (val rest : Bytes) (number status : ℕ)
    → 10 + length (body p val) < 2 ^ 32
    → number < 2 ^ 32
    → receive_frame (message_of p val number status ++ rest)
      ≡ message (command_id_of p) status number (body p val) rest
unfolding receive_frame
receive_frame-message p val rest number status small few =
    let total : (10 + length (body p val)) % 2 ^ 32 ≡ 10 + length (body p val) = omega arith in
    rw (total, u32_back (10 + length (body p val)) small, u32_back number few)
      (body_of-append (command_id_of p) status number (body p val) rest)

-- What an open session sends for a PDU whose `system_id` is shorter than 20 and has no zero byte, or
-- whose `message_body` is arbitrary, is found by the receiving session in front of any further bytes,
-- if the message is shorter than 4 GiB and the sequence number below 2 ^ 32: the same command,
-- status and sequence number, and a body that `deserialize` reads as the string that was sent. The
-- bytes that were pending stay in front.
pub receive_frame-send_pdu :
    (pending : Bytes) (p : Pdu) (val rest : Bytes) (number status : ℕ)
    → Fits p val
    → 10 + length (body p val) < 2 ^ 32
    → number < 2 ^ 32
    → (sent : Bytes) × (send_pdu pending p val number status ≡ ok (pending ++ sent))
      × (received : Bytes) × (receive_frame (sent ++ rest)
          ≡ message (command_id_of p) status number received rest)
      × (deserialize p received ≡ ok val)
receive_frame-send_pdu pending p val rest number status fits small few = (
  message_of p val number status,
  send_pdu-message pending p val number status fits,
  body p val,
  receive_frame-message p val rest number status small few,
  deserialize-body p val fits,
)
