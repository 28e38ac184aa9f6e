-- ===== src/Pinex/Codec.antt =====
-- libs/pinex: the members of its PDUs (common/serialization.hpp, pdu), and the header and the framing
-- of a message (net/session.hpp).
pub mod RoundTrip
use smppgw.Base.{
  ℕ, ◌+◌, ◌-◌, ◌*◌, ◌/◌, ◌%◌, ◌^◌, Bool, true, false, List, [], ◌∷◌, ◌++◌, length, take, drop, ltb,
  leb, ◌==◌, if◌then◌else◌, replicate,
}
use smppgw.Base.Results.{Result, ok, throw, ◌>>=◌, length_error}
use smppgw.Smpp.Byte.{Bytes}

-- The structs of `detail` that the PDUs use.
pub data Member : Type 0 where
  c_octet_str : ℕ → Member
  octet_str : Member

split_nul : Bytes → Result (Bytes × Bytes)
split_nul [] = throw length_error
split_nul (b ∷ buf) = if b == 0 then ok ([], buf) else (split_nul buf >>= λ r. ok (b ∷ r.0, r.1))

-- `R::deserialize<T>(buf, name)`: the value, and what the span holds after it.
unfoldable pub deserialize_member : Member → Bytes → Result (Bytes × Bytes)
unfolding split_nul
deserialize_member (c_octet_str maxlen) buf =
    split_nul buf >>= λ r. if leb maxlen (length r.0) then throw length_error else ok r
deserialize_member octet_str buf = ok (buf, [])

-- `R::serialize_to(vec, val, name)`: the vector with the value's bytes behind it.
unfoldable pub serialize_member : Member → Bytes → Bytes → Result Bytes
serialize_member (c_octet_str maxlen) vec val =
    if leb maxlen (length val) then throw length_error else ok (vec ++ (val ++ 0 ∷ []))
serialize_member octet_str vec val = ok (vec ++ val)

-- The four PDUs. Each carries one string, `system_id` or `message_body`.
pub data Pdu : Type 0 where
  bind_request bind_response stream_request stream_response : Pdu

unfoldable pub member_of : Pdu → Member
member_of bind_request = c_octet_str 20
member_of bind_response = c_octet_str 20
member_of stream_request = octet_str
member_of stream_response = octet_str

unfoldable pub can_be_omitted : Pdu → Bool
can_be_omitted bind_request = false
can_be_omitted bind_response = true
can_be_omitted stream_request = false
can_be_omitted stream_response = true

unfoldable pub command_id_of : Pdu → ℕ
command_id_of bind_request = 1
command_id_of bind_response = 129
command_id_of stream_request = 2
command_id_of stream_response = 130

-- The free function `deserialize<PDU>(buf)`. The string of a default PDU is empty.
unfoldable pub deserialize : Pdu → Bytes → Result Bytes
deserialize p [] =
    if can_be_omitted p then ok [] else (deserialize_member (member_of p) [] >>= λ r. ok r.0)
deserialize p (b ∷ buf) = deserialize_member (member_of p) (b ∷ buf) >>= λ r. ok r.0

abbrev pub u32_of : ℕ → ℕ → ℕ → ℕ → ℕ
u32_of a b c d = ((a * 256 + b) * 256 + c) * 256 + d

abbrev pub u32_bytes : ℕ → Bytes
u32_bytes val = (val / 2 ^ 24 % 256) ∷ (val / 2 ^ 16 % 256) ∷ (val / 2 ^ 8 % 256) ∷ (val % 256) ∷ []

abbrev pub serialize_header : ℕ → ℕ → ℕ → ℕ → Bytes
serialize_header command_length command_id sequence_number command_status =
    u32_bytes command_length ++ (command_id ∷ command_status ∷ u32_bytes sequence_number)

-- `send_impl`, as far as the buffer of pending bytes of an open session goes. Ten bytes are reserved
-- for the header, which is copied there once the length is known.
unfoldable pub send_pdu : Bytes → Pdu → Bytes → ℕ → ℕ → Result Bytes
send_pdu pending p val sequence_number command_status =
    let prev_size = length pending in
    serialize_member (member_of p) (pending ++ replicate 10 0) val >>= λ buf. ok (
      take prev_size buf
      ++ (serialize_header ((length buf - prev_size) % 2 ^ 32) (command_id_of p) sequence_number
            command_status
          ++ drop 10 (drop prev_size buf)))

-- What a round of `do_receive` finds. A length below that of the header makes a span of negative size.
pub data Frame : Type 0 where
  incomplete undefined : Frame
  message : (command_id command_status sequence_number : ℕ) → (body rest : Bytes) → Frame

unfoldable pub body_of : ℕ → ℕ → ℕ → ℕ → Bytes → Frame
body_of command_length command_id command_status sequence_number buf =
    if ltb (10 + length buf) command_length
    then incomplete
    else if ltb command_length 10
    then undefined
    else message command_id command_status sequence_number (take (command_length - 10) buf)
        (drop (command_length - 10) buf)

unfoldable pub receive_frame : Bytes → Frame
receive_frame (a ∷ b ∷ c ∷ d ∷ id ∷ status ∷ e ∷ f ∷ g ∷ h ∷ buf) =
    body_of (u32_of a b c d) id status (u32_of e f g h) buf
receive_frame _ = incomplete
