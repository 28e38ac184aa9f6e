-- ===== src/Smpp/Wire.antt =====
-- libs/smpp/common/serialization.hpp: the readers and writers of the members of a PDU, and the two
-- functions that run them over a PDU's list of members.
pub mod RoundTrip
pub mod Sound
use smppgw.Base.{
  ℕ, suc, ◌+◌, ◌%◌, ◌<◌, ◌≡◌, ◌≢◌, Bool, true, false, List, [], ◌∷◌, ◌++◌, length, take, drop, ltb,
  leb, ◌==◌, if◌then◌else◌, All,
}
use smppgw.Base.Results.{Result, ok, throw, ◌>>=◌, length_error}
use smppgw.Smpp.Byte.{Bytes, AreBytes}
use smppgw.Smpp.Oparam
use smppgw.Smpp.Oparam.{Oparam}
use smppgw.Smpp.EsmClass
use smppgw.Smpp.EsmClass.{EsmClass, IsEsmClass}
use smppgw.Smpp.RegisteredDelivery
use smppgw.Smpp.RegisteredDelivery.{RegisteredDelivery, IsRegisteredDelivery}

-- The structs of `detail`. `enum_flag` is used at two types, `smart` at `oparam` alone.
pub data Codec : Type 0 where
  enum_u8 u8 flag_esm_class flag_registered_delivery smart : Codec
  c_octet_str u8_octet_str : ℕ → Codec

abbrev pub Value : Codec → Type 0
Value enum_u8 = ℕ
Value u8 = ℕ
Value flag_esm_class = EsmClass
Value flag_registered_delivery = RegisteredDelivery
Value smart = Oparam
Value (c_octet_str maxlen) = Bytes
Value (u8_octet_str maxlen) = Bytes

-- The three readers of one byte.
read_byte : Bytes → Result (ℕ × Bytes)
read_byte [] = throw length_error
read_byte (b ∷ buf) = ok (b, buf)

-- `std::find(buf->begin(), buf->end(), '\0')`: what stands before the first zero, and after it.
split_nul : Bytes → Result (Bytes × Bytes)
split_nul [] = throw length_error
split_nul (b ∷ buf) = if b == 0 then ok ([], buf) else (split_nul buf >>= λ r. ok (b ∷ r.0, r.1))

unfoldable pub read_c_octet_str : ℕ → Bytes → Result (Bytes × Bytes)
unfolding split_nul
read_c_octet_str maxlen buf =
    split_nul buf >>= λ r. if leb maxlen (length r.0) then throw length_error else ok r

unfoldable pub read_u8_octet_str : ℕ → Bytes → Result (Bytes × Bytes)
read_u8_octet_str maxlen [] = throw length_error
read_u8_octet_str maxlen (len ∷ buf) =
    if leb (suc (length buf)) len
    then throw length_error
    else if ltb maxlen (length (take len buf))
    then throw length_error
    else ok (take len buf, drop len buf)

-- `R::deserialize<T>(buf, name)`: the value, and what the span holds after it.
unfoldable pub deserialize : (c : Codec) → Bytes → Result (Value c × Bytes)
unfolding read_byte
deserialize enum_u8 buf = read_byte buf
deserialize u8 buf = read_byte buf
deserialize flag_esm_class buf = read_byte buf >>= λ r. ok (EsmClass.from_u8 r.0, r.1)
deserialize flag_registered_delivery buf =
    read_byte buf >>= λ r. ok (RegisteredDelivery.from_u8 r.0, r.1)
deserialize smart buf = Oparam.deserialize buf
deserialize (c_octet_str maxlen) buf = read_c_octet_str maxlen buf
deserialize (u8_octet_str maxlen) buf = read_u8_octet_str maxlen buf

-- `R::serialize_to(vec, val, name)`: the vector with the value's bytes behind it.
unfoldable pub serialize_to : (c : Codec) → Bytes → Value c → Result Bytes
serialize_to enum_u8 vec val = ok (vec ++ (val % 256) ∷ [])
serialize_to u8 vec val = ok (vec ++ val ∷ [])
serialize_to flag_esm_class vec val = ok (vec ++ (EsmClass.to_u8 val % 256) ∷ [])
serialize_to flag_registered_delivery vec val =
    ok (vec ++ (RegisteredDelivery.to_u8 val % 256) ∷ [])
serialize_to smart vec val = ok (vec ++ Oparam.serialize val)
serialize_to (c_octet_str maxlen) vec val =
    if leb maxlen (length val) then throw length_error else ok (vec ++ (val ++ 0 ∷ []))
serialize_to (u8_octet_str maxlen) vec val =
    if ltb maxlen (length val)
    then throw length_error
    else ok ((vec ++ (length val % 256) ∷ []) ++ val)

-- The values of a list of members, in its order.
abbrev pub Values : List Codec → Type 0
Values [] = Unit {0}
Values (c ∷ cs) = Value c × Values cs

-- The fold over `meta_holder<PDU>` in the free function `serialize_to`.
unfoldable pub serialize_members : (cs : List Codec) → Bytes → Values cs → Result Bytes
unfolding serialize_to
serialize_members [] vec vs = ok vec
serialize_members (c ∷ cs) vec vs =
    serialize_to c vec vs.0 >>= λ vec'. serialize_members cs vec' vs.1

-- The braced list of calls in the free function `deserialize`, which runs from left to right.
unfoldable pub deserialize_members : (cs : List Codec) → Bytes → Result (Values cs × Bytes)
unfolding deserialize
deserialize_members [] buf = ok (tt, buf)
deserialize_members (c ∷ cs) buf = do
  r ← deserialize c buf
  rs ← deserialize_members cs r.1
  ok ((r.0, rs.0), rs.1)

-- The values that a member can carry over the wire.
abbrev pub Fits : (c : Codec) → Value c → Type 0
Fits enum_u8 v = v < 256
Fits u8 v = v < 256
Fits flag_esm_class v = IsEsmClass v
Fits flag_registered_delivery v = IsRegisteredDelivery v
Fits smart v = Oparam.IsMap v
Fits (c_octet_str maxlen) v = (length v < maxlen) × All (λ b. (b < 256) × (b ≢ 0)) v
Fits (u8_octet_str maxlen) v = (length v < maxlen + 1) × (length v < 256) × AreBytes v

abbrev pub AllFit : (cs : List Codec) → Values cs → Type 0
AllFit [] vs = Unit {0}
AllFit (c ∷ cs) vs = Fits c vs.0 × AllFit cs vs.1

-- A `smart` member takes all that is left of the buffer, so it stands last.
abbrev pub SmartLast : List Codec → Type 0
SmartLast [] = Unit {0}
SmartLast (smart ∷ cs) = cs ≡ []
SmartLast (_ ∷ cs) = SmartLast cs
