-- ===== src/Smpp/Wire/RoundTrip.antt =====
-- What the writers write, the readers read back.
use smppgw.Base.{
  ℕ, suc, ◌%◌, ◌<◌, ◌≡◌, ◌≢◌, refl, List, [], ◌∷◌, ◌++◌, length, arith, All, append_assoc,
  append-nil, take-length_append, drop-length_append, length-append, lt→leb_false, le→ltb_false,
}
use smppgw.Base.Results.{ok}
use smppgw.Smpp.Byte.{Bytes}
use smppgw.Smpp.Oparam
use smppgw.Smpp.Oparam.RoundTrip
use smppgw.Smpp.EsmClass
use smppgw.Smpp.RegisteredDelivery
use smppgw.Smpp.Wire.{
  Codec, enum_u8, u8, flag_esm_class, flag_registered_delivery, smart, c_octet_str, u8_octet_str,
  Value, Values, split_nul, read_c_octet_str, read_u8_octet_str, deserialize, serialize_to,
  serialize_members, deserialize_members, Fits, AllFit, SmartLast,
}

-- The bytes of a value that fits.
abbrev pub encode : (c : Codec) → Value c → Bytes
encode enum_u8 v = v ∷ []
encode u8 v = v ∷ []
encode flag_esm_class v = EsmClass.to_u8 v ∷ []
encode flag_registered_delivery v = RegisteredDelivery.to_u8 v ∷ []
encode smart v = Oparam.serialize v
encode (c_octet_str maxlen) v = v ++ 0 ∷ []
encode (u8_octet_str maxlen) v = length v ∷ v

abbrev pub encode_members : (cs : List Codec) → Values cs → Bytes
encode_members [] vs = []
encode_members (c ∷ cs) vs = encode c vs.0 ++ encode_members cs vs.1

mod_small : (n : ℕ) → n < 256 → n % 256 ≡ n
mod_small n h = omega arith

serialize_to-encode :
    (c : Codec) (vec : Bytes) (v : Value c)
    → Fits c v
    → serialize_to c vec v ≡ ok (vec ++ encode c v)
unfolding serialize_to
serialize_to-encode enum_u8 vec v h = rw (mod_small v h)
serialize_to-encode u8 vec v h = refl
serialize_to-encode flag_esm_class vec v h = rw (mod_small _ (EsmClass.from_u8-to_u8 v h).1)
serialize_to-encode flag_registered_delivery vec v h = rw (mod_small _ (delivery_byte v h))
  where
    delivery_byte :
        (v : RegisteredDelivery.RegisteredDelivery)
        → RegisteredDelivery.IsRegisteredDelivery v
        → RegisteredDelivery.to_u8 v < 256
    delivery_byte v h = omega (arith, (RegisteredDelivery.from_u8-to_u8_delivery v h).1)
serialize_to-encode smart vec v h = refl
serialize_to-encode (c_octet_str maxlen) vec v h = rw (lt→leb_false maxlen (length v) h.0)
serialize_to-encode (u8_octet_str maxlen) vec v h =
    rw (le→ltb_false maxlen (length v) (omega arith), mod_small (length v) h.1, append_assoc)

split_nul-append :
    (v rest : Bytes) → All (λ b. (b < 256) × (b ≢ 0)) v → split_nul (v ++ 0 ∷ rest) ≡ ok (v, rest)
unfolding split_nul
split_nul-append [] rest h = refl
split_nul-append (b ∷ v) rest h = ground (arith, split_nul-append v rest h.1, h.0.1)

-- A member other than `smart` reads back in front of anything.
pub deserialize-encode :
    (c : Codec) (v : Value c) (rest : Bytes)
    → c ≢ smart
    → Fits c v
    → deserialize c (encode c v ++ rest) ≡ ok (v, rest)
unfolding deserialize read_c_octet_str read_u8_octet_str
deserialize-encode enum_u8 v rest n h = refl
deserialize-encode u8 v rest n h = refl
deserialize-encode flag_esm_class v rest n h = rw ((EsmClass.from_u8-to_u8 v h).0)
deserialize-encode flag_registered_delivery v rest n h =
    rw ((RegisteredDelivery.from_u8-to_u8_delivery v h).0)
deserialize-encode smart v rest n h = absurd (n refl)
deserialize-encode (c_octet_str maxlen) v rest n h =
    rw (append_assoc v (0 ∷ []) rest)
      (rw (split_nul-append v rest h.1) (rw (lt→leb_false maxlen (length v) h.0)))
deserialize-encode (u8_octet_str maxlen) v rest n h = rw (
  lt→leb_false (suc (length (v ++ rest))) (length v) (omega (arith, length-append v rest)),
  take-length_append v rest,
  drop-length_append v rest,
  le→ltb_false maxlen (length v) (omega arith),
)

pub serialize_members-encode :
    (cs : List Codec) (vec : Bytes) (vs : Values cs)
    → AllFit cs vs
    → serialize_members cs vec vs ≡ ok (vec ++ encode_members cs vs)
unfolding serialize_members
serialize_members-encode [] vec vs h = rw append-nil
serialize_members-encode (c ∷ cs) vec vs h = rw (
  serialize_to-encode c vec vs.0 h.0,
  serialize_members-encode cs (vec ++ encode c vs.0) vs.1 h.1,
  append_assoc,
)

abbrev ReadsBack : (cs : List Codec) → Values cs → Type 0
ReadsBack cs vs = deserialize_members cs (encode_members cs vs) ≡ ok (vs, [])

prepend :
    (c : Codec) (cs : List Codec) (vs : Values (c ∷ cs))
    → c ≢ smart
    → AllFit (c ∷ cs) vs
    → ReadsBack cs vs.1
    → ReadsBack (c ∷ cs) vs
unfolding deserialize_members
prepend c cs vs n h ih = rw (deserialize-encode c vs.0 (encode_members cs vs.1) n h.0) (rw ih)

-- The members of a PDU, written one behind another, read back to the last byte.
pub deserialize_members-encode :
    (cs : List Codec) (vs : Values cs) → SmartLast cs → AllFit cs vs → ReadsBack cs vs
unfolding deserialize_members
deserialize_members-encode [] vs s h = refl
deserialize_members-encode (smart ∷ []) vs s h =
    rw append-nil (rw (RoundTrip.deserialize-serialize vs.0 h.0))
deserialize_members-encode (smart ∷ d ∷ ds) vs s h = cc
deserialize_members-encode (enum_u8 ∷ cs) vs s h =
    prepend enum_u8 cs vs (λ e. cc) h (deserialize_members-encode cs vs.1 s h.1)
deserialize_members-encode (u8 ∷ cs) vs s h =
    prepend u8 cs vs (λ e. cc) h (deserialize_members-encode cs vs.1 s h.1)
deserialize_members-encode (flag_esm_class ∷ cs) vs s h =
    prepend flag_esm_class cs vs (λ e. cc) h (deserialize_members-encode cs vs.1 s h.1)
deserialize_members-encode (flag_registered_delivery ∷ cs) vs s h =
    prepend flag_registered_delivery cs vs (λ e. cc) h (deserialize_members-encode cs vs.1 s h.1)
deserialize_members-encode (c_octet_str n ∷ cs) vs s h =
    prepend (c_octet_str n) cs vs (λ e. cc) h (deserialize_members-encode cs vs.1 s h.1)
deserialize_members-encode (u8_octet_str n ∷ cs) vs s h =
    prepend (u8_octet_str n) cs vs (λ e. cc) h (deserialize_members-encode cs vs.1 s h.1)
