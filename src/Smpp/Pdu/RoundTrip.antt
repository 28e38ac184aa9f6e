-- ===== src/Smpp/Pdu/RoundTrip.antt =====
-- The templates of common/serialization.hpp over any PDU: what is sent is received, what was
-- received can be sent on, and which PDUs are refused.
use smppgw.Base.{
  ◌≡◌, ◌≤◌, ◌<◌, ◌⊎◌, refl, inl, inr, false, List, [], ◌∷◌, ◌++◌, ◌%◌, append_assoc, append-nil,
  length, ltb, leb, arith, Bool-cases, ◌&&◌, ltb→lt, leb→le,
}
use smppgw.Base.Results.{Result, ok, throw, subst_ok, length_error, >>=-eq-ok}
use smppgw.Smpp.Byte.{Bytes, AreBytes}
use smppgw.Smpp.Wire.{
  Codec, enum_u8, u8, flag_esm_class, flag_registered_delivery, smart, c_octet_str, u8_octet_str,
  Value, Values, serialize_members, deserialize_members, AllFit,
}
use smppgw.Smpp.Wire
use smppgw.Smpp.Wire.RoundTrip.{
  encode_members, serialize_members-encode, deserialize_members-encode,
}
use smppgw.Smpp.Wire.Sound.{deserialize_members-AllFit}
use smppgw.Smpp.Pdu.{Pdu, Writes, is_empty, serialize_to, deserialize}

is_empty_nul : (v w : Bytes) → is_empty ((v ++ 0 ∷ []) ++ w) ≡ false
is_empty_nul [] w = refl
is_empty_nul (b ∷ v) w = refl

is_empty-encode :
    (cs : List Codec) (vs : Values cs) → Writes cs → is_empty (encode_members cs vs) ≡ false
is_empty-encode [] vs h = absurd h
is_empty-encode (smart ∷ cs) vs h = absurd h
is_empty-encode (enum_u8 ∷ cs) vs h = refl
is_empty-encode (u8 ∷ cs) vs h = refl
is_empty-encode (flag_esm_class ∷ cs) vs h = refl
is_empty-encode (flag_registered_delivery ∷ cs) vs h = refl
is_empty-encode (c_octet_str n ∷ cs) vs h = is_empty_nul vs.0 _
is_empty-encode (u8_octet_str n ∷ cs) vs h = refl

module _ {Args P : Type 0} (pdu : Pdu Args P) where
  -- A body that is sent for a PDU whose members fit is received as that PDU.
  pub deserialize-serialize_to :
      (vec : Bytes) (p : P)
      → AllFit pdu.members (pdu.values p)
      → (body : Bytes) × (serialize_to pdu vec p ≡ ok (vec ++ body))
        × (deserialize pdu body (pdu.args p) ≡ ok p)
  unfolding serialize_to deserialize
  deserialize-serialize_to vec p h =
      (body, serialize_members-encode pdu.members vec (pdu.values p) h, received)
    where
      body : Bytes
      body = encode_members pdu.members (pdu.values p)

      shown : (pdu.can_be_omitted && is_empty body) ≡ false
      shown = elim (Bool-cases pdu.can_be_omitted) [
        | inl e ↦ rw e (is_empty-encode pdu.members (pdu.values p) (pdu.writes e))
        | inr e ↦ rw e
      ]

      received : deserialize pdu body (pdu.args p) ≡ ok p
      received = rw shown (
          rw (deserialize_members-encode pdu.members (pdu.values p) pdu.smart_last h)
            (rw (pdu.make-values p)))

  deserialize-AllFit :
      (buf : Bytes) (a : Args) (p : P)
      → AreBytes buf
      → deserialize pdu buf a ≡ ok p
      → AllFit pdu.members (pdu.values p)
  unfolding deserialize
  deserialize-AllFit buf a p h e = elim (Bool-cases (pdu.can_be_omitted && is_empty buf)) [
    | inl o ↦
        subst_ok (λ (x : P). AllFit pdu.members (pdu.values x)) (rw o at e) (pdu.omitted_fits a)
    | inr o ↦
        let (r, er, em) =
          >>=-eq-ok (deserialize_members pdu.members buf) (λ r. ok (pdu.make a r.0)) (rw o at e) in
        subst_ok (λ (x : P). AllFit pdu.members (pdu.values x)) em
          (rw (pdu.values-make a r.0) (deserialize_members-AllFit pdu.members buf r h er))
  ]

  -- A PDU that was received from bytes is accepted for sending, and reads the same at the next hop.
  pub serialize_to-deserialize :
      (buf vec : Bytes) (a : Args) (p : P)
      → AreBytes buf
      → deserialize pdu buf a ≡ ok p
      → (body : Bytes) × (serialize_to pdu vec p ≡ ok (vec ++ body))
        × (deserialize pdu body (pdu.args p) ≡ ok p)
  serialize_to-deserialize buf vec a p h e =
      deserialize-serialize_to vec p (deserialize-AllFit buf a p h e)

-- A string that its member's limit admits.
abbrev pub Within : (c : Codec) → Value c → Type 0
Within (c_octet_str maxlen) v = length v < maxlen
Within (u8_octet_str maxlen) v = length v ≤ maxlen
Within _ v = Unit {0}

abbrev pub AllWithin : (cs : List Codec) → Values cs → Type 0
AllWithin [] vs = Unit {0}
AllWithin (c ∷ cs) vs = Within c vs.0 × AllWithin cs vs.1

abbrev pub Outcome : Type 0 → Bytes → Result Bytes → Type 0
Outcome W vec r =
    (W × ((body : Bytes) × (r ≡ ok (vec ++ body)))) ⊎ ((¬ W) × (r ≡ throw length_error))

one-Outcome :
    (c : Codec) (vec : Bytes) (v : Value c) → Outcome (Within c v) vec (Wire.serialize_to c vec v)
unfolding Wire.serialize_to
one-Outcome enum_u8 vec v = inl (tt, (_, refl))
one-Outcome u8 vec v = inl (tt, (_, refl))
one-Outcome flag_esm_class vec v = inl (tt, (_, refl))
one-Outcome flag_registered_delivery vec v = inl (tt, (_, refl))
one-Outcome smart vec v = inl (tt, (_, refl))
one-Outcome (c_octet_str n) vec v = elim (Bool-cases (leb n (length v))) [
  | inl e ↦ inr (λ w. absurd (omega (arith, leb→le n (length v) e)), rw e)
  | inr e ↦ inl (ground arith, (v ++ 0 ∷ [], rw e))
]
one-Outcome (u8_octet_str n) vec v = elim (Bool-cases (ltb n (length v))) [
  | inl e ↦ inr (λ w. absurd (omega (arith, ltb→lt n (length v) e)), rw e)
  | inr e ↦ inl (ground arith, ((length v % 256) ∷ v, rw e (rw append_assoc)))
]

members-Outcome :
    (cs : List Codec) (vec : Bytes) (vs : Values cs)
    → Outcome (AllWithin cs vs) vec (serialize_members cs vec vs)
unfolding serialize_members
members-Outcome [] vec vs = inl (tt, ([], rw append-nil))
members-Outcome (c ∷ cs) vec vs = elim (one-Outcome c vec vs.0) [
  | inr (n, e) ↦ inr (λ w. n w.0, rw e)
  | inl (w, (body, e)) ↦ elim (members-Outcome cs (vec ++ body) vs.1) [
    | inr (n, e') ↦ inr (λ w'. n w'.1, rw e e')
    | inl (ws, (rest, e')) ↦ inl ((w, ws), (body ++ rest, rw e (rw e' (rw append_assoc))))
  ]
]

-- Sending succeeds exactly when each string is within its member's limit, and then only appends;
-- otherwise it throws `length_error`.
pub serialize_to-Outcome :
    {Args P : Type 0} (pdu : Pdu Args P) (vec : Bytes) (p : P)
    → Outcome (AllWithin pdu.members (pdu.values p)) vec (serialize_to pdu vec p)
unfolding serialize_to
serialize_to-Outcome pdu vec p = members-Outcome pdu.members vec (pdu.values p)
