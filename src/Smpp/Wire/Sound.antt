-- ===== src/Smpp/Wire/Sound.antt =====
-- Whatever the readers accept from bytes, the writers can write.
use smppgw.Base.{
  ℕ, suc, ◌+◌, ◌<◌, ◌≡◌, ◌≢◌, inl, inr, List, [], ◌∷◌, length, take, ltb, leb, ◌==◌, if◌then◌else◌,
  arith, Bool-cases, All, All-take, All-drop, length-take,
}
use smppgw.Base.Results.{subst_ok, ok, throw, length_error, >>=-eq-ok}
use smppgw.Smpp.Byte.{Bytes, AreBytes}
use smppgw.Smpp.Oparam.Sound
use smppgw.Smpp.EsmClass
use smppgw.Smpp.RegisteredDelivery
use smppgw.Smpp.Wire.{
  Codec, enum_u8, u8, flag_esm_class, flag_registered_delivery, smart, c_octet_str, u8_octet_str,
  Value, Values, split_nul, read_byte, read_c_octet_str, read_u8_octet_str, deserialize,
  deserialize_members, Fits, AllFit,
}

abbrev Accepted : (c : Codec) → Value c → Bytes → Type 0
Accepted c v rest = Fits c v × AreBytes rest

read_byte-lt :
    (buf : Bytes) (r : ℕ × Bytes) → AreBytes buf → read_byte buf ≡ ok r → (r.0 < 256) × AreBytes r.1
unfolding read_byte
read_byte-lt [] r h e = cc
read_byte-lt (b ∷ buf) r h e = subst_ok (λ (x : ℕ × Bytes). (x.0 < 256) × AreBytes x.1) e h

abbrev Text : Bytes → Type 0
Text = All (λ b. (b < 256) × (b ≢ 0))

split_nul-Text :
    (buf : Bytes) (r : Bytes × Bytes)
    → AreBytes buf
    → split_nul buf ≡ ok r
    → Text r.0 × AreBytes r.1
unfolding split_nul
split_nul-Text [] r h e = cc
split_nul-Text (b ∷ buf) r h e = elim (Bool-cases (b == 0)) [
  | inl z ↦ subst_ok (λ (x : Bytes × Bytes). Text x.0 × AreBytes x.1) (rw z at e) (tt, h.1)
  | inr n ↦
      let (q, eq, er) = >>=-eq-ok (split_nul buf) (λ r. ok (b ∷ r.0, r.1)) (rw n at e) in
      let ih = split_nul-Text buf q h.1 eq in
      subst_ok (λ (x : Bytes × Bytes). Text x.0 × AreBytes x.1) er
        (((h.0, ground arith), ih.0), ih.1)
]

read_c_octet_str-Text :
    (maxlen : ℕ) (buf : Bytes) (r : Bytes × Bytes)
    → AreBytes buf
    → read_c_octet_str maxlen buf ≡ ok r
    → ((length r.0 < maxlen) × Text r.0) × AreBytes r.1
unfolding read_c_octet_str
read_c_octet_str-Text maxlen buf r h e =
    let (q, eq, er) =
      >>=-eq-ok (split_nul buf) (λ r. if leb maxlen (length r.0) then throw length_error else ok r)
        e in
    let t = split_nul-Text buf q h eq in
    elim (Bool-cases (leb maxlen (length q.0))) [
      | inl long ↦ cc (rw long at er)
      | inr short ↦
          subst_ok (λ (x : Bytes × Bytes). ((length x.0 < maxlen) × Text x.0) × AreBytes x.1)
            (rw short at er) ((ground arith, t.0), t.1)
    ]

read_u8_octet_str-AreBytes :
    (maxlen len : ℕ) (buf : Bytes) (r : Bytes × Bytes)
    → len < 256
    → AreBytes buf
    → read_u8_octet_str maxlen (len ∷ buf) ≡ ok r
    → ((length r.0 < maxlen + 1) × (length r.0 < 256) × AreBytes r.0) × AreBytes r.1
unfolding read_u8_octet_str
read_u8_octet_str-AreBytes maxlen len buf r l h e = elim (Bool-cases (leb (suc (length buf)) len)) [
  | inl short ↦ cc (rw short at e)
  | inr fits ↦ elim (Bool-cases (ltb maxlen (length (take len buf)))) [
    | inl long ↦ cc (rw (fits, long) at e)
    | inr held ↦
        subst_ok
          (λ (x : Bytes × Bytes).
            ((length x.0 < maxlen + 1) × (length x.0 < 256) × AreBytes x.0) × AreBytes x.1)
          (rw (fits, held) at e)
          (
            (
              ground arith,
              omega (arith, length-take len buf),
              All-take (λ (b : ℕ). b < 256) len buf h,
            ),
            All-drop (λ (b : ℕ). b < 256) len buf h,
          )
  ]
]

deserialize-Fits :
    (c : Codec) (buf : Bytes) (r : Value c × Bytes)
    → AreBytes buf
    → deserialize c buf ≡ ok r
    → Fits c r.0 × AreBytes r.1
unfolding deserialize
deserialize-Fits enum_u8 buf r h e = read_byte-lt buf r h e
deserialize-Fits u8 buf r h e = read_byte-lt buf r h e
deserialize-Fits flag_esm_class buf r h e =
    let (q, eq, er) = >>=-eq-ok (read_byte buf) (λ r. ok (EsmClass.from_u8 r.0, r.1)) e in
    let b = read_byte-lt buf q h eq in
    subst_ok (λ (x : EsmClass.EsmClass × Bytes). EsmClass.IsEsmClass x.0 × AreBytes x.1) er
      (EsmClass.from_u8-IsEsmClass q.0 b.0, b.1)
deserialize-Fits flag_registered_delivery buf r h e =
    let (q, eq, er) = >>=-eq-ok (read_byte buf) (λ r. ok (RegisteredDelivery.from_u8 r.0, r.1)) e in
    let b = read_byte-lt buf q h eq in
    subst_ok
      (λ (x : RegisteredDelivery.RegisteredDelivery × Bytes).
        RegisteredDelivery.IsRegisteredDelivery x.0 × AreBytes x.1)
      er (RegisteredDelivery.from_u8-IsRegisteredDelivery q.0 b.0, b.1)
deserialize-Fits smart buf r h e = Sound.deserialize-Sound buf r.0 r.1 h e
deserialize-Fits (c_octet_str maxlen) buf r h e = read_c_octet_str-Text maxlen buf r h e
deserialize-Fits (u8_octet_str maxlen) [] r h e = unfold read_u8_octet_str in cc e
deserialize-Fits (u8_octet_str maxlen) (len ∷ buf) r h e =
    read_u8_octet_str-AreBytes maxlen len buf r h.0 h.1 e

-- Bytes that the readers of a list of members accept give values that can be written again.
pub deserialize_members-AllFit :
    (cs : List Codec) (buf : Bytes) (r : Values cs × Bytes)
    → AreBytes buf
    → deserialize_members cs buf ≡ ok r
    → AllFit cs r.0
unfolding deserialize_members
deserialize_members-AllFit [] buf r h e = tt
deserialize_members-AllFit (c ∷ cs) buf r h e =
    let (q, eq, er) = >>=-eq-ok (deserialize c buf) _ e in
    let first = deserialize-Fits c buf q h eq in
    let (qs, eqs, ers) = >>=-eq-ok (deserialize_members cs q.1) (λ rs. ok ((q.0, rs.0), rs.1)) er in
    subst_ok (λ (x : Values (c ∷ cs) × Bytes). AllFit (c ∷ cs) x.0) ers
      (first.0, deserialize_members-AllFit cs q.1 qs first.1 eqs)
