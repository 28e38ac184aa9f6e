-- ===== src/Smpp/ShortMessage/Packing.antt =====
-- Packing a short message, and unpacking what was packed.
use smppgw.Base.{
  ℕ, suc, ◌%◌, ◌<◌, ◌≤◌, ◌≡◌, refl, ◌⊎◌, inl, inr, true, false, [], ◌∷◌, ◌++◌, length, ◌==◌, arith,
  Bool-cases, take-length_append, drop-length_append, length-append, lt→leb_false, ap,
}
use smppgw.Base.Results.{ok, throw, runtime_error}
use smppgw.Smpp.Byte.{Bytes}
use smppgw.Smpp.EsmClass.{EsmClass}
use smppgw.Smpp.ShortMessage.{
  extract_unicode, is_ascii_8_bit, UserDataHeader, AreHeaders, serialize, has_udhi, too_long,
  packed_header, pack_short_message, unpack_short_message, read_header,
}
use smppgw.Smpp.ShortMessage.Header.{read_header-serialize}

-- The flags say whether there is a header.
abbrev pub Announces : EsmClass → UserDataHeader → Type 0
Announces e [] = has_udhi e ≡ false
Announces e (h ∷ headers) = has_udhi e ≡ true

too_long_bound : (data_coding size : ℕ) → too_long data_coding size ≡ false → size ≤ 160
unfolding too_long
too_long_bound data_coding size h =
    elim (Bool-cases (is_ascii_8_bit (extract_unicode data_coding))) [
      | inl e ↦ ground arith
      | inr e ↦ ground arith
    ]

with_length : (bytes : Bytes) → 0 < length bytes → (length bytes == 0) ≡ false
with_length bytes h = ground arith

packed_header_cons :
    (h : ℕ × Bytes) (headers : UserDataHeader)
    → packed_header (h ∷ headers)
      ≡ (length (serialize (h ∷ headers)) % 256) ∷ serialize (h ∷ headers)
unfolding packed_header serialize
packed_header_cons h headers = rw (with_length (serialize (h ∷ headers)) (omega arith)) refl

unpacked_bare :
    (e : EsmClass) (data_coding : ℕ) (body : Bytes)
    → has_udhi e ≡ false
    → too_long data_coding (length (packed_header [] ++ body)) ≡ false
    → unpack_short_message e data_coding (packed_header [] ++ body) ≡ ok ([], body)
unfolding unpack_short_message packed_header serialize
unpacked_bare e data_coding body a fits = rw (fits, a) refl

unpack-split :
    (e : EsmClass) (data_coding n : ℕ) (bytes body : Bytes) (headers : UserDataHeader)
    → too_long data_coding (suc (length (bytes ++ body))) ≡ false
    → has_udhi e ≡ true
    → n ≡ length bytes
    → read_header bytes ≡ ok headers
    → unpack_short_message e data_coding (n ∷ (bytes ++ body)) ≡ ok (headers, body)
unfolding unpack_short_message
unpack-split e data_coding n bytes body headers fits a exact read =
    let size = length-append bytes body in
    rw
      (
        fits,
        a,
        exact,
        take-length_append bytes body,
        lt→leb_false (suc (length (bytes ++ body))) (length bytes) (omega (arith, size)),
        read,
      )
      (ap (λ rest. ok (headers, rest)) (drop-length_append bytes body))

unpacked :
    (e : EsmClass) (data_coding : ℕ) (headers : UserDataHeader) (body : Bytes)
    → AreHeaders headers
    → Announces e headers
    → too_long data_coding (length (packed_header headers ++ body)) ≡ false
    → unpack_short_message e data_coding (packed_header headers ++ body) ≡ ok (headers, body)
unpacked e data_coding [] body w a fits = unpacked_bare e data_coding body a fits
unpacked e data_coding (h ∷ hs) body w a fits =
    let bytes = serialize (h ∷ hs) in
    let split = packed_header_cons h hs in
    let fits' = rw split at fits in
    let long = too_long_bound data_coding _ fits' in
    rw split (
      unpack-split e data_coding _ bytes body (h ∷ hs) fits' a
        (omega (arith, long, length-append bytes body)) (read_header-serialize (h ∷ hs) w))

-- Packing headers that a message can carry, with flags that announce a header exactly when there is
-- one: a message that is too long for its data coding is refused, and another unpacks to the headers
-- and the body.
pub unpack_short_message-pack :
    (e : EsmClass) (data_coding : ℕ) (headers : UserDataHeader) (body : Bytes)
    → AreHeaders headers
    → Announces e headers
    → ((too_long data_coding (length (packed_header headers ++ body)) ≡ true)
        × (pack_short_message headers body data_coding ≡ throw runtime_error))
      ⊎ ((short_message : Bytes) × (pack_short_message headers body data_coding ≡ ok short_message)
          × (unpack_short_message e data_coding short_message ≡ ok (headers, body)))
unfolding pack_short_message
unpack_short_message-pack e data_coding headers body w a =
    let message = packed_header headers ++ body in
    elim (Bool-cases (too_long data_coding (length message))) [
      | inl d ↦ inl (d, rw d refl)
      | inr d ↦ inr (message, rw d refl, unpacked e data_coding headers body w a d)
    ]
