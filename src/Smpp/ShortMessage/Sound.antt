-- ===== src/Smpp/ShortMessage/Sound.antt =====
-- What the reader of a user data header accepts.
use smppgw.Base.{
  ℕ, zero, suc, ◌%◌, ◌<◌, ◌≤◌, ◌≡◌, refl, ap, inl, inr, false, [], ◌∷◌, ◌++◌, length, take, drop,
  ltb, arith, Bool-cases, All-drop, length-take, length-drop, take-append-drop, append_assoc,
}
use smppgw.Base.Results.{ok, >>=-eq-ok, subst_ok}
use smppgw.Smpp.Byte.{Bytes, AreBytes}
use smppgw.Smpp.ShortMessage.{
  UserDataHeader, AreHeaders, header_loop, read_header, serialize, multi_part_length_invalid,
}

-- The headers can be sent on, and they are the bytes that were read but for one at most.
abbrev pub Read : Bytes → UserDataHeader → Type 0
Read buf headers =
    AreHeaders headers × ((rest : Bytes) × (buf ≡ serialize headers ++ rest) × (length rest < 2))

whole :
    (n : ℕ) (rest left : Bytes) (headers : UserDataHeader)
    → n < 256
    → ltb (length rest) n ≡ false
    → drop n rest ≡ serialize headers ++ left
    → n ∷ rest ≡ (length (take n rest) % 256) ∷ ((take n rest ++ serialize headers) ++ left)
whole n rest left headers small long e =
    let exact : length (take n rest) % 256 ≡ n = ground (arith, length-take n rest) in
    rw (exact, append_assoc, ← e, take-append-drop n rest) refl

short_Read : (buf : Bytes) → length buf < 2 → Read buf []
unfolding serialize
short_Read buf h = (tt, (buf, refl, h))

step-Read :
    (tag n : ℕ) (rest : Bytes) (headers : UserDataHeader)
    → AreBytes (tag ∷ n ∷ rest)
    → ltb (length rest) n ≡ false
    → multi_part_length_invalid tag (length (take n rest)) ≡ false
    → Read (drop n rest) headers
    → Read (tag ∷ n ∷ rest) ((tag, take n rest) ∷ headers)
unfolding serialize
step-Read tag n rest headers b long right (w, (left, e, short)) = (
  (b.0, omega (arith, length-take n rest, b.1.0), right, w),
  (left, ap (λ bytes. tag ∷ bytes) (whole n rest left headers b.1.0 long e), short),
)

header_loop-Read :
    (fuel : ℕ) (buf : Bytes) (headers : UserDataHeader)
    → length buf ≤ fuel
    → AreBytes buf
    → header_loop fuel buf ≡ ok headers
    → Read buf headers
unfolding header_loop
header_loop-Read zero [] headers h b e = subst_ok (Read []) e (short_Read [] (omega arith))
header_loop-Read zero (x ∷ buf) headers h b e = absurd (omega arith)
header_loop-Read (suc fuel) [] headers h b e = subst_ok (Read []) e (short_Read [] (omega arith))
header_loop-Read (suc fuel) (x ∷ []) headers h b e =
    subst_ok (Read (x ∷ [])) e (short_Read (x ∷ []) (omega arith))
header_loop-Read (suc fuel) (tag ∷ n ∷ rest) headers h b e =
    elim (Bool-cases (ltb (length rest) n)) [
      | inl short ↦ cc short
      | inr long ↦ elim (Bool-cases (multi_part_length_invalid tag (length (take n rest)))) [
        | inl wrong ↦ cc (rw (long, wrong) at e)
        | inr right ↦
            let (hs, er, eq) =
              >>=-eq-ok (header_loop fuel (drop n rest)) _ (rw (long, right) at e) in
            subst_ok (Read (tag ∷ n ∷ rest)) eq (
              step-Read tag n rest hs b long right (
                header_loop-Read fuel (drop n rest) hs (omega (arith, length-drop n rest))
                  (All-drop (λ (x : ℕ). x < 256) n rest b.1.1) er))
      ]
    ]

-- Bytes that are read without an error give headers that can be sent, and the headers' bytes are the
-- bytes that were read, but for at most one that is left at the end.
pub read_header-Read :
    (buf : Bytes) (headers : UserDataHeader)
    → AreBytes buf
    → read_header buf ≡ ok headers
    → Read buf headers
unfolding read_header
read_header-Read buf headers b e = header_loop-Read (length buf) buf headers (omega arith) b e
