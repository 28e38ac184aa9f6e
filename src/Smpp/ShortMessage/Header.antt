-- ===== src/Smpp/ShortMessage/Header.antt =====
-- The user data header, read and written, and the concatenation data in it.
use Prim.Native.Nat.{bit_or}
use smppgw.Base.{
  ltb_false→le, ℕ, zero, suc, ◌+◌, ◌*◌, ◌/◌, ◌%◌, ◌<◌, ◌≤◌, ◌≡◌, refl, inl, inr, true, false, [],
  ◌∷◌, ◌++◌, length, ltb, ◌==◌, if◌then◌else◌, arith, Bool-cases, take-length_append,
  drop-length_append, length-append, le→ltb_false, ap, ◌∙◌, ==_iff, subst, ◌-◌, ltb→lt,
}
use smppgw.Base.Results.{ok}
use smppgw.Smpp.Byte.{holds_below, holds_below_at}
use smppgw.Smpp.ShortMessage.{
  UserDataHeader, AreHeaders, MultiPartData, header_loop, read_header, serialize,
  set_multi_part_data, get_multi_part_data, u16_of_char, find_header,
}

header_loop-serialize :
    (fuel : ℕ) (headers : UserDataHeader)
    → length (serialize headers) ≤ fuel
    → AreHeaders headers
    → header_loop fuel (serialize headers) ≡ ok headers
unfolding header_loop serialize
header_loop-serialize zero [] h w = refl
header_loop-serialize (suc fuel) [] h w = refl
header_loop-serialize zero ((tag, val) ∷ headers) h w = absurd (omega arith)
header_loop-serialize (suc fuel) ((tag, val) ∷ headers) h (small, short, fits, ws) =
    let size = length-append val (serialize headers) in
    let exact : length val % 256 ≡ length val = omega arith in
    rw (
      exact,
      take-length_append val (serialize headers),
      drop-length_append val (serialize headers),
      le→ltb_false (length (val ++ serialize headers)) (length val) (omega (arith, size)),
      fits,
      header_loop-serialize fuel headers (omega (arith, size)) ws,
    )

-- Reading written headers that a message can carry gives the headers that were written.
pub read_header-serialize :
    (headers : UserDataHeader) → AreHeaders headers → read_header (serialize headers) ≡ ok headers
unfolding read_header
read_header-serialize headers w =
    header_loop-serialize (length (serialize headers)) headers (omega arith) w

-- The reference number that the reader makes of two characters.
abbrev ref_of_chars : ℕ → ℕ → ℕ
ref_of_chars hi lo = bit_or (u16_of_char hi * 256) (u16_of_char lo) % 65536

-- The same for a lower character that the conversion has extended.
abbrev high_chars : ℕ → ℕ → ℕ
high_chars hi extended = bit_or (u16_of_char hi * 256) extended % 65536

low_table :
    holds_below 256 (λ hi. holds_below 128 (λ lo. ref_of_chars hi lo == hi * 256 + lo)) ≡ true
unfolding holds_below
low_table = refl

high_table :
    holds_below 256 (λ hi. holds_below 128 (λ lo. high_chars hi (0xFF80 + lo) == 0xFF80 + lo))
    ≡ true
unfolding holds_below
high_table = refl

ref_of_chars_low : (hi lo : ℕ) → hi < 256 → lo < 128 → ref_of_chars hi lo ≡ hi * 256 + lo
ref_of_chars_low hi lo h k =
    (==_iff _ _).0 (holds_below_at _ 128 lo (holds_below_at _ 256 hi low_table h) k)

high_chars_extended :
    (hi lo : ℕ)
    → hi < 256
    → lo < 256
    → ltb lo 128 ≡ false
    → high_chars hi (0xFF00 + lo) ≡ 0xFF00 + lo
high_chars_extended hi lo h k e =
    subst (λ x. high_chars hi x ≡ x) (omega (arith, ltb_false→le lo 128 e))
      ((==_iff _ _).0
        (holds_below_at _ 128 (lo - 128) (holds_below_at _ 256 hi high_table h) (omega arith)))

-- What is read back, from the two bytes of the number that was set.
abbrev pub read_back : MultiPartData → MultiPartData
read_back mpd = record {
  concat_sm_ref_num =
      if ltb (mpd.concat_sm_ref_num % 256) 128
      then mpd.concat_sm_ref_num
      else 0xFF00 + mpd.concat_sm_ref_num % 256;
  number_of_parts = mpd.number_of_parts;
  sequence_number = mpd.sequence_number;
}

with_ref : MultiPartData → ℕ → MultiPartData
with_ref mpd ref = record {
  concat_sm_ref_num = ref;
  number_of_parts = mpd.number_of_parts;
  sequence_number = mpd.sequence_number;
}

short_ref :
    (mpd : MultiPartData)
    → ltb 0xFF mpd.concat_sm_ref_num ≡ false
    → get_multi_part_data (set_multi_part_data mpd [])
      ≡ with_ref mpd (u16_of_char (mpd.concat_sm_ref_num % 256))
unfolding get_multi_part_data set_multi_part_data find_header with_ref
short_ref mpd e = rw e refl

long_ref :
    (mpd : MultiPartData)
    → ltb 0xFF mpd.concat_sm_ref_num ≡ true
    → get_multi_part_data (set_multi_part_data mpd [])
      ≡ with_ref mpd
          (ref_of_chars (mpd.concat_sm_ref_num / 256 % 256) (mpd.concat_sm_ref_num % 256))
unfolding get_multi_part_data set_multi_part_data find_header with_ref
long_ref mpd e = rw e refl

ref_back :
    (ref : ℕ)
    → ref < 65536
    → 0xFF < ref
    → ref_of_chars (ref / 256 % 256) (ref % 256)
      ≡ (if ltb (ref % 256) 128 then ref else 0xFF00 + ref % 256)
ref_back ref h k = elim (Bool-cases (ltb (ref % 256) 128)) [
  | inl e ↦ rw e (
      rw e at (ref_of_chars_low (ref / 256 % 256) (ref % 256) (omega arith) (ltb→lt _ _ e))
      ∙ omega (arith, h))
  | inr e ↦ rw e (high_chars_extended (ref / 256 % 256) (ref % 256) (omega arith) (omega arith) e)
]

-- The concatenation data that is read from a header of its own: for a 16-bit reference number, the
-- number itself if its low byte is below 128, and 0xFF00 plus the low byte otherwise.
pub get_multi_part_data-set :
    (mpd : MultiPartData)
    → mpd.concat_sm_ref_num < 65536
    → get_multi_part_data (set_multi_part_data mpd []) ≡ read_back mpd
unfolding with_ref
get_multi_part_data-set mpd h = elim (Bool-cases (ltb 0xFF mpd.concat_sm_ref_num)) [
  | inl e ↦ long_ref mpd e ∙ ap (with_ref mpd) (ref_back mpd.concat_sm_ref_num h (ground arith))
  | inr e ↦ short_ref mpd e ∙ ap (with_ref mpd) (ground arith)
]
