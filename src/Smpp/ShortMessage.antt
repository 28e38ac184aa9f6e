-- ===== src/Smpp/ShortMessage.antt =====
-- libs/smpp/utility/short_message.hpp and data_coding_unicode.hpp: the user data header of a short
-- message, its concatenation data, and packing and unpacking. A `char` is signed, as on the platforms
-- the gateway is built for, so the conversion of a `char` to `uint16_t` extends the sign.
pub mod Header
pub mod Packing
pub mod Sound
use Prim.Native.Nat.{bit_and, bit_or}
use smppgw.Base.{
  ℕ, zero, suc, ◌+◌, ◌*◌, ◌/◌, ◌%◌, ◌<◌, ◌≡◌, Bool, true, false, ◌&&◌, ◌||◌, not, List, [], ◌∷◌,
  ◌++◌, Option, none, some, length, take, drop, ltb, leb, ◌==◌, if◌then◌else◌,
}
use smppgw.Base.Results.{Result, ok, throw, ◌>>=◌, length_error, runtime_error}
use smppgw.Smpp.Byte.{Bytes}
use smppgw.Smpp.EsmClass.{EsmClass}

pub data DataCodingUnicode : Type 0 where
  ascii_7_bit ascii_8_bit binary ucs2 : DataCodingUnicode

-- The alphabet of the general data coding groups with a message class.
alphabet_of : ℕ → DataCodingUnicode
alphabet_of data_coding =
    if bit_and data_coding 0x0c == 0x04
    then binary
    else if bit_and data_coding 0x0c == 0x08
    then ucs2
    else ascii_7_bit

any_of : ℕ → List ℕ → Bool
any_of value [] = false
any_of value (c ∷ cs) = (value == c) || any_of value cs

-- The codes of group 0.
default_group : ℕ → DataCodingUnicode
unfolding any_of
default_group code =
    if any_of code (0x00 ∷ 0x01 ∷ 0x03 ∷ 0x05 ∷ 0x06 ∷ 0x07 ∷ 0x0D ∷ 0x0E ∷ 0x0B ∷ 0x0C ∷ 0x0F ∷ [])
    then ascii_8_bit
    else if any_of code (0x02 ∷ 0x04 ∷ 0x09 ∷ 0x0A ∷ [])
    then binary
    else if code == 0x08
    then ucs2
    else ascii_7_bit

unfoldable pub extract_unicode : ℕ → DataCodingUnicode
unfolding alphabet_of default_group any_of
extract_unicode data_coding =
    let group = bit_and data_coding 0xf0 in
    if group == 0x00
    then default_group (bit_and data_coding 0x0f)
    else if any_of group (0x10 ∷ 0x20 ∷ 0x30 ∷ 0x40 ∷ 0x50 ∷ 0x60 ∷ 0x70 ∷ [])
    then alphabet_of data_coding
    else if any_of group (0x80 ∷ 0x90 ∷ 0xa0 ∷ 0xb0 ∷ 0xc0 ∷ 0xd0 ∷ [])
    then ascii_7_bit
    else if group == 0xe0
    then ucs2
    else if group == 0xf0
    then (if bit_and data_coding 0x04 == 0 then ascii_7_bit else binary)
    else ascii_7_bit

pub record MultiPartData : Type 0 where
  pub concat_sm_ref_num : ℕ
  pub number_of_parts : ℕ
  pub sequence_number : ℕ

abbrev pub concatenated_sm_8bit_ref : ℕ
concatenated_sm_8bit_ref = 0x00

abbrev pub concatenated_sm_16bit_ref : ℕ
concatenated_sm_16bit_ref = 0x08

-- `headers_`.
abbrev pub UserDataHeader : Type 0
UserDataHeader = List (ℕ × Bytes)

-- The condition under which the reader throws `runtime_error`.
abbrev pub multi_part_length_invalid : ℕ → ℕ → Bool
multi_part_length_invalid tag size =
    ((tag == concatenated_sm_8bit_ref) && not (size == 3))
    || ((tag == concatenated_sm_16bit_ref) && not (size == 4))

-- `while (buf.size() >= header_length)`. A round takes two bytes or more, so the length of the
-- buffer is fuel enough.
unfoldable pub header_loop : ℕ → Bytes → Result UserDataHeader
header_loop zero buf = ok []
header_loop (suc fuel) (tag ∷ val_length ∷ rest) =
    let next = header_loop fuel (drop val_length rest) in
    if ltb (length rest) val_length
    then throw length_error
    else if multi_part_length_invalid tag (length (take val_length rest))
    then throw runtime_error
    else (next >>= λ headers. ok ((tag, take val_length rest) ∷ headers))
header_loop (suc fuel) buf = ok []

-- The constructor `user_data_header(std::string_view buf)`.
unfoldable pub read_header : Bytes → Result UserDataHeader
read_header buf = header_loop (length buf) buf

unfoldable pub serialize : UserDataHeader → Bytes
serialize [] = []
serialize ((tag, val) ∷ headers) = tag ∷ (length val % 256) ∷ (val ++ serialize headers)

unfoldable pub set_multi_part_data : MultiPartData → UserDataHeader → UserDataHeader
set_multi_part_data mpd headers =
    let ref = mpd.concat_sm_ref_num in
    let parts = mpd.number_of_parts ∷ mpd.sequence_number ∷ [] in
    if ltb 0xFF ref
    then headers ++ (concatenated_sm_16bit_ref, (ref / 256 % 256) ∷ (ref % 256) ∷ parts) ∷ []
    else headers ++ (concatenated_sm_8bit_ref, (ref % 256) ∷ parts) ∷ []

-- `static_cast<uint16_t>(c)` of the `char` with this byte.
abbrev pub u16_of_char : ℕ → ℕ
u16_of_char c = if ltb c 128 then c else 0xFF00 + c

-- `std::find_if` by the tag: the value of the first header that has it.
unfoldable pub find_header : ℕ → UserDataHeader → Option Bytes
find_header tag [] = none
find_header tag ((t, val) ∷ headers) = if t == tag then some val else find_header tag headers

-- Indexing: the reader and the setter give these headers three and four bytes. A string that is
-- shorter reads as zero, as `operator[]` does at the length.
char_at : ℕ → Bytes → ℕ
char_at i [] = 0
char_at zero (c ∷ cs) = c
char_at (suc i) (c ∷ cs) = char_at i cs

unfoldable pub get_multi_part_data : UserDataHeader → MultiPartData
unfolding char_at
get_multi_part_data headers = elim (find_header concatenated_sm_8bit_ref headers) [
  | some v ↦ record {
    concat_sm_ref_num = u16_of_char (char_at 0 v);
    number_of_parts = char_at 1 v;
    sequence_number = char_at 2 v;
  }
  | none ↦ elim (find_header concatenated_sm_16bit_ref headers) [
    | some v ↦ record {
      concat_sm_ref_num =
          bit_or (u16_of_char (char_at 0 v) * 256) (u16_of_char (char_at 1 v)) % 65536;
      number_of_parts = char_at 2 v;
      sequence_number = char_at 3 v;
    }
    | none ↦ record { concat_sm_ref_num = 0; number_of_parts = 1; sequence_number = 1 }
  ]
]

abbrev pub is_ascii_8_bit : DataCodingUnicode → Bool
is_ascii_8_bit ascii_8_bit = true
is_ascii_8_bit _ = false

-- The two length tests of packing and unpacking.
unfoldable pub too_long : ℕ → ℕ → Bool
too_long data_coding size =
    (is_ascii_8_bit (extract_unicode data_coding) && ltb 160 size)
    || (not (is_ascii_8_bit (extract_unicode data_coding)) && ltb 140 size)

-- `gsm_network_features::udhi` or `both`.
abbrev pub has_udhi : EsmClass → Bool
has_udhi e = (e.gsm_network_features == 0x40) || (e.gsm_network_features == 0xC0)

unfoldable pub unpack_short_message : EsmClass → ℕ → Bytes → Result (UserDataHeader × Bytes)
unfolding char_at
unpack_short_message esm_class data_coding short_message =
    let udh_length = char_at 0 short_message in
    if too_long data_coding (length short_message)
    then throw runtime_error
    else if has_udhi esm_class
    then (if leb (length short_message) udh_length
        then throw runtime_error
        else (read_header (take udh_length (drop 1 short_message)) >>= λ headers.
            ok (headers, drop (suc udh_length) short_message)))
    else ok ([], short_message)

-- The header with its length before it, if there is one.
unfoldable pub packed_header : UserDataHeader → Bytes
packed_header headers =
    let serialized_udh = serialize headers in
    if length serialized_udh == 0 then [] else ((length serialized_udh % 256) ∷ serialized_udh)

unfoldable pub pack_short_message : UserDataHeader → Bytes → ℕ → Result Bytes
pack_short_message headers body data_coding =
    let short_message = packed_header headers ++ body in
    if too_long data_coding (length short_message) then throw runtime_error else ok short_message

-- Headers that a message can carry.
abbrev pub AreHeaders : UserDataHeader → Type 0
AreHeaders [] = Unit
AreHeaders ((tag, val) ∷ headers) =
    (tag < 256)
    × (length val < 256)
    × (multi_part_length_invalid tag (length val) ≡ false)
    × AreHeaders headers
