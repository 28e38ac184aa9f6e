-- ===== src/Smpp/Oparam.antt =====
-- libs/smpp/param/oparam.hpp: the optional parameters of a PDU, tag-length-value triples.
-- The `std::map` is the list of its entries in the order of their tags.
pub mod RoundTrip
pub mod Sound
pub mod Reading
use smppgw.Base.{
  ℕ, zero, suc, ◌+◌, ◌≤◌, ◌<◌, Bool, true, false, List, [], ◌∷◌, ◌++◌, Option, none, some, length,
  take, drop, ltb, ◌==◌, if◌then◌else◌,
}
use smppgw.Base.Results.{Result, ok, throw, length_error, logic_error}
use smppgw.Smpp.Byte.{Bytes, AreBytes, u16_of, u16_bytes}

abbrev pub Oparam : Type 0
Oparam = List (ℕ × Bytes)

-- `std::map::emplace`: an entry that is there stays.
pub emplace : ℕ → Bytes → Oparam → Oparam
emplace tag val [] = (tag, val) ∷ []
emplace tag val ((t, v) ∷ m) =
    if ltb tag t
    then (tag, val) ∷ (t, v) ∷ m
    else if tag == t
    then (t, v) ∷ m
    else (t, v) ∷ emplace tag val m

-- `oparam_[tag] = val`: an entry that is there is overwritten.
pub assign : ℕ → Bytes → Oparam → Oparam
assign tag val [] = (tag, val) ∷ []
assign tag val ((t, v) ∷ m) =
    if ltb tag t
    then (tag, val) ∷ (t, v) ∷ m
    else if tag == t
    then (t, val) ∷ m
    else (t, v) ∷ assign tag val m

-- `std::map::find`.
pub find : ℕ → Oparam → Option Bytes
find tag [] = none
find tag ((t, v) ∷ m) = if t == tag then some v else find tag m

-- `while (buf->size() >= 4)`. A round takes four bytes or more, so the length of the buffer is fuel
-- enough (`read_loop-leftover`). What the loop leaves goes back to the caller's span.
pub read_loop : ℕ → Oparam → Bytes → Result (Oparam × Bytes)
read_loop zero m buf = ok (m, buf)
read_loop (suc fuel) m (a ∷ b ∷ c ∷ d ∷ rest) =
    let len = u16_of c d in
    let next = read_loop fuel (emplace (u16_of a b) (take len rest) m) (drop len rest) in
    if ltb (length rest) len then throw length_error else next
read_loop (suc fuel) m buf = ok (m, buf)

-- The constructor `oparam(std::span<const uint8_t>* buf)`.
unfoldable pub deserialize : Bytes → Result (Oparam × Bytes)
unfolding read_loop emplace
deserialize buf = read_loop (length buf) [] buf

-- `serialize`: the bytes that it appends to the vector.
unfoldable pub serialize : Oparam → Bytes
serialize [] = []
serialize ((tag, val) ∷ m) = u16_bytes tag ++ (u16_bytes (length val) ++ (val ++ serialize m))

pub erase : ℕ → Oparam → Oparam
erase tag [] = []
erase tag ((t, v) ∷ m) = if t == tag then m else (t, v) ∷ erase tag m

pub contains : ℕ → Oparam → Bool
unfolding find
contains tag m = elim (find tag m) [ none ↦ false | some v ↦ true ]

pub get_as_string : ℕ → Oparam → Result Bytes
unfolding find
get_as_string tag m = elim (find tag m) [ none ↦ throw logic_error | some v ↦ ok v ]

pub set_as_string : ℕ → Bytes → Oparam → Result Oparam
unfolding assign
set_as_string tag val m =
    if ltb 65535 (length val) then throw length_error else ok (assign tag val m)

-- `static_cast<T>(get_as_string(tag)[0])`: of an empty string `[0]` is the terminating zero.
pub get_as_enum_u8 : ℕ → Oparam → Result ℕ
unfolding get_as_string
get_as_enum_u8 tag m = elim (get_as_string tag m) [
  | throw e ↦ throw e
  | ok [] ↦ ok 0
  | ok (b ∷ v) ↦ ok b
]

-- `oparam_[tag] = static_cast<uint8_t>(val)` assigns the string of that one character.
pub set_as_enum_u8 : ℕ → ℕ → Oparam → Oparam
unfolding assign
set_as_enum_u8 tag val m = assign tag (val ∷ []) m

-- The tags ascend from `low`, and tags, lengths and bytes fit their types.
abbrev pub IsMapFrom : ℕ → Oparam → Type 0
IsMapFrom low [] = Unit {0}
IsMapFrom low ((t, v) ∷ m) =
    (low ≤ t) × (t < 65536) × (length v < 65536) × AreBytes v × IsMapFrom (t + 1) m

abbrev pub IsMap : Oparam → Type 0
IsMap = IsMapFrom 0
