-- ===== src/Routing/BitSet.antt =====
-- src/routing/smpp/bit_set.h and bit_set.cpp. `word_size_` is the length of `storage_`; a failed
-- assertion ends the process. An index is below 2 ^ 31, where `std::div` takes it as it is.
pub mod Laws
pub mod Writing
pub mod Indices
use Prim.Native.Nat.{bit_and, bit_or, bit_xor}
use smppgw.Base.{
  ℕ, zero, suc, ◌+◌, ◌-◌, ◌*◌, ◌/◌, ◌%◌, ◌^◌, ◌<◌, ◌≡◌, Bool, true, false, not, ◌&&◌, List, [], ◌∷◌,
  ◌++◌, length, get_or, set, replicate, All, ltb, ◌==◌, if◌then◌else◌,
}
use smppgw.Base.Results.{Result, ok, throw, terminated}
use smppgw.Smpp.Byte.{Bytes}
use smppgw.Routing.Digits.{digit, shifted}

pub record BitSet : Type 0 where
  pub storage : List ℕ
  pub size : ℕ

-- `std::ceil(t_size / 64)`.
abbrev pub word_count : ℕ → ℕ
word_count t_size = (t_size + 63) / 64

abbrev pub make : ℕ → BitSet
make t_size = record { storage = replicate (word_count t_size) 0; size = t_size }

-- The tables: the one bit `i`, and every other bit.
abbrev pub ind_set : ℕ → ℕ
ind_set i = 2 ^ i

abbrev pub ind_unset : ℕ → ℕ
ind_unset i = 2 ^ 64 - 1 - 2 ^ i

-- `~`.
abbrev pub inverted : ℕ → ℕ
inverted w = 2 ^ 64 - 1 - w

abbrev pub word : BitSet → ℕ → ℕ
word s i = get_or s.storage i 0

-- The loop of `&=` and `|=`.
abbrev pub each_word : (ℕ → ℕ → ℕ) → List ℕ → List ℕ → List ℕ
each_word f (v ∷ vs) (w ∷ ws) = f v w ∷ each_word f vs ws
each_word f vs ws = vs

-- The loop of `==`, `check_set_flags` and `check_unset_flags`.
abbrev pub every_word : (ℕ → ℕ → Bool) → List ℕ → List ℕ → Bool
every_word test (v ∷ vs) (w ∷ ws) = if test v w then every_word test vs ws else false
every_word test vs ws = true

abbrev pub same_words {ℓ} : {A : Type ℓ} → BitSet → BitSet → A → Result A
same_words a b outcome =
    if length a.storage == length b.storage then ok outcome else throw terminated

-- `operator&=`.
unfoldable pub and_assign : BitSet → BitSet → Result BitSet
and_assign a rhs = same_words a rhs (record a { storage = each_word bit_and a.storage rhs.storage })

-- `operator|=`.
unfoldable pub or_assign : BitSet → BitSet → Result BitSet
or_assign a rhs = same_words a rhs (record a { storage = each_word bit_or a.storage rhs.storage })

-- `operator==`.
unfoldable pub equal : BitSet → BitSet → Result Bool
equal a rhs = same_words a rhs (every_word (λ v w. v == w) a.storage rhs.storage)

unfoldable pub check_set_flags : BitSet → BitSet → Result Bool
check_set_flags a cond =
    same_words a cond (every_word (λ v c. bit_and v c == c) a.storage cond.storage)

unfoldable pub check_unset_flags : BitSet → BitSet → Result Bool
check_unset_flags a cond =
    same_words a cond (every_word (λ v c. bit_and (inverted v) c == c) a.storage cond.storage)

-- The body of the loop at the word `suc i`: its shift, with the highest bit of the word before.
unfoldable pub carried : ℕ → ℕ → ℕ
carried before w =
    if not (bit_and before 0x8000000000000000 == 0) then bit_or (shifted w) 1 else shifted w

-- The loop from the word `i` down to the second, and then the first.
unfoldable pub shift_words : ℕ → List ℕ → List ℕ
shift_words zero ws = set ws 0 (shifted (get_or ws 0 0))
shift_words (suc i) ws =
    shift_words i (set ws (suc i) (carried (get_or ws i 0) (get_or ws (suc i) 0)))

-- `shift_right`, on a set with at least one word.
unfoldable pub shift_right : BitSet → BitSet
shift_right s = record s { storage = shift_words (length s.storage - 1) s.storage }

unfoldable pub set_bit : BitSet → ℕ → Bool → Result BitSet
set_bit s ind value =
    let quot = ind / 64 in
    let rem = ind % 64 in
    let w =
      if value then bit_or (word s quot) (ind_set rem) else bit_and (word s quot) (ind_unset rem) in
    if ltb ind s.size then ok (record s { storage = set s.storage quot w }) else throw terminated

-- `(storage_[res.quot] & ind_set_[res.rem]) ? true : false`.
abbrev pub is_set : BitSet → ℕ → Bool
is_set s ind = not (bit_and (word s (ind / 64)) (ind_set (ind % 64)) == 0)

unfoldable pub get : BitSet → ℕ → Result Bool
get s ind = if ltb ind s.size then ok (is_set s ind) else throw terminated

-- The loop of `to_string` over the indices `i` to `i + count - 1`.
unfoldable pub write_flags : BitSet → ℕ → ℕ → Bytes → Bytes
write_flags s zero i ret = ret
write_flags s (suc count) i ret =
    write_flags s count (i + 1) (if is_set s i then set ret i 0x31 else ret)

unfoldable pub to_string : BitSet → Bytes
to_string s = write_flags s s.size 0 (replicate s.size 0x30)

-- `__builtin_ctzll` at a word that is not zero: the number of unset bits below the lowest set one.
unfoldable pub trailing_zeros : ℕ → ℕ → ℕ
trailing_zeros zero w = 0
trailing_zeros (suc bits) w = if w % 2 == 1 then 0 else suc (trailing_zeros bits (w / 2))

-- `while(tmp)`. A round clears one bit, so 64 rounds are enough.
unfoldable pub word_indices : ℕ → ℕ → ℕ → List ℕ
word_indices zero i tmp = []
word_indices (suc fuel) i tmp =
    let pos = trailing_zeros 64 tmp in
    let rest = word_indices fuel i (bit_xor tmp (2 ^ pos)) in
    if tmp == 0 then [] else (i * 64 + pos) ∷ rest

-- The loop over the words, from the word `i`.
unfoldable pub storage_indices : ℕ → List ℕ → List ℕ
storage_indices i [] = []
storage_indices i (w ∷ ws) = word_indices 64 i w ++ storage_indices (i + 1) ws

-- `get_set_bits_indices` as GCC and Clang compile it.
unfoldable pub get_set_bits_indices : BitSet → List ℕ
get_set_bits_indices s = storage_indices 0 s.storage

-- The set that the words stand for.
unfoldable pub bit_at : BitSet → ℕ → Bool
bit_at s k = digit (k % 64) (word s (k / 64))

-- A set for `n` indices, with the words that they need.
pub record IsBitSet (n : ℕ) (s : BitSet) : Type 0 where
  pub sized : s.size ≡ n
  pub measured : length s.storage ≡ word_count n
  pub words : All (λ w. w < 2 ^ 64) s.storage
