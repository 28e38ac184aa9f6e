-- ===== src/Routing/Trie/Chars.antt =====
-- The entry that a character has is its own.
use smppgw.Base.{
  ℕ, ◌+◌, ◌<◌, ◌≡◌, refl, sym, ◌∙◌, Bool, true, false, not, ◌&&◌, subst, ltb, ◌==◌, if◌then◌else◌,
  arith, Bool-cases, ==_iff,
}
use smppgw.Base.Results.{Result, ok, throw}
use smppgw.Smpp.Byte.{holds_below, holds_below_at}
use smppgw.Routing.Trie.{Slot, isupper, alphabet, integer, slot_of, fill_map, alphabets_map}

-- The character of an entry.
char_of : Slot → ℕ
char_of (alphabet i) = if ltb i 16 then 32 + i else if ltb i 23 then 42 + i else 68 + i
char_of (integer i) = 48 + i

-- The entry lies in its array.
abbrev pub is_within : Slot → Bool
is_within (alphabet i) = ltb i 59
is_within (integer i) = ltb i 10

fits : ℕ → Result Slot → Bool
unfolding char_of
fits c (ok s) = (char_of s == c) && (is_within s && not (isupper c))
fits c (throw e) = true

char_table : holds_below 128 (λ c. fits c (slot_of c)) ≡ true
unfolding holds_below fits slot_of alphabets_map fill_map
char_table = refl

slot_of_lt : (c : ℕ) (s : Slot) → slot_of c ≡ ok s → c < 128
unfolding slot_of
slot_of_lt c s e = ground (arith, Bool-cases (ltb c 128))

slot_of-fits : (c : ℕ) (s : Slot) → slot_of c ≡ ok s → fits c (ok s) ≡ true
slot_of-fits c s e =
    let h = holds_below_at (λ c. fits c (slot_of c)) 128 c char_table (slot_of_lt c s e) in
    subst (λ r. fits c r ≡ true) e h

char_of-slot_of : (c : ℕ) (s : Slot) → slot_of c ≡ ok s → char_of s ≡ c
unfolding fits
char_of-slot_of c s e =
    (==_iff _ c).0 (ground (arith, slot_of-fits c s e, Bool-cases (char_of s == c)))

-- The index of a character that the trie has an entry for lies within its array: below 59 for
-- `childrenAlphabet`, below 10 for `children`.
pub slot_of-within : (c : ℕ) (s : Slot) → slot_of c ≡ ok s → is_within s ≡ true
unfolding fits
slot_of-within c s e = ground (arith, slot_of-fits c s e, Bool-cases (char_of s == c))

-- A character with an entry is no capital.
pub slot_of-lower : (c : ℕ) (s : Slot) → slot_of c ≡ ok s → isupper c ≡ false
unfolding fits
slot_of-lower c s e =
    ground (arith, slot_of-fits c s e, Bool-cases (char_of s == c), Bool-cases (is_within s))

-- A character that the trie has an entry for.
abbrev pub IsChar : ℕ → Type 0
IsChar c = (s : Slot) × (slot_of c ≡ ok s)

pub slot_of_injective : (c d : ℕ) (s : Slot) → slot_of c ≡ ok s → slot_of d ≡ ok s → c ≡ d
slot_of_injective c d s ec ed = sym (char_of-slot_of c s ec) ∙ char_of-slot_of d s ed
