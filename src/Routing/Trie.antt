-- ===== src/Routing/Trie.antt =====
-- src/routing/smpp/trie_matcher.h and trie_matcher.cpp: for each prefix or whole text that a rule
-- has for a field, the bit of that rule and field at the end of the text's path.
-- `char` is signed, so a byte of 128 or more is negative and becomes an index far beyond the map.
pub mod Chars
pub mod Insert
pub mod Found
pub mod Matching
use smppgw.Base.{
  ℕ, zero, suc, ◌+◌, ◌-◌, ◌*◌, Bool, true, false, not, ◌&&◌, List, [], ◌∷◌, Option, none, some,
  length, get_or, take, map, ltb, leb, ◌==◌, if◌then◌else◌,
}
use smppgw.Base.Results.{Exception, Result, ok, throw, ◌>>=◌, runtime_error, out_of_range}
use smppgw.Smpp.Byte.{Bytes}
use smppgw.Pinex.Text.{eq_text}
use smppgw.Routing.BitSet.{BitSet, make, or_assign, set_bit}

pub data EntryType : Type 0 where
  prefix complete : EntryType

-- <cctype> in the "C" locale.
abbrev pub isdigit : ℕ → Bool
isdigit c = leb 48 c && leb c 57

abbrev pub isupper : ℕ → Bool
isupper c = leb 65 c && leb c 90

abbrev pub isprint : ℕ → Bool
isprint c = leb 32 c && ltb c 127

-- The loop of the constructor: `ind` counts the characters that have got an index.
unfoldable pub fill_map : ℕ → ℕ → ℕ → List (Option ℕ)
fill_map zero i ind = []
fill_map (suc count) i ind =
    let rest = fill_map count (i + 1) in
    if isprint i && not (isupper i) && not (isdigit i)
    then some ind ∷ rest (ind + 1)
    else none ∷ rest ind

unfoldable pub alphabets_map : List (Option ℕ)
unfolding fill_map
alphabets_map = fill_map 256 0 0

-- The entry that a character has: in `childrenAlphabet`, or in `children`.
pub data Slot : Type 0 where
  alphabet : ℕ → Slot
  integer : ℕ → Slot

unfoldable pub slot_of : ℕ → Result Slot
slot_of c =
    if ltb c 128
    then elim (get_or alphabets_map c none) [
      | some index ↦ ok (alphabet index)
      | none ↦ if isdigit c then ok (integer (c - 48)) else throw runtime_error
    ]
    else throw out_of_range

mutual
  -- mark_Complete, mark_prefix, children, childrenAlphabet
  pub data Node : Type 0 where
    node : BitSet → BitSet → Children → Children → Node

  -- An array of pointers: not allocated, or the entries that are not null.
  pub data Children : Type 0 where
    nullptr : Children
    nothing : Children
    entry : ℕ → Node → Children → Children

abbrev pub new_node : ℕ → Node
new_node rules_count = node (make rules_count) (make rules_count) nothing nullptr

unfoldable pub child_at : ℕ → Children → Option Node
child_at i (entry j t cs) = if j == i then some t else child_at i cs
child_at i cs = none

unfoldable pub put_at : ℕ → Node → Children → Children
put_at i t (entry j u cs) = if j == i then entry i t cs else entry j u (put_at i t cs)
put_at i t nullptr = entry i t nothing
put_at i t nothing = entry i t nothing

abbrev pub child : Slot → Node → Option Node
child (alphabet i) (node mc mp cs al) = child_at i al
child (integer i) (node mc mp cs al) = child_at i cs

abbrev pub put_child : Slot → Node → Node → Node
put_child (alphabet i) t (node mc mp cs al) = node mc mp cs (put_at i t al)
put_child (integer i) t (node mc mp cs al) = node mc mp (put_at i t cs) al

abbrev pub mark_prefix : Node → BitSet
mark_prefix (node mc mp cs al) = mp

abbrev pub mark_complete : Node → BitSet
mark_complete (node mc mp cs al) = mc

-- What `byte_counts_` grows by for a child: a pointer, and the array of 59 if it is new.
unfoldable pub allocated : Slot → Node → ℕ
allocated (alphabet i) (node mc mp cs nullptr) = 8 * 59 + 8
allocated s n = elim (child s n) [ none ↦ 8 | some t ↦ 0 ]

unfoldable pub child_or_new : ℕ → Slot → Node → Node
child_or_new category_count s n = elim (child s n) [ none ↦ new_node category_count | some t ↦ t ]

-- `mark_prefix.set(t_ruleTag)`, or `mark_Complete`.
unfoldable pub mark : EntryType → ℕ → Node → Result Node
mark prefix tag (node mc mp cs al) = set_bit mp tag true >>= λ mp'. ok (node mc mp' cs al)
mark complete tag (node mc mp cs al) = set_bit mc tag true >>= λ mc'. ok (node mc' mp cs al)

-- The node as it is left behind, the bytes that were allocated, and the exception that was thrown.
pub record Inserted : Type 0 where
  pub tree : Node
  pub bytes : ℕ
  pub thrown : Option Exception

abbrev pub marked : Node → Result Node → Inserted
marked n (ok n') = record { tree = n'; bytes = 0; thrown = none }
marked n (throw e) = record { tree = n; bytes = 0; thrown = some e }

abbrev pub inserted_below : Slot → Node → Inserted → Inserted
inserted_below s n r = record {
  tree = put_child s r.tree n;
  bytes = allocated s n + r.bytes;
  thrown = r.thrown;
}

-- A character without an entry leaves the node as it is.
abbrev pub at_slot : Result Slot → Node → (Slot → Inserted) → Inserted
at_slot (ok s) n insert = insert s
at_slot (throw e) n insert = record { tree = n; bytes = 0; thrown = some e }

-- The byte behind the text is 0, which has no index.
unfoldable pub insert_node : ℕ → Node → Bytes → ℕ → EntryType → Inserted
insert_node cc n [] tag type = record { tree = n; bytes = 0; thrown = some runtime_error }
insert_node cc n (c ∷ []) tag type =
    at_slot (slot_of c) n
      (λ s. let t = child_or_new cc s n in inserted_below s n (marked t (mark type tag t)))
insert_node cc n (c ∷ d ∷ word) tag type =
    at_slot (slot_of c) n
      (λ s. inserted_below s n (insert_node cc (child_or_new cc s n) (d ∷ word) tag type))

unfoldable pub trace_nodes : Option Node → Bytes → BitSet → Result BitSet
trace_nodes none word result = ok result
trace_nodes (some n) [] result =
    or_assign result (mark_prefix n) >>= λ r. or_assign r (mark_complete n)
trace_nodes (some n) (c ∷ word) result =
    or_assign result (mark_prefix n) >>= λ r. slot_of c >>= λ s. trace_nodes (child s n) word r

pub record Trie : Type 0 where
  pub category_count : ℕ
  pub byte_counts : ℕ
  pub root : Node

-- The constructor. The map of characters is the constant above.
abbrev pub empty : ℕ → Trie
empty category_count = record {
  category_count = category_count;
  byte_counts = 0;
  root = new_node category_count;
}

abbrev pub inserted : Trie → Inserted → Trie × Option Exception
inserted t r = (record t { byte_counts = t.byte_counts + r.bytes; root = r.tree }, r.thrown)

-- `add_entry` with a type.
unfoldable pub add_entry : Trie → Bytes → ℕ → EntryType → Trie × Option Exception
add_entry t [] tag type = inserted t (marked t.root (mark type tag t.root))
add_entry t (c ∷ word) tag type =
    inserted t (insert_node t.category_count t.root (c ∷ word) tag type)

-- `add_entry` without: a text that ends with '*' is a prefix. The text is not empty.
unfoldable pub add_pattern : Trie → Bytes → ℕ → Trie × Option Exception
add_pattern t word tag =
    if get_or word (length word - 1) 0 == 0x2A
    then add_entry t (take (length word - 1) word) tag prefix
    else add_entry t word tag complete

abbrev pub lower : ℕ → ℕ
lower c = if isupper c then c + 32 else c

unfoldable pub match_query : Trie → Bytes → Result BitSet
match_query t query =
    let q = map lower query in
    let ret = make t.category_count in
    if eq_text q (0x2A ∷ [])
    then or_assign ret (mark_prefix t.root)
    else if eq_text q []
    then or_assign ret (mark_complete t.root)
    else trace_nodes (some t.root) q ret

unfoldable pub get_trie_size : Trie → ℕ
get_trie_size t = t.byte_counts
