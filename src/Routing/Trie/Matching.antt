-- ===== src/Routing/Trie/Matching.antt =====
-- `match` against the entries that were added, by text and type.
use smppgw.Base.{
  ℕ, ◌<◌, ◌≡◌, refl, ap, ◌∙◌, Bool, true, false, not, ◌&&◌, ◌||◌, [], ◌∷◌, Option, none, some,
  if◌then◌else◌, arith, Bool-cases, Option-cases, inl, inr, All, map,
}
use smppgw.Base.Results.{Result, ok}
use smppgw.Smpp.Byte.{Bytes}
use smppgw.Pinex.Text.{eq_text}
use smppgw.Routing.BitSet.{BitSet, make, IsBitSet, bit_at}
use smppgw.Routing.BitSet.Laws.{make-IsBitSet, bit_at-make, bit_at-or_assign}
use smppgw.Routing.Trie.{
  Slot, Node, node, child, mark_prefix, mark_complete, new_node, insert_node, trace_nodes, Trie,
  add_entry, match_query, lower, EntryType,
}
use smppgw.Routing.Trie.Chars.{IsChar}
use smppgw.Routing.Trie.Insert.{
  IsNode, found, found-none, found-new_node, step, accepts, child-IsNode,
}
use smppgw.Routing.Trie.Found.{
  or_hit, is_prefix, marks-insert_node, insert_node-HasAdded, is_none, insert_node-HasAdded,
  found-mark,
}

-- The bits that a call of `trace_nodes` or `|=` adds to those of a set.
abbrev Adds : ℕ → BitSet → (ℕ → Bool) → Result BitSet → Type 0
Adds m r p result =
    (a : BitSet) × (result ≡ ok a) × IsBitSet m a × ((j : ℕ) → bit_at a j ≡ bit_at r j || p j)

mark_prefix-IsBitSet : (m : ℕ) (n : Node) → IsNode m n → IsBitSet m (mark_prefix n)
unfolding IsNode
mark_prefix-IsBitSet m (node mc mp cs al) h = h.1

mark_complete-IsBitSet : (m : ℕ) (n : Node) → IsNode m n → IsBitSet m (mark_complete n)
unfolding IsNode
mark_complete-IsBitSet m (node mc mp cs al) h = h.0

-- A node that is there is one for `m` indices.
abbrev IsOption : ℕ → Option Node → Type 0
IsOption m none = Unit
IsOption m (some n) = IsNode m n

child-IsOption : (m : ℕ) (s : Slot) (n : Node) → IsNode m n → IsOption m (child s n)
child-IsOption m s n h = elim (Option-cases (child s n)) [
  | inl missing ↦ rw missing tt
  | inr (t, there) ↦ rw there (child-IsNode m s n t h there)
]

-- `trace_nodes` adds what is found, if the trie has an entry for each character of the query.
trace_nodes-found :
    (m : ℕ) (t : Option Node) (q : Bytes) (r : BitSet)
    → IsOption m t
    → IsBitSet m r
    → All IsChar q
    → Adds m r (found q t) (trace_nodes t q r)
unfolding trace_nodes found step
trace_nodes-found m none q r h hr chars = (r, refl, hr, λ j. rw (found-none q j) (ground arith))
trace_nodes-found m (some n) [] r h hr chars =
    let first = bit_at-or_assign hr (mark_prefix-IsBitSet m n h) in
    let both = bit_at-or_assign first.2 (mark_complete-IsBitSet m n h) in
    (both.0, rw (first.1) both.1, both.2, λ j. ground (arith, first.3 j, both.3 j))
trace_nodes-found m (some n) (c ∷ q) r h hr chars =
    let (s, at) = chars.0 in
    let first = bit_at-or_assign hr (mark_prefix-IsBitSet m n h) in
    let rest = trace_nodes-found m (child s n) q first.0 (child-IsOption m s n h) first.2 chars.1 in
    (rest.0, rw (first.1, at) rest.1, rest.2, λ j. rw at (ground (arith, first.3 j, rest.3 j)))

-- Every set of bits in the trie is one for as many indices as there are categories.
abbrev pub IsTrie : Trie → Type 0
IsTrie t = IsNode t.category_count t.root

-- The three cases of `match`, on the query in lower case.
unfoldable pub selects : Node → Bytes → ℕ → Bool
selects root q j =
    if eq_text q (0x2A ∷ [])
    then bit_at (mark_prefix root) j
    else if eq_text q []
    then bit_at (mark_complete root) j
    else found q (some root) j

-- Whether an entry is one for a query: '*' finds only the prefix that every text has, and the
-- empty query only an entry for the empty text as a whole.
unfoldable pub accepted : EntryType → Bytes → Bytes → Bool
accepted type w q =
    if eq_text q (0x2A ∷ [])
    then is_prefix type && eq_text w []
    else if eq_text q []
    then not (is_prefix type) && eq_text w []
    else accepts type w q

and_true : (b : Bool) → b ≡ b && eq_text [] []
unfolding eq_text
and_true b = ground arith

or_hit_never :
    (before quiet b : Bool) (tag j c : ℕ) (w : Bytes)
    → before ≡ or_hit before quiet tag j (b && eq_text (c ∷ w) [])
unfolding eq_text
or_hit_never before quiet b tag j c w = ground arith

-- The three cases together, from what each of them has got.
module _ (n n' : Node) (w : Bytes) (tag j : ℕ) (type : EntryType) (quiet : Bool) where
  abbrev Hit : Bool → Bool → Bool → Type 0
  Hit after before accepted = after ≡ or_hit before quiet tag j accepted

  selects-Hit :
      (q : Bytes)
      → Hit (bit_at (mark_prefix n') j) (bit_at (mark_prefix n) j) (is_prefix type && eq_text w [])
      → Hit
          (bit_at (mark_complete n') j)
          (bit_at (mark_complete n) j)
          (not (is_prefix type) && eq_text w [])
      → Hit (found q (some n') j) (found q (some n) j) (accepts type w q)
      → Hit (selects n' q j) (selects n q j) (accepted type w q)
  unfolding selects accepted
  selects-Hit q star whole trace = elim (Bool-cases (eq_text q (0x2A ∷ []))) [
    | inl e ↦ rw e star
    | inr e ↦ elim (Bool-cases (eq_text q [])) [ inl f ↦ rw (e, f) whole | inr f ↦ rw (e, f) trace ]
  ]

module _ (t : Trie) (h : IsTrie t) where
  -- If the trie has entries for the characters of the query in lower case, `match` returns the set
  -- of the bits that its root selects for the query in lower case.
  pub match_query-selects :
      (query : Bytes)
      → All IsChar (map lower query)
      → (a : BitSet) × (match_query t query ≡ ok a)
        × IsBitSet t.category_count a
        × ((j : ℕ) → bit_at a j ≡ selects t.root (map lower query) j)
  unfolding match_query selects
  match_query-selects query chars =
      let m = t.category_count in
      let q = map lower query in
      let empty = make-IsBitSet m in
      let star = bit_at-or_assign empty (mark_prefix-IsBitSet m t.root h) in
      let whole = bit_at-or_assign empty (mark_complete-IsBitSet m t.root h) in
      let trace = trace_nodes-found m (some t.root) q (make m) h empty chars in
      elim (Bool-cases (eq_text q (0x2A ∷ []))) [
        | inl e ↦ rw e (star.0, star.1, star.2, λ j. ground (arith, star.3 j, bit_at-make m j))
        | inr e ↦ elim (Bool-cases (eq_text q [])) [
          | inl f ↦
              rw (e, f) (whole.0, whole.1, whole.2, λ j. ground (arith, whole.3 j, bit_at-make m j))
          | inr f ↦
              rw (e, f) (trace.0, trace.1, trace.2, λ j. ground (arith, trace.3 j, bit_at-make m j))
        ]
      ]

  -- With a tag below the category count, `add_entry` keeps the invariant and adds to what each
  -- query selects the tag, where the text and the type accept the query, if the call returns, and
  -- nothing if it throws.
  pub selects-add_entry :
      (w : Bytes) (tag : ℕ) (type : EntryType)
      → tag < t.category_count
      → let r = add_entry t w tag type in
        IsTrie r.0
        × ((q : Bytes) (j : ℕ)
            → selects r.0.root q j
              ≡ or_hit (selects t.root q j) (is_none r.1) tag j (accepted type w q))
  unfolding add_entry
  selects-add_entry [] tag type lt =
      let (n', marks, good, hit, star, whole) = found-mark t.category_count tag type t.root h lt in
      rw marks (
        good,
        λ q j.
            selects-Hit t.root n' [] tag j type true q
              (star j ∙ ap (or_hit _ true tag j) (and_true (is_prefix type)))
              (whole j ∙ ap (or_hit _ true tag j) (and_true (not (is_prefix type)))) (hit q j),
      )
  selects-add_entry (c ∷ w) tag type lt =
      let m = t.category_count in
      let r = insert_node m t.root (c ∷ w) tag type in
      let added = insert_node-HasAdded m t.root (c ∷ w) tag type h lt in
      let kept = marks-insert_node m t.root (c ∷ w) tag type in
      (
        added.0,
        λ q j.
            selects-Hit t.root r.tree (c ∷ w) tag j type (is_none r.thrown) q
              (ap (λ s. bit_at s j) kept.0 ∙ or_hit_never _ _ (is_prefix type) tag j c w)
              (ap (λ s. bit_at s j) kept.1 ∙ or_hit_never _ _ (not (is_prefix type)) tag j c w)
              (added.1 q j),
      )

-- The root of an empty trie selects nothing.
pub selects-new_node : (m : ℕ) (q : Bytes) (j : ℕ) → selects (new_node m) q j ≡ false
unfolding selects
selects-new_node m q j = ground (
  arith,
  bit_at-make m j,
  found-new_node m j q,
  Bool-cases (eq_text q []),
  Bool-cases (eq_text q (0x2A ∷ [])),
)
