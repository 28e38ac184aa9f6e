-- ===== src/Routing/Trie/Found.antt =====
-- `insert_node` adds its entry to what a query finds, and nothing else.
use smppgw.Base.{
  ℕ, not, ◌<◌, ◌≡◌, refl, ap, sym, ◌∙◌, Bool, true, false, ◌&&◌, ◌||◌, [], ◌∷◌, Option, none, some,
  subst, ◌==◌, if◌then◌else◌, arith, Bool-cases, inl, inr, ==_iff, Option-cases,
}
use smppgw.Base.Results.{Result, ok, throw, Result-cases}
use smppgw.Smpp.Byte.{Bytes}
use smppgw.Routing.BitSet.{BitSet, bit_at}
use smppgw.Routing.BitSet.Laws.{make-IsBitSet}
use smppgw.Routing.BitSet.Writing.{bit_at-set_bit}
use smppgw.Routing.Trie.{
  Slot, alphabet, integer, slot_of, Node, node, Children, new_node, child, put_child, mark_prefix,
  mark_complete, child_or_new, mark, Inserted, marked, inserted_below, insert_node, EntryType,
  prefix, complete,
}
use smppgw.Routing.Trie.Insert.{
  IsNode, AreNodes, reached, step, found, accepts, found-none, found-new_node, step-put_child,
  child-IsNode, put_child-IsNode,
}

abbrev pub is_none {ℓ} : {A : Type ℓ} → Option A → Bool
is_none none = true
is_none (some a) = false

-- One more entry on the path of a query.
abbrev pub or_hit : Bool → Bool → ℕ → ℕ → Bool → Bool
or_hit before quiet tag j accepted = before || (quiet && (j == tag && accepted))

abbrev pub is_prefix : EntryType → Bool
is_prefix prefix = true
is_prefix complete = false

pub new_node-IsNode : (m : ℕ) → IsNode m (new_node m)
unfolding IsNode AreNodes
new_node-IsNode m = (make-IsBitSet m, make-IsBitSet m, tt, tt)

reached_children :
    (r : Result Slot) (mc mp mc' mp' : BitSet) (cs al : Children)
    → reached r (node mc mp cs al) ≡ reached r (node mc' mp' cs al)
reached_children (ok (alphabet i)) mc mp mc' mp' cs al = refl
reached_children (ok (integer i)) mc mp mc' mp' cs al = refl
reached_children (throw e) mc mp mc' mp' cs al = refl

module _ (tag : ℕ) (b b' : BitSet)
    (set : (k : ℕ) → bit_at b' k ≡ (if k == tag then true else bit_at b k)) where
  found_prefix :
      (mc : BitSet) (cs al : Children) (q : Bytes) (j : ℕ)
      → found q (some (node mc b' cs al)) j
        ≡ or_hit (found q (some (node mc b cs al)) j) true tag j (accepts prefix [] q)
  unfolding found step
  found_prefix mc cs al [] j = ground (arith, set j)
  found_prefix mc cs al (c ∷ q) j =
      rw (reached_children (slot_of c) mc b' mc b cs al) (ground (arith, set j))

  found_complete :
      (mp : BitSet) (cs al : Children) (q : Bytes) (j : ℕ)
      → found q (some (node b' mp cs al)) j
        ≡ or_hit (found q (some (node b mp cs al)) j) true tag j (accepts complete [] q)
  unfolding found step
  found_complete mp cs al [] j = ground (arith, set j)
  found_complete mp cs al (c ∷ q) j =
      rw (reached_children (slot_of c) b' mp b mp cs al) (ground arith)

pub found-mark :
    (m tag : ℕ) (type : EntryType) (n : Node)
    → IsNode m n
    → tag < m
    → (n' : Node) × (mark type tag n ≡ ok n')
      × IsNode m n'
      × ((q : Bytes) (j : ℕ)
          → found q (some n') j ≡ or_hit (found q (some n) j) true tag j (accepts type [] q))
      × ((j : ℕ)
          → bit_at (mark_prefix n') j
            ≡ or_hit (bit_at (mark_prefix n) j) true tag j (is_prefix type))
      × ((j : ℕ)
          → bit_at (mark_complete n') j
            ≡ or_hit (bit_at (mark_complete n) j) true tag j (not (is_prefix type)))
unfolding mark IsNode
found-mark m tag prefix (node mc mp cs al) h lt =
    let set = bit_at-set_bit h.1 tag true lt in
    (
      node mc set.0 cs al,
      rw set.1 refl,
      (h.0, set.2, h.2, h.3),
      found_prefix tag mp set.0 set.3 mc cs al,
      λ j. ground (arith, set.3 j),
      λ j. ground arith,
    )
found-mark m tag complete (node mc mp cs al) h lt =
    let set = bit_at-set_bit h.0 tag true lt in
    (
      node set.0 mp cs al,
      rw set.1 refl,
      (set.2, h.1, h.2, h.3),
      found_complete tag mc set.0 set.3 mp cs al,
      λ j. ground arith,
      λ j. ground (arith, set.3 j),
    )

pub child_or_new-IsNode : (m : ℕ) (s : Slot) (n : Node) → IsNode m n → IsNode m (child_or_new m s n)
unfolding child_or_new
child_or_new-IsNode m s n h = elim (Option-cases (child s n)) [
  | inl missing ↦ rw (child_or_new, missing) (new_node-IsNode m)
  | inr (t, there) ↦ rw (child_or_new, there) (child-IsNode m s n t h there)
]

found-child_or_new :
    (m c : ℕ) (s : Slot) (n : Node) (q : Bytes) (j : ℕ)
    → slot_of c ≡ ok s
    → found q (some (child_or_new m s n)) j ≡ found q (step c n) j
unfolding child_or_new step
found-child_or_new m c s n q j e = elim (Option-cases (child s n)) [
  | inl missing ↦ rw (e, child_or_new, missing) (found-new_node m j q ∙ sym (found-none q j))
  | inr (t, there) ↦ rw (e, child_or_new, there) refl
]

marks-put_child :
    (s : Slot) (t n : Node)
    → (mark_prefix (put_child s t n) ≡ mark_prefix n)
      × (mark_complete (put_child s t n) ≡ mark_complete n)
marks-put_child (alphabet i) t (node mc mp cs al) = (refl, refl)
marks-put_child (integer i) t (node mc mp cs al) = (refl, refl)

-- What a child finds behind its character is what its parent finds.
found-put_child :
    (m c tag j : ℕ) (s : Slot) (n t : Node) (quiet : Bool) (accepted : Bytes → Bool)
    → slot_of c ≡ ok s
    → ((q : Bytes)
        → found q (some t) j
          ≡ or_hit (found q (some (child_or_new m s n)) j) quiet tag j (accepted q))
    → (q : Bytes)
    → found q (some (put_child s t n)) j
      ≡ or_hit
          (found q (some n) j)
          quiet
          tag
          j
          (elim q [ [] ↦ false | d ∷ q' ↦ c == d && accepted q' ])
unfolding found
found-put_child m c tag j s n t quiet accepted e below [] =
    let kept = marks-put_child s t n in rw (kept.0, kept.1) (ground arith)
found-put_child m c tag j s n t quiet accepted e below (d ∷ q) =
    let kept = marks-put_child s t n in
    rw (kept.0, step-put_child c d s t n e)
      (elim (Bool-cases (c == d)) [
        | inl same ↦
            let at : slot_of d ≡ ok s = subst (λ k. slot_of k ≡ ok s) ((==_iff c d).0 same) e in
            rw same (ground (arith, below q, found-child_or_new m d s n q j at))
        | inr other ↦ rw other (ground arith)
      ])

accepts-cons :
    (type : EntryType) (c : ℕ) (w q : Bytes)
    → elim q as (λ _. Bool) [ [] ↦ false | d ∷ q' ↦ c == d && accepts type w q' ]
      ≡ accepts type (c ∷ w) q
accepts-cons prefix c w [] = refl
accepts-cons prefix c w (d ∷ q) = refl
accepts-cons complete c w [] = refl
accepts-cons complete c w (d ∷ q) = refl

-- The tree that is left, whether or not the call ended with an exception.
abbrev pub HasAdded : ℕ → Node → Bytes → ℕ → EntryType → Inserted → Type 0
HasAdded m n w tag type r =
    IsNode m r.tree
    × ((q : Bytes) (j : ℕ)
        → found q (some r.tree) j
          ≡ or_hit (found q (some n) j) (is_none r.thrown) tag j (accepts type w q))

-- From the child to its parent.
HasAdded-inserted_below :
    (m c tag : ℕ) (type : EntryType) (s : Slot) (n : Node) (w : Bytes) (r : Inserted)
    → IsNode m n
    → slot_of c ≡ ok s
    → HasAdded m (child_or_new m s n) w tag type r
    → HasAdded m n (c ∷ w) tag type (inserted_below s n r)
HasAdded-inserted_below m c tag type s n w r h e below = (
  put_child-IsNode m s n r.tree h below.0,
  λ q j.
      found-put_child m c tag j s n r.tree (is_none r.thrown) (accepts type w) e (λ q. below.1 q j)
        q
      ∙ ap (or_hit _ _ tag j) (accepts-cons type c w q),
)

pub insert_node-HasAdded :
    (m : ℕ) (n : Node) (w : Bytes) (tag : ℕ) (type : EntryType)
    → IsNode m n
    → tag < m
    → HasAdded m n w tag type (insert_node m n w tag type)
unfolding insert_node
insert_node-HasAdded m n [] tag type h lt = (h, λ q j. ground arith)
insert_node-HasAdded m n (c ∷ []) tag type h lt = elim (Result-cases (slot_of c)) [
  | inr (x, e) ↦ rw e (h, λ q j. ground arith)
  | inl (s, e) ↦
      let made = found-mark m tag type (child_or_new m s n) (child_or_new-IsNode m s n h) lt in
      rw (e, made.1)
        (HasAdded-inserted_below m c tag type s n [] (marked (child_or_new m s n) (ok made.0)) h e
          (made.2, made.3))
]
insert_node-HasAdded m n (c ∷ d ∷ w) tag type h lt = elim (Result-cases (slot_of c)) [
  | inr (x, e) ↦ rw e (h, λ q j. ground arith)
  | inl (s, e) ↦
      let t = child_or_new m s n in
      let r = insert_node m t (d ∷ w) tag type in
      let below = insert_node-HasAdded m t (d ∷ w) tag type (child_or_new-IsNode m s n h) lt in
      rw e (HasAdded-inserted_below m c tag type s n (d ∷ w) r h e below)
]

-- A call for a text that is not empty leaves the marks of the root.
pub marks-insert_node :
    (m : ℕ) (n : Node) (w : Bytes) (tag : ℕ) (type : EntryType)
    → (mark_prefix (insert_node m n w tag type).tree ≡ mark_prefix n)
      × (mark_complete (insert_node m n w tag type).tree ≡ mark_complete n)
unfolding insert_node
marks-insert_node m n [] tag type = (refl, refl)
marks-insert_node m n (c ∷ []) tag type = elim (Result-cases (slot_of c)) [
  | inl (s, e) ↦ rw e (marks-put_child s _ n)
  | inr (x, e) ↦ rw e (refl, refl)
]
marks-insert_node m n (c ∷ d ∷ w) tag type = elim (Result-cases (slot_of c)) [
  | inl (s, e) ↦ rw e (marks-put_child s _ n)
  | inr (x, e) ↦ rw e (refl, refl)
]
