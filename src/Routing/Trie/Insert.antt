-- ===== src/Routing/Trie/Insert.antt =====
-- What `trace_nodes` comes by on the path of a query, and how `insert_node` changes it.
use smppgw.Base.{
  ℕ, ◌≡◌, refl, ap, sym, ◌∙◌, Bool, true, false, ◌&&◌, ◌||◌, [], ◌∷◌, Option, none, some, subst,
  ◌==◌, if◌then◌else◌, arith, Bool-cases, inl, inr, ==_iff, ◌≢◌,
}
use smppgw.Base.Results.{Result, ok, throw, Result-cases}
use smppgw.Smpp.Byte.{Bytes}
use smppgw.Routing.BitSet.{IsBitSet, bit_at}
use smppgw.Routing.BitSet.Laws.{bit_at-make}
use smppgw.Routing.Trie.{
  Slot, alphabet, integer, slot_of, Node, node, Children, nullptr, nothing, entry, new_node,
  child_at, put_at, child, put_child, mark_prefix, mark_complete, EntryType, prefix, complete,
}
use smppgw.Routing.Trie.Chars.{slot_of_injective}

unfoldable mutual
  -- Every set of bits in the tree is one for `m` indices.
  pub IsNode : ℕ → Node → Type 0
  IsNode m (node mc mp cs al) = IsBitSet m mc × IsBitSet m mp × AreNodes m cs × AreNodes m al

  pub AreNodes : ℕ → Children → Type 0
  AreNodes m (entry i t cs) = IsNode m t × AreNodes m cs
  AreNodes m nullptr = Unit
  AreNodes m nothing = Unit

abbrev pub reached : Result Slot → Node → Option Node
reached (ok s) n = child s n
reached (throw e) n = none

-- The node below for a character.
unfoldable pub step : ℕ → Node → Option Node
step c n = reached (slot_of c) n

-- The bit `j` on the path of a query: as a prefix of it, or as the whole.
unfoldable pub found : Bytes → Option Node → ℕ → Bool
found q none j = false
found [] (some n) j = bit_at (mark_prefix n) j || bit_at (mark_complete n) j
found (c ∷ q) (some n) j = bit_at (mark_prefix n) j || found q (step c n) j

-- Whether an entry of a type is for a text.
abbrev pub accepts : EntryType → Bytes → Bytes → Bool
accepts prefix [] q = true
accepts complete [] [] = true
accepts complete [] (c ∷ q) = false
accepts type (c ∷ w) [] = false
accepts type (c ∷ w) (d ∷ q) = c == d && accepts type w q

pub found-none : (q : Bytes) (j : ℕ) → found q none j ≡ false
unfolding found
found-none [] j = refl
found-none (c ∷ q) j = refl

reached-new_node : (m : ℕ) (r : Result Slot) → reached r (new_node m) ≡ none
unfolding child_at
reached-new_node m (ok (alphabet i)) = refl
reached-new_node m (ok (integer i)) = refl
reached-new_node m (throw e) = refl

pub found-new_node : (m j : ℕ) (q : Bytes) → found q (some (new_node m)) j ≡ false
unfolding found step
found-new_node m j [] = rw (bit_at-make m j) refl
found-new_node m j (c ∷ q) = rw (bit_at-make m j, reached-new_node m (slot_of c)) (found-none q j)

child_at-put_at :
    (i j : ℕ) (t : Node) (cs : Children)
    → child_at j (put_at i t cs) ≡ (if i == j then some t else child_at j cs)
unfolding child_at put_at
child_at-put_at i j t nullptr = refl
child_at-put_at i j t nothing = refl
child_at-put_at i j t (entry k u cs) = elim (Bool-cases (k == i)) [
  | inl same ↦ rw (same, ap (λ k. k == j) ((==_iff k i).0 same)) (ground arith)
  | inr other ↦ rw (other, child_at-put_at i j t cs) (ground (arith, other))
]

child-put_same : (s : Slot) (t n : Node) → child s (put_child s t n) ≡ some t
child-put_same (alphabet i) t (node mc mp cs al) = child_at-put_at i i t al ∙ ground arith
child-put_same (integer i) t (node mc mp cs al) = child_at-put_at i i t cs ∙ ground arith

child-put_other : (s s' : Slot) (t n : Node) → s ≢ s' → child s' (put_child s t n) ≡ child s' n
child-put_other (alphabet i) (alphabet j) t (node mc mp cs al) h = elim (Bool-cases (i == j)) [
  | inl same ↦ absurd (h (ap alphabet ((==_iff i j).0 same)))
  | inr other ↦ child_at-put_at i j t al ∙ rw other refl
]
child-put_other (integer i) (integer j) t (node mc mp cs al) h = elim (Bool-cases (i == j)) [
  | inl same ↦ absurd (h (ap integer ((==_iff i j).0 same)))
  | inr other ↦ child_at-put_at i j t cs ∙ rw other refl
]
child-put_other (alphabet i) (integer j) t (node mc mp cs al) h = refl
child-put_other (integer i) (alphabet j) t (node mc mp cs al) h = refl

pub step-put_child :
    (c d : ℕ) (s : Slot) (t n : Node)
    → slot_of c ≡ ok s
    → step d (put_child s t n) ≡ (if c == d then some t else step d n)
unfolding step
step-put_child c d s t n e = elim (Bool-cases (c == d)) [
  | inl same ↦
      let at : slot_of d ≡ ok s = subst (λ k. slot_of k ≡ ok s) ((==_iff c d).0 same) e in
      rw (same, at) (child-put_same s t n)
  | inr other ↦ elim (Result-cases (slot_of d)) [
    | inl (s', at) ↦
        let different : s ≢ s' =
          λ k. ground (arith, other, slot_of_injective c d s e (at ∙ ap ok (sym k))) in
        rw (other, at) (child-put_other s s' t n different)
    | inr (x, at) ↦ rw (other, at) refl
  ]
]

AreNodes-child_at :
    (m i : ℕ) (t : Node) (cs : Children) → AreNodes m cs → child_at i cs ≡ some t → IsNode m t
unfolding AreNodes child_at
AreNodes-child_at m i t nullptr h e = cc
AreNodes-child_at m i t nothing h e = cc
AreNodes-child_at m i t (entry j u cs) h e = elim (Bool-cases (j == i)) [
  | inl same ↦
      let found : Option.some u ≡ some t =
        sym (ap (λ b. if b then some u else child_at i cs) same) ∙ e in
      subst (IsNode m) (cc) h.0
  | inr other ↦
      AreNodes-child_at m i t cs h.1 (sym (ap (λ b. if b then some u else child_at i cs) other) ∙ e)
]

put_at-AreNodes :
    (m i : ℕ) (t : Node) (cs : Children) → AreNodes m cs → IsNode m t → AreNodes m (put_at i t cs)
unfolding AreNodes put_at
put_at-AreNodes m i t nullptr h k = (k, tt)
put_at-AreNodes m i t nothing h k = (k, tt)
put_at-AreNodes m i t (entry j u cs) h k = elim (Bool-cases (j == i)) [
  | inl same ↦ rw same (k, h.1)
  | inr other ↦ rw other (h.0, put_at-AreNodes m i t cs h.1 k)
]

pub child-IsNode : (m : ℕ) (s : Slot) (n t : Node) → IsNode m n → child s n ≡ some t → IsNode m t
unfolding IsNode
child-IsNode m (alphabet i) (node mc mp cs al) t h e = AreNodes-child_at m i t al h.3 e
child-IsNode m (integer i) (node mc mp cs al) t h e = AreNodes-child_at m i t cs h.2 e

pub put_child-IsNode :
    (m : ℕ) (s : Slot) (n t : Node) → IsNode m n → IsNode m t → IsNode m (put_child s t n)
unfolding IsNode
put_child-IsNode m (alphabet i) (node mc mp cs al) t h k =
    (h.0, h.1, h.2, put_at-AreNodes m i t al h.3 k)
put_child-IsNode m (integer i) (node mc mp cs al) t h k =
    (h.0, h.1, put_at-AreNodes m i t cs h.2 k, h.3)
