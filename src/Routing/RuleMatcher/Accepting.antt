-- ===== src/Routing/RuleMatcher/Accepting.antt =====
-- A rule whose texts have no other characters than the trie has entries for is not refused.
use smppgw.Base.{
  ℕ, ◌+◌, ◌-◌, ◌*◌, ◌<◌, ◌≤◌, ◌^◌, ◌%◌, ◌≡◌, refl, false, List, [], ◌∷◌, none, ◌==◌, arith,
  Bool-cases, inl, inr, length, get_or, All, All-take,
}
use smppgw.Base.Results.{ok}
use smppgw.Smpp.Byte.{Bytes}
use smppgw.Routing.Trie.{
  Trie, Node, EntryType, prefix, complete, add_entry, add_pattern, insert_node, child_or_new,
}
use smppgw.Routing.Trie.Chars.{IsChar, slot_of-lower}
use smppgw.Routing.Trie.Insert.{IsNode}
use smppgw.Routing.Trie.Found.{found-mark, child_or_new-IsNode}
use smppgw.Routing.Trie.Matching.{IsTrie}
use smppgw.Routing.RuleMatcher.{has_upper, add_texts, add_fields, RuleMatcher, set_rule}
use smppgw.Routing.RuleMatcher.Adding.{add_texts-Added, add_pattern-Added}
use smppgw.Routing.RuleMatcher.Rules.{IsMatcher, set_rule_at}

insert_node-returns :
    (m : ℕ) (n : Node) (c : ℕ) (w : Bytes) (tag : ℕ) (type : EntryType)
    → IsNode m n
    → tag < m
    → All IsChar (c ∷ w)
    → (insert_node m n (c ∷ w) tag type).thrown ≡ none
unfolding insert_node
insert_node-returns m n c [] tag type h lt good =
    let (s, at) = good.0 in
    rw (at, (found-mark m tag type _ (child_or_new-IsNode m s n h) lt).1) refl
insert_node-returns m n c (d ∷ w) tag type h lt good =
    let (s, at) = good.0 in
    rw at (
      insert_node-returns m (child_or_new m s n) d w tag type (child_or_new-IsNode m s n h) lt
        good.1)

add_entry-returns :
    (t : Trie) (w : Bytes) (tag : ℕ) (type : EntryType)
    → IsTrie t
    → tag < t.category_count
    → All IsChar w
    → (add_entry t w tag type).1 ≡ none
unfolding add_entry
add_entry-returns t [] tag type h lt good =
    rw (found-mark t.category_count tag type t.root h lt).1 refl
add_entry-returns t (c ∷ w) tag type h lt good =
    insert_node-returns t.category_count t.root c w tag type h lt good

add_pattern-returns :
    (t : Trie) (w : Bytes) (tag : ℕ)
    → IsTrie t
    → tag < t.category_count
    → All IsChar w
    → (add_pattern t w tag).1 ≡ none
unfolding add_pattern
add_pattern-returns t w tag h lt good = elim (Bool-cases (get_or w (length w - 1) 0 == 0x2A)) [
  | inl star ↦
      rw star (add_entry-returns t _ tag prefix h lt (All-take IsChar (length w - 1) w good))
  | inr whole ↦ rw whole (add_entry-returns t w tag complete h lt good)
]

has_upper_none : (w : Bytes) → All IsChar w → has_upper w ≡ false
has_upper_none [] good = refl
has_upper_none (c ∷ w) good = rw (slot_of-lower c good.0.0 good.0.1) (has_upper_none w good.1)

add_texts-returns :
    (t : Trie) (tag : ℕ) (ws : List Bytes)
    → IsTrie t
    → tag < t.category_count
    → All (All IsChar) ws
    → (add_texts t tag ws).1 ≡ none
unfolding add_texts
add_texts-returns t tag [] h lt good = refl
add_texts-returns t tag (w ∷ ws) h lt good =
    let added = add_pattern-Added t w tag h lt in
    rw (has_upper_none w good.0, add_pattern-returns t w tag h lt good.0)
      (add_texts-returns (add_pattern t w tag).0 tag ws added.0.1 (omega (arith, added.0.0)) good.1)

add_fields-returns :
    (t : Trie) (tag : ℕ) (rule : List (List Bytes))
    → IsTrie t
    → tag + length rule ≤ t.category_count
    → t.category_count ≤ 2 ^ 32
    → All (All (All IsChar)) rule
    → (add_fields t tag rule).1 ≡ none
unfolding add_fields
add_fields-returns t tag [] h room small good = refl
add_fields-returns t tag (texts ∷ rule) h room small good =
    let at : tag % 2 ^ 32 ≡ tag = omega arith in
    let added = add_texts-Added t tag texts h (omega arith) in
    rw (at, add_texts-returns t tag texts h (omega arith) good.0)
      (add_fields-returns (add_texts t tag texts).0 (tag + 1) rule added.0.1
        (omega (arith, added.0.0)) (omega (arith, added.0.0)) good.1)

module _ {n : ℕ} {m : RuleMatcher} (h : IsMatcher n m) (rule : List (List Bytes)) where
  -- The rule gets the next number.
  pub set_rule-returns :
      m.count_of_set_rules < n
      → length rule ≡ 4
      → All (All (All IsChar)) rule
      → (set_rule m rule).1 ≡ ok m.count_of_set_rules
  set_rule-returns lt four good =
      rw
        (
          set_rule_at h rule lt four,
          add_fields-returns m.trie (m.count_of_set_rules * 4) rule h.trie_good
              (omega (arith, h.sized)) (omega (arith, h.sized, h.room)) good,
        )
        refl
