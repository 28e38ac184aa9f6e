-- ===== src/Routing/RuleMatcher/Rules.antt =====
-- A matcher for rules of four fields, as the gateway has it: what `set_rule` does to the rules.
use smppgw.Base.{
  ℕ, zero, suc, ◌+◌, ◌*◌, ◌<◌, ◌≤◌, ◌^◌, ◌%◌, ◌≡◌, ◌≢◌, refl, sym, ◌∙◌, Bool, true, false, not,
  ◌&&◌, ◌||◌, List, Option, none, some, ◌==◌, arith, inr, length, ◌-◌, ltb,
}
use smppgw.Base.Results.{ok, Exception}
use smppgw.Smpp.Byte.{Bytes}
use smppgw.Routing.BitSet.{BitSet, IsBitSet, make, bit_at}
use smppgw.Routing.BitSet.Laws.{make-IsBitSet, bit_at-make}
use smppgw.Routing.BitSet.Writing.{bit_at-set_bit}
use smppgw.Routing.Trie
use smppgw.Routing.Trie.{Trie, Node}
use smppgw.Routing.Trie.Found.{new_node-IsNode}
use smppgw.Routing.Trie.Matching.{IsTrie, selects, selects-new_node}
use smppgw.Routing.RuleMatcher.{
  add_fields, RuleMatcher, set_rule, set_mask, make_matcher, unless_throw,
}
use smppgw.Routing.RuleMatcher.Adding.{
  rule_matches, all_selected, all_selected_same, add_fields-Added,
}

-- The bits of the last fields.
abbrev pub is_last : ℕ → ℕ → Bool
is_last n j = (j % 4 == 3) && ltb j (n * 4)

-- A matcher for `n` rules. The bits of the rules that are not set yet are not selected.
pub record IsMatcher (n : ℕ) (m : RuleMatcher) : Type 0 where
  pub four : m.rule_parameter_count ≡ 4
  pub sized : m.trie.category_count ≡ n * 4
  pub room : n * 4 ≤ 2 ^ 32
  pub trie_good : IsTrie m.trie
  pub fresh : (q : Bytes) (j : ℕ) → m.count_of_set_rules * 4 ≤ j → selects m.trie.root q j ≡ false
  pub masked : IsBitSet (n * 4) m.match_mask
  pub mask_bits : (j : ℕ) → bit_at m.match_mask j ≡ is_last n j

set_mask-bits :
    (n count i : ℕ) (mask : BitSet)
    → IsBitSet (n * 4) mask
    → i + count ≤ n
    → (mask' : BitSet) × (set_mask count i 4 mask ≡ ok mask')
      × IsBitSet (n * 4) mask'
      × ((j : ℕ)
          → bit_at mask' j
            ≡ bit_at mask j || ((j % 4 == 3) && (ltb j ((i + count) * 4) && not (ltb j (i * 4)))))
unfolding set_mask
set_mask-bits n zero i mask h le = (mask, refl, h, λ j. ground arith)
set_mask-bits n (suc count) i mask h le =
    let one = bit_at-set_bit h ((i + 1) * 4 - 1) true (omega arith) in
    let rest = set_mask-bits n count (i + 1) one.0 one.2 (omega arith) in
    (rest.0, rw one.1 rest.1, rest.2, λ j. ground (arith, one.3 j, rest.3 j))

-- A new matcher has no rule.
pub make_matcher-IsMatcher :
    (n : ℕ)
    → n * 4 ≤ 2 ^ 32
    → (m : RuleMatcher) × (make_matcher n 4 ≡ ok m) × IsMatcher n m × (m.count_of_set_rules ≡ 0)
unfolding make_matcher
make_matcher-IsMatcher n le =
    let mask = set_mask-bits n n 0 (make (n * 4)) (make-IsBitSet (n * 4)) (omega arith) in
    (
      record {
        rule_parameter_count = 4;
        rules_count = n;
        count_of_set_rules = 0;
        trie = Trie.empty (n * 4);
        match_mask = mask.0;
      },
      rw mask.1 refl,
      record {
        four = refl;
        sized = refl;
        room = le;
        trie_good = new_node-IsNode (n * 4);
        fresh = λ q j le. selects-new_node (n * 4) q j;
        masked = mask.2;
        mask_bits = λ j. ground (arith, mask.3 j, bit_at-make (n * 4) j);
      },
      refl,
    )

unless_throw_ok :
    (e : Option Exception) (count id : ℕ) → unless_throw e count ≡ ok id → (e ≡ none) × (id ≡ count)
unless_throw_ok none count id same = (refl, cc)
unless_throw_ok (some e) count id same = cc

-- What `set_rule` makes of a matcher and its rules.
module _ {n : ℕ} {m : RuleMatcher} (h : IsMatcher n m) (rule : List (List Bytes)) where
  pub set_rule_at :
      m.count_of_set_rules < n
      → length rule ≡ 4
      → let r = add_fields m.trie (m.count_of_set_rules * 4) rule in
        set_rule m rule ≡ (
          record m { count_of_set_rules = m.count_of_set_rules + 1; trie = r.0 },
          unless_throw r.1 m.count_of_set_rules,
        )
  unfolding set_rule
  set_rule_at lt four =
      let at : m.count_of_set_rules % 2 ^ 32 ≡ m.count_of_set_rules = omega (arith, h.room) in
      rw (at, h.four, four) refl

  -- In a matcher for `n` rules of four fields, with fewer than `n` numbers used, a call with four
  -- fields keeps the invariant and uses up the next number, whether it returns or throws. The
  -- fields' bits of other numbers are selected as before. If it returns, it returns that number,
  -- and for a record of four fields the number's bits are all selected exactly where the rule
  -- matches the record.
  pub set_rule-IsMatcher :
      m.count_of_set_rules < n
      → length rule ≡ 4
      → let r = set_rule m rule in
        IsMatcher n r.0
        × (r.0.count_of_set_rules ≡ suc m.count_of_set_rules)
        × ((fields : List Bytes) (k : ℕ)
            → length fields ≡ 4
            → k ≢ m.count_of_set_rules
            → all_selected r.0.trie.root fields (k * 4) ≡ all_selected m.trie.root fields (k * 4))
        × ((id : ℕ)
            → r.1 ≡ ok id
            → (id ≡ m.count_of_set_rules)
              × ((fields : List Bytes)
                  → length fields ≡ 4
                  → all_selected r.0.trie.root fields (id * 4) ≡ rule_matches rule fields))
  set_rule-IsMatcher lt four =
      let count = m.count_of_set_rules in
      let root = m.trie.root in
      let r = add_fields m.trie (count * 4) rule in
      let added =
        add_fields-Added m.trie (count * 4) rule h.trie_good (omega (arith, h.sized))
          (omega (arith, h.sized, h.room)) in
      rw (set_rule_at lt four) (
        record {
          four = h.four;
          sized = added.0.0 ∙ h.sized;
          room = h.room;
          trie_good = added.0.1;
          fresh = λ q j le. added.0.2 q j (inr (omega arith)) ∙ h.fresh q j (omega arith);
          masked = h.masked;
          mask_bits = h.mask_bits;
        },
        omega arith,
        λ fields k long other.
            all_selected_same root r.0.root fields (k * 4)
              (λ q j lo hi. added.0.2 q j (ground (arith, four, long, other))),
        λ id returned.
            let (quiet, same) = unless_throw_ok r.1 count id returned in
            (same, λ fields long. rw same (added.1 fields quiet (long ∙ sym four) h.fresh)),
      )
