-- ===== src/Routing/RuleMatcher/Matching.antt =====
-- `match` gives the numbers of the rules whose fields are all selected, ascending.
use smppgw.Base.{
  ℕ, zero, suc, ◌+◌, ◌*◌, ◌/◌, ◌<◌, ◌≤◌, ◌%◌, ◌≡◌, refl, ap, ap₂, sym, ◌∙◌, Bool, true, false, ◌&&◌,
  List, [], ◌∷◌, subst, ◌++◌, ◌==◌, arith, Bool-cases, inl, inr, length, ◌-◌, ltb, All, map,
  append-nil,
}
use smppgw.Base.Results.{ok}
use smppgw.Smpp.Byte.{Bytes}
use smppgw.Routing.BitSet.{BitSet, IsBitSet, bit_at, shift_right, word_count}
use smppgw.Routing.BitSet.Laws.{bit_at-and_assign}
use smppgw.Routing.BitSet.Writing.{bit_at-shift_right, shift_right-IsBitSet}
use smppgw.Routing.BitSet.Indices.{
  chosen, chosen_same, chosen-append, chosen_none, chosen-skip, get_set_bits_indices-chosen,
}
use smppgw.Routing.Trie.{Trie, lower}
use smppgw.Routing.Trie.Chars.{IsChar}
use smppgw.Routing.Trie.Matching.{IsTrie, match_query-selects}
use smppgw.Routing.RuleMatcher.{RuleMatcher, combine, match_get_bitset, match_rules}
use smppgw.Routing.RuleMatcher.Adding.{all_selected}
use smppgw.Routing.RuleMatcher.Rules.{IsMatcher}

-- A text whose characters the trie has an entry for, once they are in lower case.
abbrev pub IsField : Bytes → Type 0
IsField q = All IsChar (map lower q)

-- The bit behind the fields is set where the first was and the fields are selected.
combine-bits :
    (t : Trie) (fields : List Bytes) (r : BitSet)
    → IsTrie t
    → IsBitSet t.category_count r
    → All IsField fields
    → (a : BitSet) × (combine t fields r ≡ ok a)
      × IsBitSet t.category_count a
      × ((k : ℕ)
          → k + length fields < t.category_count
          → bit_at a (k + length fields)
            ≡ bit_at r k && all_selected t.root (map (map lower) fields) (k + 1))
unfolding combine all_selected
combine-bits t [] r h hr good =
    (r, refl, hr, λ k lt. let e : k + 0 ≡ k = omega arith in rw e (ground arith))
combine-bits t (field ∷ fields) r h hr good =
    let found = match_query-selects t h field good.0 in
    let both = bit_at-and_assign (shift_right-IsBitSet hr) found.2 in
    let rest = combine-bits t fields both.0 h both.2 good.1 in
    (
      rest.0,
      rw (found.1, both.1) rest.1,
      rest.2,
      λ k lt.
          let next : k + suc (length fields) ≡ (k + 1) + length fields = omega arith in
          let at : suc k ≡ k + 1 = omega arith in
          let shift =
            subst (λ j. bit_at (shift_right r) j ≡ bit_at r k) at
              (bit_at-shift_right hr (suc k) (omega arith)) in
          let this = both.3 (k + 1) in
          rw next (rest.3 (k + 1) (omega arith) ∙ ground (arith, this, found.3 (k + 1), shift)),
    )

-- The numbers of every fourth index.
every_fourth :
    (p : ℕ → Bool) (q : ℕ → Bool) (i count : ℕ)
    → ((j : ℕ) → (j % 4 == 3) ≡ false → p j ≡ false)
    → ((k : ℕ) → i ≤ k → k < i + count → p (k * 4 + 3) ≡ q k)
    → map (λ item. (item + 1) / 4 - 1) (chosen p (i * 4) (count * 4)) ≡ chosen q i count
unfolding chosen
every_fourth p q i zero last same = refl
every_fourth p q i (suc count) last same =
    let all : suc count * 4 ≡ 3 + suc (count * 4) = omega arith in
    let next : suc (i * 4 + 3) ≡ suc i * 4 = omega arith in
    let number : (i * 4 + 3 + 1) / 4 - 1 ≡ i = omega arith in
    let skip = chosen-skip p (i * 4) 3 (suc (count * 4)) (λ k lo hi. last k (ground arith)) in
    let rest =
      every_fourth p q (suc i) count last (λ k lo hi. same k (omega arith) (omega arith)) in
    ap (map _) (ap (chosen p (i * 4)) all ∙ skip) ∙ elim (Bool-cases (q i)) [
      | inl on ↦
          rw (next, same i (omega arith) (omega arith) ∙ on, on)
            (ap₂ (λ (a : ℕ) (b : List ℕ). a ∷ b) number rest)
      | inr off ↦ rw (next, same i (omega arith) (omega arith) ∙ off, off) rest
    ]

module _ {n : ℕ} {m : RuleMatcher} (h : IsMatcher n m) where
  -- The set of bits that `match` reads.
  match_get_bitset-bits :
      (fields : List Bytes)
      → length fields ≡ 4
      → All IsField fields
      → (a : BitSet) × (match_get_bitset m fields ≡ ok a)
        × IsBitSet (n * 4) a
        × ((j : ℕ) → (j % 4 == 3) && ltb j (n * 4) ≡ false → bit_at a j ≡ false)
        × ((k : ℕ)
            → k < n
            → bit_at a (k * 4 + 3) ≡ all_selected m.trie.root (map (map lower) fields) (k * 4))
  unfolding match_get_bitset all_selected
  match_get_bitset-bits [] long good = absurd (omega arith)
  match_get_bitset-bits (field ∷ fields) long good =
      let found = match_query-selects m.trie h.trie_good field good.0 in
      let rest = combine-bits m.trie fields found.0 h.trie_good found.2 good.1 in
      let both = bit_at-and_assign (subst (λ c. IsBitSet c rest.0) h.sized rest.2) h.masked in
      let test : (length (field ∷ fields) == m.rule_parameter_count) ≡ true =
        ground (arith, h.four) in
      (
        both.0,
        rw (found.1, rest.1, both.1, test) refl,
        both.2,
        λ j other. ground (arith, both.3 j, h.mask_bits j, other),
        λ k lt.
            let last : 3 ≡ length fields = omega arith in
            let bits = rest.3 (k * 4) (omega (arith, h.sized)) in
            let tail = all_selected m.trie.root (map (map lower) fields) (k * 4 + 1) in
            let all =
              subst (λ l. bit_at rest.0 (k * 4 + l) ≡ bit_at found.0 (k * 4) && tail) (sym last)
                bits in
            both.3 (k * 4 + 3) ∙ ground (arith, all, found.3 (k * 4), h.mask_bits (k * 4 + 3)),
      )

  -- For four fields whose characters, in lower case, the trie has entries for, a matcher for `n`
  -- rules returns the numbers below `n` whose four bits are all selected by the fields, ascending.
  pub match_rules-chosen :
      (fields : List Bytes)
      → length fields ≡ 4
      → All IsField fields
      → match_rules m fields
        ≡ ok (chosen (λ k. all_selected m.trie.root (map (map lower) fields) (k * 4)) 0 n)
  unfolding match_rules
  match_rules-chosen fields long good =
      let a = match_get_bitset-bits fields long good in
      let q : ℕ → Bool = λ k. bit_at a.0 (k * 4 + 3) in
      let rows = word_count (n * 4) * 16 in
      let extra = rows - n in
      let split : rows ≡ n + extra = omega arith in
      let four : word_count (n * 4) * 64 ≡ rows * 4 = omega arith in
      let numbers =
        every_fourth (bit_at a.0) q 0 rows (λ j other. a.3 j (rw other refl)) (λ k lo hi. refl) in
      let first = chosen_same q _ 0 n (λ k lo hi. a.4 k (omega arith)) in
      let past = chosen_none q (0 + n) extra (λ k lo hi. a.3 (k * 4 + 3) (ground arith)) in
      rw (a.1, h.four)
        (ap ok (
          ap (map (λ item. (item + 1) / 4 - 1))
            (get_set_bits_indices-chosen a.2 ∙ ap (chosen (bit_at a.0) 0) four)
          ∙ numbers
          ∙ ap (chosen q 0) split
          ∙ chosen-append q 0 n extra
          ∙ ap₂ (λ (x y : List ℕ). x ++ y) first past
          ∙ append-nil _))
