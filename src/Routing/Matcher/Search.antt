-- ===== src/Routing/Matcher/Search.antt =====
-- `find_target` against the table: the target of the last route that matches.
use smppgw.Base.{
  ℕ, zero, suc, ◌+◌, ◌*◌, ◌<◌, ◌≤◌, ◌≡◌, refl, ap, sym, ◌∙◌, Bool, true, false, List, [], ◌∷◌, none,
  some, map, ◌==◌, subst, if◌then◌else◌, arith, Bool-cases, inl, inr, ==_iff, All,
}
use smppgw.Base.Results.{ok}
use smppgw.Smpp.Byte.{Bytes}
use smppgw.Routing.BitSet.Indices.{chosen}
use smppgw.Routing.Trie.{lower}
use smppgw.Routing.RuleMatcher.Adding.{rule_matches, all_selected}
use smppgw.Routing.RuleMatcher.Matching.{IsField, match_rules-chosen}
use smppgw.Routing.Matcher.{
  RoutingInfo, get_list, Matcher, find_key, match_targets, pick, record_of, find_target,
}
use smppgw.Routing.Matcher.Table.{
  Table, IsTable, Ascends, Differs, numbers, target_of, is_route, IsMarked, Ascends-le,
  Ascends-widen,
}

-- The target of the last route whose fields match, and `acc` if there is none.
abbrev pub last_match : List Bytes → Bytes → Table → Bytes
last_match fields acc [] = acc
last_match fields acc (e ∷ table) =
    last_match fields (if rule_matches (get_list e.1) fields then e.1.info_target else acc) table

-- A table's routes below `lo` are gone; the maps hold the others.
abbrev Files : Matcher → ℕ → Table → Type 0
Files m lo table =
    ((k : ℕ) → lo ≤ k → find_key k m.prm_id_to_rule_id ≡ find_key k (numbers table))
    × ((id : ℕ) → is_route id table ≡ true → find_key id m.rule_id_mapping ≡ target_of id table)

find_key-numbers_low :
    (k lo hi : ℕ) (table : Table) → Ascends lo hi table → k < lo → find_key k (numbers table) ≡ none
unfolding find_key
find_key-numbers_low k lo hi [] h lt = refl
find_key-numbers_low k lo hi (e ∷ table) h lt =
    let differ : (e.0 == k) ≡ false = ground (arith, h.0) in
    rw differ (find_key-numbers_low k (suc e.0) hi table h.1 (omega (arith, h.0)))

nothing_left :
    (m : Matcher) (p : ℕ → Bool) (lo : ℕ) (acc : Bytes)
    → pick acc none (match_targets m (chosen p lo 0)) ≡ acc
unfolding pick match_targets chosen
nothing_left m p lo acc = refl

-- A number without a route is passed over.
match_targets-skip :
    (m : Matcher) (p : ℕ → Bool) (lo count : ℕ)
    → find_key lo m.prm_id_to_rule_id ≡ none
    → match_targets m (chosen p lo (suc count)) ≡ match_targets m (chosen p (suc lo) count)
unfolding match_targets chosen
match_targets-skip m p lo count absent = elim (Bool-cases (p lo)) [
  | inl on ↦ rw (on, absent) refl
  | inr off ↦ rw off refl
]

-- A number with a route gives its target, if it was chosen.
match_targets-hit :
    (m : Matcher) (p : ℕ → Bool) (lo count id : ℕ) (t : Bytes × ℕ) (acc : Bytes)
    → find_key lo m.prm_id_to_rule_id ≡ some id
    → find_key id m.rule_id_mapping ≡ some t
    → pick acc none (match_targets m (chosen p lo (suc count)))
      ≡ pick (if p lo then t.0 else acc) none (match_targets m (chosen p (suc lo) count))
unfolding match_targets chosen pick
match_targets-hit m p lo count id t acc number mapped = elim (Bool-cases (p lo)) [
  | inl on ↦ rw (on, number, mapped) refl
  | inr off ↦ rw off refl
]

-- What is filed for a table is filed for the table behind its first route.
Files-tail :
    (m : Matcher) (lo : ℕ) (e : ℕ × RoutingInfo) (table : Table)
    → lo ≤ e.0
    → Differs (e ∷ table)
    → Files m lo (e ∷ table)
    → Files m (suc e.0) table
unfolding find_key
Files-tail m lo e table le differ files = (
  λ k above.
      let other : (e.0 == k) ≡ false = ground arith in files.0 k (omega arith) ∙ rw other refl,
  λ id is. elim (Bool-cases (e.1.info_id == id)) [
    | inl same ↦
        let twice =
          subst (λ i. is_route i table ≡ true) (sym ((==_iff e.1.info_id id).0 same)) is in
        cc
    | inr other ↦ files.1 id (rw other is) ∙ rw other refl
  ],
)

pick-match_targets :
    (m : Matcher) (fields : List Bytes) (p : ℕ → Bool) (count lo : ℕ) (acc : Bytes) (table : Table)
    → Ascends lo (lo + count) table
    → Differs table
    → Files m lo table
    → All (λ e. p e.0 ≡ rule_matches (get_list e.1) fields) table
    → pick acc none (match_targets m (chosen p lo count)) ≡ last_match fields acc table
unfolding find_key
pick-match_targets m fields p zero lo acc [] up differ files same = nothing_left m p lo acc
pick-match_targets m fields p zero lo acc (e ∷ table) up differ files same =
    absurd (omega (arith, up.0, Ascends-le (suc e.0) (lo + 0) table up.1))
pick-match_targets m fields p (suc count) lo acc [] up differ files same =
    ap (pick acc none) (match_targets-skip m p lo count (files.0 lo (omega arith)))
    ∙ pick-match_targets m fields p count (suc lo) acc [] (omega arith) tt
        (λ k le. files.0 k (omega arith), files.1) tt
pick-match_targets m fields p (suc count) lo acc (e ∷ table) up differ files same =
    let hi : lo + suc count ≡ suc lo + count = omega arith in
    elim (Bool-cases (e.0 == lo)) [
      | inl here ↦
          let at : e.0 ≡ lo = (==_iff e.0 lo).0 here in
          let number = files.0 lo (omega arith) ∙ rw here refl in
          let self : (e.1.info_id == e.1.info_id) ≡ true = ground arith in
          let mapped = files.1 e.1.info_id (rw self refl) ∙ rw self refl in
          let rest =
            pick-match_targets m fields p count (suc lo) (if p lo then e.1.info_target else acc)
              table
              (subst (λ b. Ascends (suc lo) b table) hi
                (subst (λ b. Ascends (suc b) (lo + suc count) table) at up.1))
              differ.1
              (subst (λ b. Files m (suc b) table) at (Files-tail m lo e table up.0 differ files))
              same.1 in
          match_targets-hit m p lo count e.1.info_id (e.1.info_target, e.1.info_priority) acc number
            mapped
          ∙ rest
          ∙ ap (λ b. last_match fields (if b then e.1.info_target else acc) table)
              (ap p (sym at) ∙ same.0)
      | inr there ↦
          let above : suc lo ≤ e.0 = ground (arith, there, up.0) in
          let absent =
            files.0 lo (omega arith)
            ∙ find_key-numbers_low lo (suc lo) (lo + suc count) (e ∷ table) (above, up.1)
                (omega arith) in
          ap (pick acc none) (match_targets-skip m p lo count absent)
          ∙ pick-match_targets m fields p count (suc lo) acc (e ∷ table)
              (above, subst (λ b. Ascends (suc e.0) b table) hi up.1) differ
              (λ k le. files.0 k (omega arith), files.1) same
    ]

All-map {ℓ κ} :
    {A : Type 0} (P : A → Type ℓ) (Q : A → Type κ) (xs : List A)
    → ((a : A) → P a → Q a)
    → All P xs
    → All Q xs
All-map P Q [] f h = tt
All-map P Q (x ∷ xs) f h = (f x h.0, All-map P Q xs f h.1)

module _ {m : Matcher} {table : Table} (h : IsTable m table) where
  -- If the characters of a message's fields are such that the trie has an entry for them, its
  -- target is that of the last route in the table whose fields match, or the empty text.
  pub find_target-last_match :
      (from src_address dest_address pdu_type : Bytes) (is_available : Bytes → Bool)
      → let fields = record_of m from src_address dest_address pdu_type in
        All IsField fields
        → find_target m from src_address dest_address pdu_type is_available
          ≡ ok (last_match (map (map lower) fields) [] table)
  unfolding find_target
  find_target-last_match from src_address dest_address pdu_type is_available good =
      let fields = record_of m from src_address dest_address pdu_type in
      let query = map (map lower) fields in
      let p : ℕ → Bool = λ k. all_selected m.prefix_rule_matcher.trie.root query (k * 4) in
      let count = m.prefix_rule_matcher.count_of_set_rules in
      rw (match_rules-chosen h.matcher fields refl good) (
        ap ok (
          pick-match_targets m query p 1000 0 [] table
            (Ascends-widen 0 count 1000 table h.room h.ascends) h.differs
            (λ k le. rw h.numbered refl, λ id is. h.mapped id)
            (All-map (IsMarked m.prefix_rule_matcher)
              (λ e. p e.0 ≡ rule_matches (get_list e.1) query) table (λ e marked. marked query refl)
              h.marked)))
