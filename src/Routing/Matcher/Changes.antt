-- ===== src/Routing/Matcher/Changes.antt =====
-- The handlers against the table: what a change of the configuration does to the routes.
use smppgw.Base.{
  ℕ, suc, ◌*◌, ◌<◌, ◌≤◌, ◌≡◌, ◌≢◌, refl, ap, sym, ◌∙◌, subst, Bool, true, false, List, [], ◌∷◌,
  none, arith, Option-cases, inl, inr, All, All-append, length,
}
use smppgw.Base.Results.{
  Exception, Result, ok, throw, Result-cases, terminated, runtime_error, length_error, logic_error,
  invalid_argument, out_of_range,
}
use smppgw.Smpp.Byte.{Bytes}
use smppgw.Routing.RuleMatcher.{RuleMatcher, set_rule}
use smppgw.Routing.RuleMatcher.Adding.{all_selected}
use smppgw.Routing.RuleMatcher.Rules.{set_rule-IsMatcher}
use smppgw.Routing.RuleMatcher.Accepting.{set_rule-returns}
use smppgw.Routing.Trie.Chars.{IsChar}
use smppgw.Routing.Matcher.{
  RoutingInfo, get_list, Matcher, find_key, filed, add_rule, remove_rule, erase_value,
}
use smppgw.Routing.Matcher.Table.{
  Table, IsTable, Ascends, Ascends-le, Ascends-widen, All_below, IsMarked, without, numbers-without,
  Ascends-without, Differs-without, All-without, target_of-without, find_key-emplace,
  find_key-erase_key, assign_last, without_absent, target_of,
}
use smppgw.Routing.Matcher.Extended.{
  Ascends-with_route, Differs-with_route, target_of-with_route, is_route-none, numbers-with_route,
  with_route,
}

-- The table behind a call of `add_rule` that gave the number `number` to a route.
abbrev pub table_added : ℕ → RoutingInfo → Result Bool → Table → Table
table_added number info (ok true) table = with_route number info table
table_added number info other table = table

module _ {m : Matcher} {table : Table} (h : IsTable m table) where
  -- Routes keep their bits when a rule with another number is set.
  still_marked :
      (rules : RuleMatcher) (lo : ℕ) (rest : Table)
      → ((fields : List Bytes) (k : ℕ)
          → length fields ≡ 4
          → k ≢ m.prefix_rule_matcher.count_of_set_rules
          → all_selected rules.trie.root fields (k * 4)
            ≡ all_selected m.prefix_rule_matcher.trie.root fields (k * 4))
      → Ascends lo m.prefix_rule_matcher.count_of_set_rules rest
      → All (IsMarked m.prefix_rule_matcher) rest
      → All (IsMarked rules) rest
  still_marked rules lo [] kept up marked = tt
  still_marked rules lo (e ∷ rest) kept up marked =
      let below = Ascends-le (suc e.0) _ rest up.1 in
      (
        λ fields long.
            kept fields e.0 long (λ same. omega (arith, below, same)) ∙ marked.0 fields long,
        still_marked rules (suc e.0) rest kept up.1 marked.1,
      )

  module _ (info : RoutingInfo) (lt : m.prefix_rule_matcher.count_of_set_rules < 1000) where
    -- A rule that has got a number is a route with that number.
    filed-IsTable :
        (number : ℕ)
        → let r = set_rule m.prefix_rule_matcher (get_list info) in
          find_key info.info_id m.rule_id_mapping ≡ none
          → r.1 ≡ ok number
          → IsTable
              (filed m info r.0 (ok number)).0
              (with_route m.prefix_rule_matcher.count_of_set_rules info table)
    filed-IsTable number absent given =
        let count = m.prefix_rule_matcher.count_of_set_rules in
        let rules = (set_rule m.prefix_rule_matcher (get_list info)).0 in
        let (good, counted, kept, marked) = set_rule-IsMatcher h.matcher (get_list info) lt refl in
        let (same, bits) = marked number given in
        let new = is_route-none count info table (sym (h.mapped info.info_id) ∙ absent) in
        let below =
          subst (λ k. All (λ e. e.0 < k) m.prm_id_to_rule_id) (sym same)
            (rw h.numbered (All_below 0 count table h.ascends)) in
        record {
          matcher = good;
          room = omega (arith, counted);
          numbered =
              assign_last number info.info_id m.prm_id_to_rule_id below
              ∙ rw (h.numbered, same) (sym (numbers-with_route count info table));
          mapped = λ id.
              find_key-emplace info.info_id id _ m.rule_id_mapping absent
              ∙ rw (h.mapped id) (sym (target_of-with_route count info table id new));
          ascends =
              subst (λ k. Ascends 0 k (with_route count info table)) (sym counted)
                (Ascends-with_route count info 0 table h.ascends);
          differs = Differs-with_route count info table new h.differs;
          marked =
              All-append (IsMarked rules) table ((count, info) ∷ [])
                (still_marked rules 0 table kept h.ascends h.marked)
                (subst (λ k. IsMarked rules (k, info)) same bits, tt);
        }

    -- A rule that is refused leaves the routes, although it has used up a number.
    refused-IsTable :
        let r = set_rule m.prefix_rule_matcher (get_list info) in
        IsTable (record m { prefix_rule_matcher = r.0 }) table
    refused-IsTable =
        let (good, counted, kept, marked) = set_rule-IsMatcher h.matcher (get_list info) lt refl in
        record {
          matcher = good;
          room = omega (arith, counted);
          numbered = h.numbered;
          mapped = h.mapped;
          ascends = Ascends-widen 0 _ _ table (omega (arith, counted)) h.ascends;
          differs = h.differs;
          marked =
              still_marked (set_rule m.prefix_rule_matcher (get_list info)).0 0 table kept h.ascends
                h.marked;
        }

    refused :
        (e : Exception)
        → let r = filed m info (set_rule m.prefix_rule_matcher (get_list info)).0 (throw e) in
          IsTable r.0 (table_added m.prefix_rule_matcher.count_of_set_rules info r.1 table)
    refused terminated = refused-IsTable
    refused runtime_error = refused-IsTable
    refused length_error = refused-IsTable
    refused logic_error = refused-IsTable
    refused invalid_argument = refused-IsTable
    refused out_of_range = refused-IsTable

    pub add_rule-IsTable :
        let r = add_rule m info in
        IsTable r.0 (table_added m.prefix_rule_matcher.count_of_set_rules info r.1 table)
    unfolding add_rule
    add_rule-IsTable = elim (Option-cases (find_key info.info_id m.rule_id_mapping)) [
      | inr (t, taken) ↦ rw taken h
      | inl absent ↦ elim (Result-cases (set_rule m.prefix_rule_matcher (get_list info)).1) [
        | inr (e, thrown) ↦ rw (absent, thrown) (refused e)
        | inl (number, given) ↦ rw (absent, given) (filed-IsTable number absent given)
      ]
    ]

  -- The route with the identifier is taken out, if there is one.
  pub remove_rule-IsTable :
      (rule_id : ℕ) → IsTable (remove_rule m rule_id).0 (without rule_id table)
  unfolding remove_rule
  remove_rule-IsTable rule_id = elim (Option-cases (find_key rule_id m.rule_id_mapping)) [
    | inl absent ↦ rw (absent, without_absent rule_id table (sym (h.mapped rule_id) ∙ absent)) h
    | inr (t, taken) ↦ rw taken (record {
      matcher = h.matcher;
      room = h.room;
      numbered = ap (erase_value rule_id) h.numbered ∙ numbers-without rule_id table;
      mapped = λ id.
          find_key-erase_key rule_id id m.rule_id_mapping
          ∙ rw (h.mapped id) (sym (target_of-without rule_id id table h.differs));
      ascends = Ascends-without rule_id 0 _ table h.ascends;
      differs = Differs-without rule_id table h.differs;
      marked = All-without _ rule_id table h.marked;
    })
  ]

  -- While fewer than 1000 numbers are used, `add_rule` returns true for a route whose identifier
  -- no route of the table has and whose texts have no other characters than the trie has entries
  -- for.
  pub add_rule-returns :
      (info : RoutingInfo)
      → m.prefix_rule_matcher.count_of_set_rules < 1000
      → target_of info.info_id table ≡ none
      → All (All (All IsChar)) (get_list info)
      → (add_rule m info).1 ≡ ok true
  unfolding add_rule
  add_rule-returns info lt absent good =
      rw (h.mapped info.info_id ∙ absent, set_rule-returns h.matcher (get_list info) lt refl good)
        refl

  -- Whether or not the identifier is taken, the call returns, and uses up one number at most.
  pub add_rule-ends :
      (info : RoutingInfo)
      → m.prefix_rule_matcher.count_of_set_rules < 1000
      → All (All (All IsChar)) (get_list info)
      → let r = add_rule m info in
        (r.0.prefix_rule_matcher.count_of_set_rules ≤ suc m.prefix_rule_matcher.count_of_set_rules)
        × ((added : Bool) × (r.1 ≡ ok added))
  unfolding add_rule
  add_rule-ends info lt good = elim (Option-cases (find_key info.info_id m.rule_id_mapping)) [
    | inr (t, taken) ↦ rw taken (omega arith, (false, refl))
    | inl absent ↦
        let set = set_rule-IsMatcher h.matcher (get_list info) lt refl in
        rw (absent, set_rule-returns h.matcher (get_list info) lt refl good)
          (omega (arith, set.1), (true, refl))
  ]
