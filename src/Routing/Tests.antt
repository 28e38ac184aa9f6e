-- ===== src/Routing/Tests.antt =====
-- The theorems on the routing of messages at concrete sets, tries and routes.
use smppgw.Base.{
  ℕ, ◌*◌, ◌≡◌, refl, ap, sym, Bool, true, false, List, [], ◌∷◌, map, arith, All, if◌then◌else◌, suc,
  length, reverse, ◌≢◌, Bool-cases, inl, inr, ◌∙◌,
}
use smppgw.Base.Results.{Result, ok, throw, ◌>>=◌}
use smppgw.Smpp.Byte.{Bytes}
use smppgw.Pinex.Text.{codes, eq_text}
use smppgw.Routing.BitSet
use smppgw.Routing.BitSet.{
  BitSet, bit_at, shift_right, get_set_bits_indices, set_bit, or_assign, IsBitSet,
}
use smppgw.Routing.BitSet.Writing.{bit_at-shift_right}
use smppgw.Routing.BitSet.Indices.{chosen, get_set_bits_indices-chosen}
use smppgw.Routing.Trie
use smppgw.Routing.Trie.{
  Slot, Trie, insert_node, mark, child_or_new, child_at, put_at, trace_nodes, alphabets_map,
  fill_map, add_entry, prefix, match_query, alphabet, integer, slot_of, lower,
}
use smppgw.Routing.Trie.Chars.{IsChar}
use smppgw.Routing.Trie.Found.{or_hit, is_none, new_node-IsNode}
use smppgw.Routing.Trie.Matching.{IsTrie, selects, accepted, selects-add_entry, match_query-selects}
use smppgw.Routing.RuleMatcher.{RuleMatcher, match_rules, set_rule}
use smppgw.Routing.RuleMatcher.Adding.{all_selected, rule_matches}
use smppgw.Routing.RuleMatcher.Rules.{IsMatcher, make_matcher-IsMatcher, set_rule-IsMatcher}
use smppgw.Routing.RuleMatcher.Matching.{match_rules-chosen, IsField}
use smppgw.Routing.Matcher.{
  Matcher, RouteNode, routing_info, on_routes_insert, find_target, make, record_of, unconfigured,
  add_rule,
}
use smppgw.Routing.Matcher.Table.{Table}
use smppgw.Routing.Matcher.Search.{last_match}
use smppgw.Routing.Matcher.Changes.{table_added, add_rule-returns}
use smppgw.Routing.Matcher.Configured.{
  Configured, IsRoute, Configured-IsTable, started, inserted, find_target-Configured,
  make-Configured,
}

-- A route for what begins with 98 and goes to "esme", and one for every deliver message.
abbrev prefix_route : RouteNode
prefix_route = record {
  id = 7;
  priority = 9;
  from = [];
  source_address = [];
  destination_address = codes "98*";
  pdu_type = codes "deliver";
  target = codes "esme";
}

abbrev any_route : RouteNode
any_route = record {
  id = 8;
  priority = 1;
  from = [];
  source_address = [];
  destination_address = [];
  pdu_type = codes "deliver";
  target = codes "other";
}

abbrev has_entry : Result Slot → Bool
has_entry (ok s) = true
has_entry (throw e) = false

abbrev all_entries : Bytes → Bool
all_entries [] = true
all_entries (c ∷ w) = if has_entry (slot_of c) then all_entries w else false

IsChar-slot_of : (c : ℕ) (r : Result Slot) → slot_of c ≡ r → has_entry r ≡ true → IsChar c
IsChar-slot_of c (ok s) e h = (s, e)
IsChar-slot_of c (throw x) e h = cc

all_chars : (w : Bytes) → all_entries w ≡ true → All IsChar w
all_chars [] h = tt
all_chars (c ∷ w) h = elim (Bool-cases (has_entry (slot_of c))) [
  | inl has ↦
      let rest = sym (ap (λ b. if b then all_entries w else false) has) ∙ h in
      (IsChar-slot_of c (slot_of c) refl has, all_chars w rest)
  | inr misses ↦ let none = sym (ap (λ b. if b then all_entries w else false) misses) ∙ h in cc
]

-- Three words, with the highest bit of the first.
abbrev three_words : BitSet
three_words = record { storage = 0x8000000000000000 ∷ 0 ∷ 5 ∷ []; size = 150 }

three_words-IsBitSet : IsBitSet 150 three_words
three_words-IsBitSet = record {
  sized = refl;
  measured = refl;
  words = (omega arith, (omega arith, (omega arith, tt)));
}

bit_at-shift_right_example : bit_at (shift_right three_words) 64 ≡ bit_at three_words 63
bit_at-shift_right_example = bit_at-shift_right three_words-IsBitSet 64 (omega arith)

get_set_bits_indices-chosen_example :
    get_set_bits_indices three_words ≡ chosen (bit_at three_words) 0 192
get_set_bits_indices-chosen_example = get_set_bits_indices-chosen three_words-IsBitSet

three_indices : get_set_bits_indices three_words ≡ 63 ∷ 128 ∷ 130 ∷ []
unfolding get_set_bits_indices BitSet.storage_indices BitSet.word_indices BitSet.trailing_zeros
three_indices = refl

abbrev eight : Trie
eight = Trie.empty 8

selects-add_entry_example :
    let r = add_entry eight (codes "98") 2 prefix in
    IsTrie r.0
    × ((q : Bytes) (j : ℕ)
        → selects r.0.root q j
          ≡ or_hit (selects eight.root q j) (is_none r.1) 2 j (accepted prefix (codes "98") q))
selects-add_entry_example =
    selects-add_entry eight (new_node-IsNode 8) (codes "98") 2 prefix (omega arith)

-- `match` finds the entry in the query.
found_prefix :
    (match_query (add_entry eight (codes "98") 2 prefix).0 (codes "98A*") >>= λ s.
    ok (get_set_bits_indices s))
    ≡ ok (2 ∷ [])
unfolding match_query add_entry insert_node mark set_bit child_or_new child_at put_at trace_nodes
    or_assign slot_of alphabets_map fill_map eq_text get_set_bits_indices BitSet.storage_indices
    BitSet.word_indices BitSet.trailing_zeros
found_prefix = refl

match_query-selects_example :
    (a : BitSet) × (match_query eight (codes "A1") ≡ ok a)
    × IsBitSet 8 a
    × ((j : ℕ) → bit_at a j ≡ selects eight.root (codes "a1") j)
unfolding slot_of alphabets_map fill_map
match_query-selects_example =
    match_query-selects eight (new_node-IsNode 8) (codes "A1") (all_chars (codes "a1") refl)

-- A matcher for two rules.
abbrev two_rules : RuleMatcher
two_rules = (make_matcher-IsMatcher 2 (omega arith)).0

two_rules-IsMatcher : IsMatcher 2 two_rules
two_rules-IsMatcher = (make_matcher-IsMatcher 2 (omega arith)).2

two_rules_empty : two_rules.count_of_set_rules ≡ 0
two_rules_empty = (make_matcher-IsMatcher 2 (omega arith)).3

abbrev rule : List (List Bytes)
rule = (codes "*" ∷ []) ∷ (codes "*" ∷ []) ∷ (codes "98*" ∷ []) ∷ (codes "3" ∷ []) ∷ []

set_rule-IsMatcher_example :
    let r = set_rule two_rules rule in
    IsMatcher 2 r.0
    × (r.0.count_of_set_rules ≡ suc two_rules.count_of_set_rules)
    × ((fields : List Bytes) (k : ℕ)
        → length fields ≡ 4
        → k ≢ two_rules.count_of_set_rules
        → all_selected r.0.trie.root fields (k * 4)
          ≡ all_selected two_rules.trie.root fields (k * 4))
    × ((id : ℕ)
        → r.1 ≡ ok id
        → (id ≡ two_rules.count_of_set_rules)
          × ((fields : List Bytes)
              → length fields ≡ 4
              → all_selected r.0.trie.root fields (id * 4) ≡ rule_matches rule fields))
set_rule-IsMatcher_example =
    set_rule-IsMatcher two_rules-IsMatcher rule (omega (arith, two_rules_empty)) refl

abbrev message : List Bytes
message = codes "c" ∷ codes "12" ∷ codes "98765" ∷ codes "3" ∷ []

message-IsField : All IsField message
unfolding slot_of alphabets_map fill_map
message-IsField = (
  all_chars (codes "c") refl,
  (all_chars (codes "12") refl, (all_chars (codes "98765") refl, (all_chars (codes "3") refl, tt))),
)

match_rules-chosen_example :
    match_rules two_rules message
    ≡ ok (chosen (λ k. all_selected two_rules.trie.root (map (map lower) message) (k * 4)) 0 2)
match_rules-chosen_example = match_rules-chosen two_rules-IsMatcher message refl message-IsField

-- The gateway's matcher with one route.
abbrev first_rules : RuleMatcher
first_rules = (make_matcher-IsMatcher 1000 (omega arith)).0

unrouted-Configured : Configured (unconfigured false first_rules) []
unrouted-Configured = started false first_rules (make_matcher-IsMatcher 1000 (omega arith)).1

abbrev routed : Matcher
routed = (on_routes_insert (unconfigured false first_rules) prefix_route).0

abbrev routed_table : Table
routed_table =
    table_added first_rules.count_of_set_rules (routing_info prefix_route)
      (add_rule (unconfigured false first_rules) (routing_info prefix_route)).1 []

routed-Configured : Configured routed routed_table
routed-Configured =
    let empty = (make_matcher-IsMatcher 1000 (omega arith)).3 in
    inserted unrouted-Configured prefix_route (omega (arith, empty))

abbrev routed_record : List Bytes
routed_record = record_of routed (codes "c") (codes "12") (codes "98765") (codes "3")

either_way :
    (reversed : Bool) → IsField (if reversed then reverse (codes "98765") else codes "98765")
unfolding slot_of alphabets_map fill_map
either_way true = all_chars (codes "56789") refl
either_way false = all_chars (codes "98765") refl

find_target-Configured_example :
    find_target routed (codes "c") (codes "12") (codes "98765") (codes "3") (λ id. true)
    ≡ ok (last_match (map (map lower) routed_record) [] routed_table)
find_target-Configured_example =
    find_target-Configured routed-Configured (codes "c") (codes "12") (codes "98765") (codes "3")
      (λ id. true)
      (
        message-IsField.0,
        (message-IsField.1.0, (either_way routed.reverse_routing, message-IsField.1.1.1)),
      )

prefix_route-IsRoute : IsRoute prefix_route
unfolding slot_of alphabets_map fill_map routing_info eq_text
prefix_route-IsRoute = (
  (all_chars (codes "*") refl, tt),
  (
    (all_chars (codes "*") refl, tt),
    ((all_chars (codes "98*") refl, tt), ((all_chars (codes "3") refl, tt), tt)),
  ),
)

make-Configured_example :
    (m : Matcher) × (table : Table) × (make true (prefix_route ∷ []) ≡ ok m) × Configured m table
make-Configured_example =
    make-Configured true (prefix_route ∷ []) (omega arith) (prefix_route-IsRoute, tt)

add_rule-returns_example :
    (add_rule (unconfigured false first_rules) (routing_info prefix_route)).1 ≡ ok true
unfolding routing_info
add_rule-returns_example =
    add_rule-returns (Configured-IsTable unrouted-Configured) (routing_info prefix_route)
      (omega (arith, (make_matcher-IsMatcher 1000 (omega arith)).3)) refl prefix_route-IsRoute
