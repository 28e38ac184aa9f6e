-- ===== src/Routing/Matcher/Configured.antt =====
-- A matcher under the configuration's changes: its table, what it finds, and its start.
use smppgw.Base.{◌+◌, ◌<◌, ◌≤◌, ◌≡◌, refl, sym, ◌∙◌, Bool, List, [], ◌∷◌, map, arith, All, length}
use smppgw.Base.Results.{ok, subst_ok}
use smppgw.Smpp.Byte.{Bytes}
use smppgw.Routing.Trie.{lower}
use smppgw.Routing.Trie.Chars.{IsChar}
use smppgw.Routing.RuleMatcher.{RuleMatcher, make_matcher}
use smppgw.Routing.RuleMatcher.Rules.{IsMatcher, make_matcher-IsMatcher}
use smppgw.Routing.RuleMatcher.Matching.{IsField}
use smppgw.Routing.Matcher.{
  RouteNode, routing_info, get_list, Matcher, find_key, find_target, record_of, add_rule,
  on_routes_insert, on_routes_remove, on_reverse_routing_replace, unconfigured, init_routes, make,
}
use smppgw.Routing.Matcher.Table.{Table, IsTable, without}
use smppgw.Routing.Matcher.Search.{last_match, find_target-last_match}
use smppgw.Routing.Matcher.Changes.{
  table_added, add_rule-IsTable, add_rule-ends, remove_rule-IsTable,
}

-- What the configuration makes of a new matcher, with the table that it stands for. No more than
-- 1000 routes have been inserted, refused ones and removed ones included.
pub data Configured : Matcher → Table → Type 0 where
  started :
      (reverse_routing : Bool) (rules : RuleMatcher)
      → make_matcher 1000 4 ≡ ok rules
      → Configured (unconfigured reverse_routing rules) []
  inserted :
      {m : Matcher} {table : Table}
      → Configured m table
      → (config : RouteNode) → m.prefix_rule_matcher.count_of_set_rules < 1000
      → Configured (on_routes_insert m config).0 (
          table_added m.prefix_rule_matcher.count_of_set_rules
            (routing_info config)
            (add_rule m (routing_info config)).1
            table)
  removed :
      {m : Matcher} {table : Table}
      → Configured m table
      → (config : RouteNode) → Configured (on_routes_remove m config).0 (without config.id table)
  replaced :
      {m : Matcher} {table : Table}
      → Configured m table
      → (value : Bool) → Configured (on_reverse_routing_replace m value) table

-- A matcher without routes stands for the empty table.
unconfigured-IsTable :
    (reverse_routing : Bool) (rules : RuleMatcher)
    → make_matcher 1000 4 ≡ ok rules
    → IsTable (unconfigured reverse_routing rules) []
unfolding find_key
unconfigured-IsTable reverse_routing rules made =
    let (rules', made', good', empty') = make_matcher-IsMatcher 1000 (omega arith) in
    let (good, empty) =
      subst_ok (λ rules. IsMatcher 1000 rules × (rules.count_of_set_rules ≡ 0)) (sym made' ∙ made)
        (good', empty') in
    record {
      matcher = good;
      room = omega (arith, empty);
      numbered = refl;
      mapped = λ id. refl;
      ascends = omega arith;
      differs = tt;
      marked = tt;
    }

pub Configured-IsTable : {m : Matcher} {table : Table} → Configured m table → IsTable m table
unfolding on_routes_insert on_routes_remove on_reverse_routing_replace find_key
Configured-IsTable (started reverse_routing rules made) =
    unconfigured-IsTable reverse_routing rules made
Configured-IsTable (inserted c config lt) =
    add_rule-IsTable (Configured-IsTable c) (routing_info config) lt
Configured-IsTable (removed c config) = remove_rule-IsTable (Configured-IsTable c) config.id
Configured-IsTable (replaced c value) =
    let h = Configured-IsTable c in
    record {
      matcher = h.matcher;
      room = h.room;
      numbered = h.numbered;
      mapped = h.mapped;
      ascends = h.ascends;
      differs = h.differs;
      marked = h.marked;
    }

-- Whatever the configuration has done to a new matcher, with fewer than 1000 routes inserted
-- before each insertion: a message with characters that the trie has entries for goes to the
-- target of the route inserted last among those in the table that match it, or to the empty text
-- if none does. Priorities play no part.
pub find_target-Configured :
    {m : Matcher} {table : Table}
    → Configured m table
    → (from src_address dest_address pdu_type : Bytes) (is_available : Bytes → Bool)
    → let fields = record_of m from src_address dest_address pdu_type in
      All IsField fields
      → find_target m from src_address dest_address pdu_type is_available
        ≡ ok (last_match (map (map lower) fields) [] table)
find_target-Configured c = find_target-last_match (Configured-IsTable c)

-- The texts of a route have no other characters than the trie has entries for.
abbrev pub IsRoute : RouteNode → Type 0
IsRoute config = All (All (All IsChar)) (get_list (routing_info config))

init_routes-Configured :
    (m : Matcher) (table : Table) (routes : List RouteNode)
    → Configured m table
    → m.prefix_rule_matcher.count_of_set_rules + length routes ≤ 1000
    → All IsRoute routes
    → (m' : Matcher) × (table' : Table) × (init_routes m routes ≡ ok m') × Configured m' table'
unfolding init_routes on_routes_insert
init_routes-Configured m table [] c room good = (m, table, refl, c)
init_routes-Configured m table (config ∷ routes) c room good =
    let info = routing_info config in
    let ends = add_rule-ends (Configured-IsTable c) info (omega arith) good.0 in
    let r = add_rule m info in
    let added = inserted c config (omega arith) in
    let rest = init_routes-Configured r.0 _ routes added (omega (arith, ends.0)) good.1 in
    (rest.0, rest.1, rw ends.1.1 rest.2, rest.3)

-- From up to 1000 routes whose texts have no other characters than the trie has entries for, the
-- constructor makes a matcher, and returns.
pub make-Configured :
    (reverse_routing : Bool) (routes : List RouteNode)
    → length routes ≤ 1000
    → All IsRoute routes
    → (m : Matcher) × (table : Table) × (make reverse_routing routes ≡ ok m) × Configured m table
unfolding make
make-Configured reverse_routing routes room good =
    let (rules, made, matcher, empty) = make_matcher-IsMatcher 1000 (omega arith) in
    let all =
      init_routes-Configured (unconfigured reverse_routing rules) [] routes
        (started reverse_routing rules made) (omega (arith, empty)) good in
    (all.0, all.1, rw made all.2, all.3)
