-- ===== src/Routing/RuleMatcher.antt =====
-- src/routing/smpp/prefix_rule_matcher.h and prefix_rule_matcher.cpp: rules of as many fields as
-- the matcher has parameters. The field `i` of the rule `r` has the bit `r * parameters + i`.
pub mod Adding
pub mod Rules
pub mod Accepting
pub mod Matching
use smppgw.Base.{
  ℕ, zero, suc, ◌+◌, ◌-◌, ◌*◌, ◌/◌, ◌%◌, ◌^◌, Bool, true, false, ◌||◌, List, [], ◌∷◌, Option, none,
  some, length, map, ◌==◌, if◌then◌else◌,
}
use smppgw.Base.Results.{Exception, Result, ok, throw, ◌>>=◌, runtime_error, terminated}
use smppgw.Smpp.Byte.{Bytes}
use smppgw.Routing.BitSet.{BitSet, make, set_bit, and_assign, shift_right, get_set_bits_indices}
use smppgw.Routing.Trie
use smppgw.Routing.Trie.{Trie, add_pattern, match_query, isupper}

pub record RuleMatcher : Type 0 where
  pub rule_parameter_count : ℕ
  pub rules_count : ℕ
  pub count_of_set_rules : ℕ
  pub trie : Trie
  pub match_mask : BitSet

-- The loop of the constructor: the bit of the last field of each rule from the rule `i` on.
unfoldable pub set_mask : ℕ → ℕ → ℕ → BitSet → Result BitSet
set_mask zero i parameters mask = ok mask
set_mask (suc count) i parameters mask = set_bit mask ((i + 1) * parameters - 1) true >>= λ mask'.
    set_mask count (i + 1) parameters mask'

unfoldable pub make_matcher : ℕ → ℕ → Result RuleMatcher
make_matcher rules parameters = set_mask rules 0 parameters (make (rules * parameters)) >>= λ mask.
    ok (record {
      rule_parameter_count = parameters;
      rules_count = rules;
      count_of_set_rules = 0;
      trie = Trie.empty (rules * parameters);
      match_mask = mask;
    })

abbrev pub has_upper : Bytes → Bool
has_upper [] = false
has_upper (c ∷ w) = isupper c || has_upper w

-- What follows a call is left out if it threw.
abbrev pub unless_thrown :
    Trie → Option Exception → (Trie → Trie × Option Exception) → Trie × Option Exception
unless_thrown t none rest = rest t
unless_thrown t (some e) rest = (t, some e)

-- The inner loop of `set_rule`: the texts of one field, and the exception that ended it.
unfoldable pub add_texts : Trie → ℕ → List Bytes → Trie × Option Exception
add_texts t tag [] = (t, none)
add_texts t tag (w ∷ ws) =
    let r = add_pattern t w tag in
    if has_upper w
    then (t, some runtime_error)
    else unless_thrown r.0 r.1 (λ t'. add_texts t' tag ws)

-- The outer loop, from the field with the bit `tag` on. A tag is a `catId_t`.
unfoldable pub add_fields : Trie → ℕ → List (List Bytes) → Trie × Option Exception
add_fields t tag [] = (t, none)
add_fields t tag (texts ∷ fields) =
    let r = add_texts t (tag % 2 ^ 32) texts in
    unless_thrown r.0 r.1 (λ t'. add_fields t' (tag + 1) fields)

abbrev pub unless_throw : Option Exception → ℕ → Result ℕ
unless_throw none rule_id = ok rule_id
unless_throw (some e) rule_id = throw e

-- `set_rule`: the rule's number, a `ruleId_t`. It is used up by a rule that is refused, too.
unfoldable pub set_rule : RuleMatcher → List (List Bytes) → RuleMatcher × Result ℕ
set_rule m rule =
    let rule_id = m.count_of_set_rules % 2 ^ 32 in
    let r = add_fields m.trie (rule_id * m.rule_parameter_count) rule in
    let m' = record m { count_of_set_rules = m.count_of_set_rules + 1; trie = r.0 } in
    if length rule == m.rule_parameter_count
    then (m', unless_throw r.1 rule_id)
    else (m, throw terminated)

-- The loop of `match_get_bitset` over the fields behind the first.
unfoldable pub combine : Trie → List Bytes → BitSet → Result BitSet
combine t [] result = ok result
combine t (field ∷ fields) result = match_query t field >>= λ matched.
    and_assign (shift_right result) matched >>= λ both. combine t fields both

unfoldable pub match_get_bitset : RuleMatcher → List Bytes → Result BitSet
match_get_bitset m [] = throw terminated
match_get_bitset m (field ∷ fields) =
    let result = match_query m.trie field >>= λ first. combine m.trie fields first in
    if length (field ∷ fields) == m.rule_parameter_count
    then (result >>= λ r. and_assign r m.match_mask)
    else throw terminated

-- `match`.
unfoldable pub match_rules : RuleMatcher → List Bytes → Result (List ℕ)
match_rules m fields = match_get_bitset m fields >>= λ result.
    ok (map (λ item. (item + 1) / m.rule_parameter_count - 1) (get_set_bits_indices result))
