-- ===== src/Routing/Matcher.antt =====
-- src/routing/smpp/routing_matcher.h and routing_matcher.cpp: the configured routes of the gateway,
-- by number in the matcher of prefixes and by the identifier that the configuration gives them.
-- The configuration's observers call the three handlers; the log lines are left out.
pub mod Table
pub mod Extended
pub mod Search
pub mod Changes
pub mod Configured
use smppgw.Base.{
  ℕ, zero, suc, ◌+◌, ◌%◌, ◌^◌, Bool, true, false, List, [], ◌∷◌, Option, none, some, map, reverse,
  ltb, ◌==◌, if◌then◌else◌,
}
use smppgw.Base.Results.{Exception, Result, ok, throw, ◌>>=◌, runtime_error, terminated}
use smppgw.Smpp.Byte.{Bytes}
use smppgw.Pinex.Text.{codes, eq_text}
use smppgw.Routing.Trie.{lower}
use smppgw.Routing.RuleMatcher.{RuleMatcher, make_matcher, set_rule, match_rules}

-- The values of a configuration node, `id` and `priority` as `uint32_t`.
pub record RouteNode : Type 0 where
  pub id : ℕ
  pub priority : ℕ
  pub from : Bytes
  pub source_address : Bytes
  pub destination_address : Bytes
  pub pdu_type : Bytes
  pub target : Bytes

pub record RoutingInfo : Type 0 where
  pub info_id : ℕ
  pub info_priority : ℕ
  pub info_target : Bytes
  pub info_from : Bytes
  pub info_source_address : Bytes
  pub info_destination_address : Bytes
  pub info_pdu_type : Bytes

abbrev pub star : Bytes
star = 0x2A ∷ []

abbrev pub or_star : Bytes → Bytes
or_star w = if eq_text w [] then star else w

-- The number of the packet type, or the text itself if it names none.
abbrev pub packet_type_of : Bytes → Bytes
packet_type_of w =
    if eq_text w (codes "submit")
    then codes "1"
    else if eq_text w (codes "deliver")
    then codes "3"
    else if eq_text w (codes "delivery_report")
    then codes "2"
    else w

-- The constructor of `routing_info`.
unfoldable pub routing_info : RouteNode → RoutingInfo
routing_info config = record {
  info_id = config.id;
  info_priority = config.priority % 2 ^ 16;
  info_target = or_star config.target;
  info_from = map lower (or_star config.from);
  info_source_address = or_star config.source_address;
  info_destination_address = or_star config.destination_address;
  info_pdu_type = packet_type_of (or_star config.pdu_type);
}

abbrev pub get_list : RoutingInfo → List (List Bytes)
get_list info =
    (info.info_from ∷ [])
    ∷ (info.info_source_address ∷ [])
    ∷ (info.info_destination_address ∷ [])
    ∷ (info.info_pdu_type ∷ [])
    ∷ []

-- `std::map` with numbers as keys, in their order: find, operator[] and emplace at a key, and erase.
module _ {ℓ} {A : Type ℓ} where
  unfoldable pub find_key : ℕ → List (ℕ × A) → Option A
  find_key k [] = none
  find_key k (e ∷ es) = if e.0 == k then some e.1 else find_key k es

  unfoldable pub assign : ℕ → A → List (ℕ × A) → List (ℕ × A)
  assign k v [] = (k, v) ∷ []
  assign k v (e ∷ es) =
      if k == e.0 then (k, v) ∷ es else if ltb k e.0 then (k, v) ∷ e ∷ es else e ∷ assign k v es

  unfoldable pub emplace : ℕ → A → List (ℕ × A) → List (ℕ × A)
  emplace k v [] = (k, v) ∷ []
  emplace k v (e ∷ es) =
      if k == e.0 then e ∷ es else if ltb k e.0 then (k, v) ∷ e ∷ es else e ∷ emplace k v es

  unfoldable pub erase_key : ℕ → List (ℕ × A) → List (ℕ × A)
  erase_key k [] = []
  erase_key k (e ∷ es) = if e.0 == k then erase_key k es else e ∷ erase_key k es

pub record Matcher : Type 0 where
  pub reverse_routing : Bool
  pub prefix_rule_matcher : RuleMatcher
  pub rule_id_mapping : List (ℕ × (Bytes × ℕ))
  pub prm_id_to_rule_id : List (ℕ × ℕ)

-- A number's target, if it has an identifier and the identifier a target.
abbrev pub identified : Matcher → Option ℕ → Option (Bytes × ℕ)
identified m none = none
identified m (some rule_id) = find_key rule_id m.rule_id_mapping

abbrev pub pushed : Option (Bytes × ℕ) → List (Bytes × ℕ) → List (Bytes × ℕ)
pushed none targets = targets
pushed (some t) targets = t ∷ targets

-- The loop over `matchList`.
unfoldable pub match_targets : Matcher → List ℕ → List (Bytes × ℕ)
match_targets m [] = []
match_targets m (match_id ∷ ids) =
    pushed (identified m (find_key match_id m.prm_id_to_rule_id)) (match_targets m ids)

abbrev pub is_above : Option ℕ → ℕ → Bool
is_above none p = true
is_above (some priority) p = ltb priority p

-- The loop that picks the target. `priority` is an `int`, here `none` for -1; the loop compares
-- with it and never changes it.
unfoldable pub pick : Bytes → Option ℕ → List (Bytes × ℕ) → Bytes
pick matched priority [] = matched
pick matched priority (t ∷ targets) =
    pick (if is_above priority t.1 then t.0 else matched) priority targets

abbrev pub record_of : Matcher → Bytes → Bytes → Bytes → Bytes → List Bytes
record_of m from src_address dest_address pdu_type =
    map lower from
    ∷ src_address
    ∷ (if m.reverse_routing then reverse dest_address else dest_address)
    ∷ pdu_type
    ∷ []

-- `find_target`. The code never calls `is_available`.
unfoldable pub find_target : Matcher → Bytes → Bytes → Bytes → Bytes → (Bytes → Bool) → Result Bytes
find_target m from src_address dest_address pdu_type is_available =
    match_rules m.prefix_rule_matcher (record_of m from src_address dest_address pdu_type)
    >>= λ ids. ok (pick [] none (match_targets m ids))

-- `add_rule` once `set_rule` has ended: a number is filed, and an exception is caught.
abbrev pub filed : Matcher → RoutingInfo → RuleMatcher → Result ℕ → Matcher × Result Bool
filed m info rules (ok prm_id) = (
  record m {
    prefix_rule_matcher = rules;
    prm_id_to_rule_id = assign prm_id info.info_id m.prm_id_to_rule_id;
    rule_id_mapping = emplace info.info_id (info.info_target, info.info_priority) m.rule_id_mapping;
  },
  ok true,
)
filed m info rules (throw terminated) = (record m { prefix_rule_matcher = rules }, throw terminated)
filed m info rules (throw e) = (record m { prefix_rule_matcher = rules }, ok false)

-- The identifier is taken, or the rule is added.
abbrev pub unless_taken :
    Option (Bytes × ℕ) → Matcher → Matcher × Result Bool → Matcher × Result Bool
unless_taken (some t) m added = (m, ok false)
unless_taken none m added = added

unfoldable pub add_rule : Matcher → RoutingInfo → Matcher × Result Bool
add_rule m info =
    let r = set_rule m.prefix_rule_matcher (get_list info) in
    unless_taken (find_key info.info_id m.rule_id_mapping) m (filed m info r.0 r.1)

-- The loop of `remove_rule`: the first entry with the identifier goes, and the loop ends.
unfoldable pub erase_value : ℕ → List (ℕ × ℕ) → List (ℕ × ℕ)
erase_value rule_id [] = []
erase_value rule_id (e ∷ es) = if e.1 == rule_id then es else e ∷ erase_value rule_id es

abbrev pub if_taken : Option (Bytes × ℕ) → Matcher → Matcher → Matcher × Bool
if_taken (some t) m removed = (removed, true)
if_taken none m removed = (m, false)

unfoldable pub remove_rule : Matcher → ℕ → Matcher × Bool
remove_rule m rule_id = if_taken (find_key rule_id m.rule_id_mapping) m (record m {
  rule_id_mapping = erase_key rule_id m.rule_id_mapping;
  prm_id_to_rule_id = erase_value rule_id m.prm_id_to_rule_id;
})

unfoldable pub on_reverse_routing_replace : Matcher → Bool → Matcher
on_reverse_routing_replace m value = record m { reverse_routing = value }

-- The matcher as it is left behind, and the exception that the handler ends with.
abbrev pub unless_false : Exception → Result Bool → Option Exception
unless_false e (ok true) = none
unless_false e (ok false) = some e
unless_false e (throw other) = some other

unfoldable pub on_routes_insert : Matcher → RouteNode → Matcher × Option Exception
on_routes_insert m config =
    let r = add_rule m (routing_info config) in (r.0, unless_false runtime_error r.1)

unfoldable pub on_routes_remove : Matcher → RouteNode → Matcher × Option Exception
on_routes_remove m config =
    let r = remove_rule m config.id in (r.0, unless_false runtime_error (ok r.1))

-- The loop of `init`. A route that cannot be added is passed over.
unfoldable pub init_routes : Matcher → List RouteNode → Result Matcher
init_routes m [] = ok m
init_routes m (config ∷ routes) =
    let r = add_rule m (routing_info config) in r.1 >>= λ added. init_routes r.0 routes

abbrev pub unconfigured : Bool → RuleMatcher → Matcher
unconfigured reverse_routing rules = record {
  reverse_routing = reverse_routing;
  prefix_rule_matcher = rules;
  rule_id_mapping = [];
  prm_id_to_rule_id = [];
}

-- The constructor: MAXIMUM_RULE_NUMBER rules of ROUTING_FIELD_NUMBER fields.
unfoldable pub make : Bool → List RouteNode → Result Matcher
make reverse_routing routes =
    make_matcher 1000 4 >>= λ rules. init_routes (unconfigured reverse_routing rules) routes
