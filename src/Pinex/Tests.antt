-- ===== src/Pinex/Tests.antt =====
-- The theorems on pinex routing at concrete routes and routers.
use smppgw.Pinex.Codec.{
  bind_request, send_pdu, receive_frame, body_of, message, undefined, deserialize, command_id_of,
}
use smppgw.Pinex.Codec.RoundTrip.{receive_frame-send_pdu}
use smppgw.Base.{
  ℕ, ◌≡◌, inr, refl, true, false, not, ◌&&◌, ◌||◌, List, [], ◌∷◌, ◌++◌, none, length, arith,
  if◌then◌else◌,
}
use smppgw.Base.Results.{Result, ok, throw, runtime_error}
use smppgw.Smpp.Byte.{Bytes}
use smppgw.Pinex.Text.{codes, eq_text, lt_text}
use smppgw.Pinex.RouteMapper.{
  CharNode, empty, find_destination, add_route, delete_route, child, put, clear, store, reset,
  create_sub_tree, find_from_root,
}
use smppgw.Pinex.RouteMapper.Matching.{
  searched, longest, destination_for, find_destination_reverse_first,
}
use smppgw.Pinex.RouteMapper.Invariant.{IsNode}
use smppgw.Pinex.RouteMapper.Refinement.{Op, adds, deletes, run, run_table, find_destination-run}
use smppgw.Pinex.RoutingList
use smppgw.Pinex.RoutingList.{
  RoutingMethod, RouteConfig, Route, Routes, make_route, add_prefixes, add_destinations, find_route,
  on_routes_insert, on_routes_remove, insert_route, erase_route, create_method_by_string,
}
use smppgw.Pinex.RoutingList.Laws.{
  configured, find_destination-make_route, find_route-on_routes_remove,
}
use smppgw.Pinex.Router
use smppgw.Pinex.Router.{Router, has_target, add_target, remove_target, find}
use smppgw.Pinex.Router.Invariant.{
  IsRouter, add_target-IsRouter, remove_target-IsRouter, find-IsRouter,
}
use smppgw.Pinex.Router.RoundRobin.{searches, searches_round}

abbrev ops : List Op
ops =
    adds (codes "98") (codes "iran") 100
    ∷ adds (codes "9891") (codes "mci") 100
    ∷ adds (codes "9893") (codes "mtn") 12
    ∷ deletes (codes "9891")
    ∷ []

-- 98935 takes the longest prefix; 98911 falls back, since that route was deleted.
longest_wins : find_destination (codes "98935") (run ops empty) false ≡ codes "mtn"
unfolding find_destination find_from_root add_route delete_route create_sub_tree store reset child
    put clear
longest_wins = refl

falls_back : find_destination (codes "98911") (run ops empty) false ≡ codes "iran"
unfolding find_destination find_from_root add_route delete_route create_sub_tree store reset child
    put clear
falls_back = refl

-- In reverse mode a route for "1" is not found for the text "1".
reverse_misses :
    find_destination (codes "1") (run (adds (codes "1") (codes "x") 9 ∷ []) empty) true ≡ []
unfolding find_destination find_from_root add_route create_sub_tree store child put
reverse_misses = refl

find_destination-run_example :
    IsNode 0 (run ops empty)
    × (find_destination (codes "98935") (run ops empty) false
        ≡ destination_for 5 (longest (run_table ops (λ p. none)) (searched (codes "98935") false)))
find_destination-run_example = find_destination-run ops (codes "98935") false

find_destination_reverse_first_example :
    find_destination (codes "198") (run ops empty) true
    ≡ find_destination (codes "298") (run ops empty) true
find_destination_reverse_first_example =
    find_destination_reverse_first b'1' b'2' (codes "98") (run ops empty)

abbrev one_route : CharNode
one_route = run (adds (codes "98") (codes "iran") 100 ∷ []) empty

one_route-IsNode : IsNode 0 one_route
one_route-IsNode = (find_destination-run (adds (codes "98") (codes "iran") 100 ∷ []) [] false).0

-- The lengths of the texts that are known.
abbrev handler : Bytes → Result ℕ
handler t = if eq_text t (codes "ao") then ok (length t) else throw runtime_error

abbrev by_prefix : RouteConfig
by_prefix = record {
  msg_type = codes "ao";
  method = codes "prefix";
  routes =
      record { target = codes "north"; prefixes = codes "98" ∷ codes "1" ∷ [] }
      ∷ record { target = codes "south"; prefixes = codes "1" ∷ codes "12" ∷ [] }
      ∷ [];
}

by_prefix_route : Route
unfolding add_destinations
by_prefix_route = record {
  msg_type = 2;
  method = RoutingMethod.route_by_prefix;
  target = codes "south";
  destinations = (add_destinations by_prefix.routes ([], empty)).1;
}

made : make_route handler by_prefix ≡ ok by_prefix_route
unfolding make_route by_prefix_route create_method_by_string eq_text add_destinations
made = refl

find_destination-make_route_example :
    find_destination (codes "123") by_prefix_route.destinations false
    ≡ destination_for 3 (longest (configured by_prefix.routes) (searched (codes "123") false))
unfolding by_prefix_route
find_destination-make_route_example =
    find_destination-make_route handler by_prefix by_prefix_route (codes "123") false made refl

inserted : on_routes_insert handler by_prefix [] ≡ ok (by_prefix_route ∷ [])
unfolding on_routes_insert insert_route find_route by_prefix_route make_route
    create_method_by_string eq_text
inserted = refl

find_route-on_routes_remove_example :
    (rs'' : Routes) × (on_routes_remove handler by_prefix (by_prefix_route ∷ []) ≡ ok rs'')
    × ((k : ℕ) → find_route k rs'' ≡ find_route k [])
find_route-on_routes_remove_example =
    find_route-on_routes_remove handler by_prefix [] (by_prefix_route ∷ []) inserted

abbrev three : Router
three = record {
  last_index = 1;
  reverse = false;
  routing_list = [];
  targets_list = codes "a" ∷ codes "b" ∷ codes "d" ∷ [];
}

three-IsRouter : IsRouter three
unfolding lt_text
three-IsRouter = record {
  ascending = ((refl, (refl, tt)), ((refl, tt), (tt, tt)));
  in_range = inr (omega arith);
}

add_target-IsRouter_example :
    IsRouter (add_target (codes "c") three)
    × ((y : Bytes)
        → has_target y (add_target (codes "c") three).targets_list
          ≡ (eq_text (codes "c") y || has_target y three.targets_list))
add_target-IsRouter_example = add_target-IsRouter (codes "c") three three-IsRouter

remove_target-IsRouter_example :
    IsRouter (remove_target (codes "b") three)
    × ((y : Bytes)
        → has_target y (remove_target (codes "b") three).targets_list
          ≡ (not (eq_text (codes "b") y) && has_target y three.targets_list))
remove_target-IsRouter_example = remove_target-IsRouter (codes "b") three three-IsRouter

searches_round_example : searches 3 three ≡ (three, codes "b" ∷ codes "d" ∷ codes "a" ∷ [])
searches_round_example = searches_round three (omega arith)

found : find 7 [] three ≡ ok (record three { last_index = 2 }, codes "b" ∷ [])
unfolding find Router.find_by RoutingList.find_routing_method find_route Router.route_by_round_robin
found = refl

find-IsRouter_example :
    IsRouter (record three { last_index = 2 }) × (three.targets_list ≡ three.targets_list)
find-IsRouter_example =
    find-IsRouter 7 [] three (record three { last_index = 2 }, codes "b" ∷ []) three-IsRouter found

receive_frame-send_pdu_example :
    (sent : Bytes) × (send_pdu (0 ∷ []) bind_request (codes "sgw") 7 0 ≡ ok (0 ∷ sent))
    × (received : Bytes) × (receive_frame (sent ++ 9 ∷ []) ≡ message 1 0 7 received (9 ∷ []))
    × (deserialize bind_request received ≡ ok (codes "sgw"))
unfolding command_id_of
receive_frame-send_pdu_example =
    receive_frame-send_pdu (0 ∷ []) bind_request (codes "sgw") (9 ∷ []) 7 0
      (omega arith, (λ e. cc, (λ e. cc, (λ e. cc, tt)))) (omega arith) (omega arith)

-- A message that announces fewer bytes than its header has makes the receiver take a span of a
-- negative size.
short_message : receive_frame (0 ∷ 0 ∷ 0 ∷ 9 ∷ 2 ∷ 0 ∷ 0 ∷ 0 ∷ 0 ∷ 1 ∷ []) ≡ undefined
unfolding receive_frame body_of
short_message = refl
