-- ===== src/Pinex/RoutingList.antt =====
-- src/routing/pinex/routing_list.h and .cpp: the routing method of each message type.
-- A configuration node is what the code reads of it; the handler that turns a `msg_type` text into
-- a number, or throws, is a parameter, since the caller passes it in.
pub mod Laws
use smppgw.Base.{ℕ, Bool, true, false, List, [], ◌∷◌, Option, none, some, ◌==◌, if◌then◌else◌}
use smppgw.Base.Results.{Result, ok, throw, ◌>>=◌, runtime_error}
use smppgw.Smpp.Byte.{Bytes}
use smppgw.Pinex.Text.{codes, eq_text}
use smppgw.Pinex.RouteMapper
use smppgw.Pinex.RouteMapper.{CharNode}

pub data RoutingMethod : Type 0 where
  round_robin load_balance broad_cast route_by_client_id route_by_prefix : RoutingMethod

unfoldable pub create_method_by_string : Bytes → Result RoutingMethod
create_method_by_string s =
    if eq_text s (codes "rond_robin")
    then ok round_robin
    else if eq_text s (codes "load_balance")
    then ok load_balance
    else if eq_text s (codes "broadcast")
    then ok broad_cast
    else if eq_text s (codes "prefix")
    then ok route_by_prefix
    else if eq_text s (codes "client_id")
    then ok route_by_client_id
    else throw runtime_error

-- An entry of `routes`: `target` and the texts of `prefix`.
pub record Destination : Type 0 where
  pub target : Bytes
  pub prefixes : List Bytes

pub record RouteConfig : Type 0 where
  pub msg_type : Bytes
  pub method : Bytes
  pub routes : List Destination

pub record Route : Type 0 where
  pub msg_type : ℕ
  pub method : RoutingMethod
  pub target : Bytes
  pub destinations : CharNode

abbrev pub uint_max : ℕ
uint_max = 4294967295

-- The loops of the constructor `route`. What `add_route` returns is not looked at.
unfoldable pub add_prefixes : Bytes → List Bytes → CharNode → CharNode
add_prefixes target [] t = t
add_prefixes target (p ∷ ps) t =
    add_prefixes target ps (RouteMapper.add_route p target uint_max t).0

unfoldable pub add_destinations : List Destination → Bytes × CharNode → Bytes × CharNode
add_destinations [] s = s
add_destinations (d ∷ ds) s = add_destinations ds (d.target, add_prefixes d.target d.prefixes s.1)

abbrev pub is_prefix_method : RoutingMethod → Bool
is_prefix_method route_by_prefix = true
is_prefix_method _ = false

unfoldable pub make_route : (Bytes → Result ℕ) → RouteConfig → Result Route
make_route handler config = do
  msg_type ← handler config.msg_type
  method ← create_method_by_string config.method
  let s =
      if is_prefix_method method
      then add_destinations config.routes ([], RouteMapper.empty)
      else ([], RouteMapper.empty)
  ok (record { msg_type = msg_type; method = method; target = s.0; destinations = s.1 })

-- `msg_type_to_route_map_`, one entry at most for a key.
abbrev pub Routes : Type 0
Routes = List Route

unfoldable pub find_route : ℕ → Routes → Option Route
find_route k [] = none
find_route k (r ∷ rs) = if r.msg_type == k then some r else find_route k rs

unfoldable pub erase_route : ℕ → Routes → Routes
erase_route k [] = []
erase_route k (r ∷ rs) = if r.msg_type == k then erase_route k rs else r ∷ erase_route k rs

-- `map.insert`, with the exception that the code throws where it inserts nothing.
unfoldable pub insert_route : Route → Routes → Result Routes
insert_route r rs = elim (find_route r.msg_type rs) [
  | some old ↦ throw runtime_error
  | none ↦ ok (r ∷ rs)
]

unfoldable pub on_routes_insert : (Bytes → Result ℕ) → RouteConfig → Routes → Result Routes
on_routes_insert handler config rs = make_route handler config >>= λ r. insert_route r rs

unfoldable pub on_routes_remove : (Bytes → Result ℕ) → RouteConfig → Routes → Result Routes
on_routes_remove handler config rs =
    make_route handler config >>= λ r. ok (erase_route r.msg_type rs)

-- The constructor `routing_list`.
unfoldable pub load_routes : (Bytes → Result ℕ) → List RouteConfig → Routes → Result Routes
load_routes handler [] rs = ok rs
load_routes handler (c ∷ cs) rs =
    on_routes_insert handler c rs >>= λ rs'. load_routes handler cs rs'

unfoldable pub find_routing_method : ℕ → Routes → RoutingMethod
find_routing_method k rs = elim (find_route k rs) [ none ↦ round_robin | some r ↦ r.method ]

unfoldable pub find_target : Bytes → ℕ → Bool → Routes → Bytes
find_target prefix k reverse rs = elim (find_route k rs) [
  | none ↦ []
  | some r ↦ RouteMapper.find_destination prefix r.destinations reverse
]
