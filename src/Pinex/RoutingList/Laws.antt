-- ===== src/Pinex/RoutingList/Laws.antt =====
-- What a routing list answers after its routes were loaded, inserted and removed.
use smppgw.Base.{
  ℕ, ◌≡◌, ◌≢◌, ◌⊎◌, inl, inr, refl, ap, ◌∙◌, Bool, true, false, List, [], ◌∷◌, Option, none, some,
  Option-cases, Bool-cases, length, ◌==◌, if◌then◌else◌, arith,
}
use smppgw.Base.Results.{Result, ok, throw, >>=-eq-ok, runtime_error}
use smppgw.Smpp.Byte.{Bytes}
use smppgw.Pinex.RouteMapper
use smppgw.Pinex.Text.{eq_text, eq_text→eq}
use smppgw.Pinex.RouteMapper.{CharNode}
use smppgw.Pinex.RouteMapper.Lookup.{value_at, value_at-fresh, value_at-add_route}
use smppgw.Pinex.RouteMapper.Matching.{
  searched, longest, longest-ext, destination_for, find_destination-longest,
}
use smppgw.Pinex.RoutingList.{
  RoutingMethod, route_by_prefix, Destination, RouteConfig, Route, Routes, uint_max, add_prefixes,
  add_destinations, make_route, find_route, erase_route, insert_route, on_routes_insert,
  on_routes_remove,
}

-- The first entry of the configuration that lists the prefix, as a route without a length limit.
abbrev pub lists : List Bytes → Bytes → Bool
lists [] p = false
lists (q ∷ qs) p = if eq_text q p then true else lists qs p

abbrev pub configured : List Destination → Bytes → Option (Bytes × ℕ)
configured [] p = none
configured (d ∷ ds) p = if lists d.prefixes p then some (d.target, uint_max) else configured ds p

abbrev or_else : Option (Bytes × ℕ) → Option (Bytes × ℕ) → Option (Bytes × ℕ)
or_else none y = y
or_else (some v) y = some v

value_at-add_prefixes :
    (target : Bytes) (ps : List Bytes) (p : Bytes) (t : CharNode)
    → value_at p (add_prefixes target ps t)
      ≡ or_else (value_at p t) (if lists ps p then some (target, uint_max) else none)
unfolding add_prefixes
value_at-add_prefixes target [] p t = ground arith
value_at-add_prefixes target (q ∷ ps) p t =
    let t' = (RouteMapper.add_route q target uint_max t).0 in
    let here = (value_at-add_route q p target uint_max t).1 in
    let ih = value_at-add_prefixes target ps p t' in
    elim (Bool-cases (eq_text q p)) [
      | inl e ↦ ground (arith, ih, here, ap (λ w. value_at w t) (eq_text→eq q p e))
      | inr e ↦ ground (arith, ih, here)
    ]

value_at-add_destinations :
    (ds : List Destination) (p : Bytes) (s : Bytes × CharNode)
    → value_at p (add_destinations ds s).1 ≡ or_else (value_at p s.1) (configured ds p)
unfolding add_destinations
value_at-add_destinations [] p s = ground arith
value_at-add_destinations (d ∷ ds) p s = ground (
  arith,
  value_at-add_prefixes d.target d.prefixes p s.1,
  value_at-add_destinations ds p (d.target, add_prefixes d.target d.prefixes s.1),
)

destinations-make_route :
    (handler : Bytes → Result ℕ) (config : RouteConfig) (r : Route)
    → make_route handler config ≡ ok r
    → r.method ≡ route_by_prefix
    → r.destinations ≡ (add_destinations config.routes ([], RouteMapper.empty)).1
unfolding make_route
destinations-make_route handler config r e m = ground arith

-- A route that was made for the method `prefix` sends a text to the target whose configured prefix
-- is the longest; of two entries with the same prefix the first counts.
pub find_destination-make_route :
    (handler : Bytes → Result ℕ) (config : RouteConfig) (r : Route) (q : Bytes) (reverse : Bool)
    → make_route handler config ≡ ok r
    → r.method ≡ route_by_prefix
    → RouteMapper.find_destination q r.destinations reverse
      ≡ destination_for (length q) (longest (configured config.routes) (searched q reverse))
unfolding make_route
find_destination-make_route handler config r q reverse e m =
    ap (λ t. RouteMapper.find_destination q t reverse)
      (destinations-make_route handler config r e m)
    ∙ find_destination-longest q _ reverse
    ∙ ap (destination_for (length q))
        (longest-ext _ (configured config.routes) (searched q reverse) table)
  where
    table :
        (p : Bytes)
        → value_at p (add_destinations config.routes ([], RouteMapper.empty)).1
          ≡ configured config.routes p
    table p = ground (
      arith,
      value_at-add_destinations config.routes p ([], RouteMapper.empty),
      value_at-fresh p 0,
    )

find_route-erase_route :
    (k j : ℕ) (rs : Routes)
    → find_route j (erase_route k rs) ≡ (if k == j then none else find_route j rs)
unfolding find_route erase_route
find_route-erase_route k j [] = ground arith
find_route-erase_route k j (r ∷ rs) = ground (arith, find_route-erase_route k j rs)

abbrev method_of : Option Route → RoutingMethod
method_of none = RoutingMethod.round_robin
method_of (some r) = r.method

-- Inserting a route whose configuration is valid: where its message type is taken the list throws
-- and stays; otherwise that type gets the route, and the others keep theirs.
pub find_route-on_routes_insert :
    (handler : Bytes → Result ℕ) (config : RouteConfig) (r : Route) (rs : Routes)
    → make_route handler config ≡ ok r
    → ((find_route r.msg_type rs ≢ none)
        × (on_routes_insert handler config rs ≡ throw runtime_error))
      ⊎ ((rs' : Routes) × (on_routes_insert handler config rs ≡ ok rs')
          × (find_route r.msg_type rs ≡ none)
          × ((k : ℕ) → find_route k rs' ≡ (if r.msg_type == k then some r else find_route k rs)))
unfolding on_routes_insert insert_route find_route
find_route-on_routes_insert handler config r rs e = elim (Option-cases (find_route r.msg_type rs)) [
  | inl a ↦ inr (r ∷ rs, ground arith, a, λ k. refl)
  | inr (old, a) ↦ inl (ground arith, ground arith)
]

insert_route-eq_ok :
    (r : Route) (rs rs' : Routes)
    → insert_route r rs ≡ ok rs'
    → (find_route r.msg_type rs ≡ none) × (rs' ≡ r ∷ rs)
unfolding insert_route
insert_route-eq_ok r rs rs' e = elim (Option-cases (find_route r.msg_type rs)) [
  | inl a ↦ (a, ground arith)
  | inr (old, a) ↦ ground arith
]

find_route_restored :
    (k : ℕ) (r : Route) (rs rs' : Routes)
    → insert_route r rs ≡ ok rs'
    → find_route k (erase_route r.msg_type rs') ≡ find_route k rs
unfolding find_route
find_route_restored k r rs rs' e =
    let (free, added) = insert_route-eq_ok r rs rs' e in
    rw added (rw (find_route-erase_route r.msg_type k (r ∷ rs)) (ground arith))

-- Removing what was inserted gives back a list that answers as before, for every message type.
pub find_route-on_routes_remove :
    (handler : Bytes → Result ℕ) (config : RouteConfig) (rs rs' : Routes)
    → on_routes_insert handler config rs ≡ ok rs'
    → (rs'' : Routes) × (on_routes_remove handler config rs' ≡ ok rs'')
      × ((k : ℕ) → find_route k rs'' ≡ find_route k rs)
unfolding on_routes_remove on_routes_insert
find_route-on_routes_remove handler config rs rs' e =
    let (r, er, ei) = >>=-eq-ok (make_route handler config) _ e in
    (erase_route r.msg_type rs', ground arith, λ k. find_route_restored k r rs rs' ei)
