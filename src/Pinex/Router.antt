-- ===== src/Pinex/Router.antt =====
-- src/routing/pinex/router.h and router.cpp: the choice of targets for a message.
pub mod Invariant
pub mod RoundRobin
use smppgw.Base.{
  ℕ, suc, ◌+◌, ◌-◌, ◌*◌, ◌%◌, ◌^◌, ◌≡◌, ◌<◌, Bool, true, false, ◌&&◌, ◌||◌, List, [], ◌∷◌, ◌++◌,
  Option, none, some, length, get_elem?, drop, ltb, leb, ◌==◌, if◌then◌else◌,
}
use smppgw.Base.Results.{Result, ok, throw, ◌>>=◌, out_of_range, invalid_argument, terminated}
use smppgw.Smpp.Byte.{Bytes}
use smppgw.Pinex.Text.{eq_text, lt_text}
use smppgw.Pinex.RoutingList
use smppgw.Pinex.RoutingList.{RoutingMethod, Routes}

pub record Router : Type 0 where
  pub last_index : ℕ
  pub reverse : Bool
  pub routing_list : Routes
  pub targets_list : List Bytes

unfoldable pub has_target : Bytes → List Bytes → Bool
has_target t [] = false
has_target t (x ∷ xs) = eq_text x t || has_target t xs

-- `std::sort`, as insertion.
unfoldable pub insert_sorted : Bytes → List Bytes → List Bytes
insert_sorted t [] = t ∷ []
insert_sorted t (x ∷ xs) = if lt_text x t then x ∷ insert_sorted t xs else t ∷ x ∷ xs

unfoldable pub sort : List Bytes → List Bytes
sort [] = []
sort (x ∷ xs) = insert_sorted x (sort xs)

unfoldable pub add_target : Bytes → Router → Router
add_target t s =
    if has_target t s.targets_list
    then s
    else record s { targets_list = sort (s.targets_list ++ t ∷ []) }

-- The loop of `remove_target`: after an erasure the index goes on, over the entry that moved up.
unfoldable pub remove_loop : Bytes → List Bytes → List Bytes
remove_loop t [] = []
remove_loop t (x ∷ []) = if eq_text x t then [] else x ∷ []
remove_loop t (x ∷ y ∷ xs) =
    let skip = y ∷ remove_loop t xs in
    let next = x ∷ remove_loop t (y ∷ xs) in if eq_text x t then skip else next

unfoldable pub remove_target : Bytes → Router → Router
remove_target t s = record s { targets_list = remove_loop t s.targets_list; last_index = 0 }

unfoldable pub on_reverse_replace : Bool → Router → Router
on_reverse_replace b s = record s { reverse = b }

-- `targets_list_[i]`; out of range there is none.
unfoldable pub route_by_round_robin : Router → Router × List Bytes
route_by_round_robin s = elim (get_elem? s.targets_list s.last_index) [
  | none ↦ (s, [])
  | some t ↦ (record s { last_index = (s.last_index + 1) % length s.targets_list }, t ∷ [])
]

-- `std::stoi` on the five bytes that are left of a text: white space, a sign, digits.
abbrev pub is_digit : ℕ → Bool
is_digit c = leb b'0' c && leb c b'9'

abbrev pub is_space : ℕ → Bool
is_space c = (c == 32) || (leb 9 c && leb c 13)

unfoldable pub digits_value : ℕ → Bytes → ℕ
digits_value acc [] = acc
digits_value acc (c ∷ w) =
    let more = digits_value (acc * 10 + (c - b'0')) w in if is_digit c then more else acc

-- The magnitude, and whether there is a minus sign.
unfoldable pub unsigned_value : Bool → Bytes → Result (Bool × ℕ)
unsigned_value minus [] = throw invalid_argument
unsigned_value minus (c ∷ w) =
    if is_digit c then ok (minus, digits_value 0 (c ∷ w)) else throw invalid_argument

unfoldable pub stoi : Bytes → Result (Bool × ℕ)
stoi [] = throw invalid_argument
stoi (c ∷ w) =
    let more = stoi w in
    if is_space c
    then more
    else if c == b'-'
    then unsigned_value true w
    else if c == b'+'
    then unsigned_value false w
    else unsigned_value false (c ∷ w)

-- `str.substr(str.length() - 5)`: of a shorter text the position wraps round and is out of range.
unfoldable pub last_five : Bytes → Result Bytes
last_five s = if ltb (length s) 5 then throw out_of_range else ok (drop (length s - 5) s)

-- `MyHash`, converted to `size_t` for the remainder. It is `noexcept`: an exception in it ends the
-- process.
unfoldable pub my_hash : Bytes → Result ℕ
my_hash s = elim (last_five s >>= stoi) [
  | throw e ↦ throw terminated
  | ok (minus, n) ↦ ok (if minus then (2 ^ 64 - n) % 2 ^ 64 else n)
]

unfoldable pub route_by_load_balance : Bytes → Router → Result (List Bytes)
route_by_load_balance id s = elim s.targets_list [
  | [] ↦ ok []
  | t ∷ ts ↦ my_hash id >>= λ h. elim (get_elem? s.targets_list (h % length s.targets_list)) [
    | none ↦ ok []
    | some t ↦ ok (t ∷ [])
  ]
]

unfoldable pub route_by_client_id : Bytes → List Bytes
route_by_client_id [] = []
route_by_client_id (c ∷ id) = (c ∷ id) ∷ []

unfoldable pub route_by_prefix : Bytes → ℕ → Router → List Bytes
route_by_prefix prefix msg_type s =
    elim (RoutingList.find_target prefix msg_type s.reverse s.routing_list) [
      | [] ↦ []
      | c ∷ r ↦ (c ∷ r) ∷ []
    ]

-- The switch of `find`: the router after it, and what it appends to the list of targets.
unfoldable pub find_by : RoutingMethod → ℕ → Bytes → Router → Result (Router × List Bytes)
find_by RoutingMethod.broad_cast msg_type id s = ok (s, s.targets_list)
find_by RoutingMethod.load_balance msg_type id s = route_by_load_balance id s >>= λ ts. ok (s, ts)
find_by RoutingMethod.round_robin msg_type id s = ok (route_by_round_robin s)
find_by RoutingMethod.route_by_prefix msg_type id s = ok (s, route_by_prefix id msg_type s)
find_by RoutingMethod.route_by_client_id msg_type id s = ok (s, route_by_client_id id)

unfoldable pub find : ℕ → Bytes → Router → Result (Router × List Bytes)
find msg_type id s = find_by (RoutingList.find_routing_method msg_type s.routing_list) msg_type id s
