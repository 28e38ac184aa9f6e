-- ===== src/Pinex/RouteMapper.antt =====
-- src/routing/pinex/route_mapper.h at `T = std::string`: a trie from prefixes to destinations.
-- A node's `childs_` are its non-null entries by index; `index_` and `parent_` are the node's place.
-- The lock is left out: each operation holds it from its first statement to its last.
pub mod Lookup
pub mod Matching
pub mod Invariant
pub mod Delete
pub mod Refinement
use smppgw.Base.{
  ℕ, zero, suc, ◌+◌, ◌-◌, ◌≡◌, Bool, true, false, not, ◌&&◌, List, [], ◌∷◌, Option, none, some,
  length, get_or, take, ltb, ◌==◌, if◌then◌else◌,
}
use smppgw.Smpp.Byte.{Bytes}

mutual
  -- destination_, max_length_, has_value_flag_, depth_, number_of_childs_, childs_
  pub data CharNode : Type 0 where
    node : Bytes → ℕ → Bool → ℕ → ℕ → Childs → CharNode

  pub data Childs : Type 0 where
    nil : Childs
    cons : ℕ → CharNode → Childs → Childs

-- The constructor `char_node`. It leaves `max_length_` unset, and nothing reads it before a value
-- is stored.
abbrev pub fresh : ℕ → CharNode
fresh depth = node [] 0 false depth 0 nil

unfoldable pub child : ℕ → Childs → Option CharNode
child i nil = none
child i (cons j t cs) = if j == i then some t else child i cs

unfoldable pub put : ℕ → CharNode → Childs → Childs
put i t nil = cons i t nil
put i t (cons j u cs) = if j == i then cons i t cs else cons j u (put i t cs)

unfoldable pub clear : ℕ → Childs → Childs
clear i nil = nil
clear i (cons j u cs) = if j == i then clear i cs else cons j u (clear i cs)

abbrev pub has_value : CharNode → Bool
has_value (node d m h dep n cs) = h

abbrev pub depth : CharNode → ℕ
depth (node d m h dep n cs) = dep

abbrev pub childs : CharNode → Childs
childs (node d m h dep n cs) = cs

abbrev pub number_of_childs : CharNode → ℕ
number_of_childs (node d m h dep n cs) = n

-- `find_matching`. The distance from `first` to `last` falls in each call, and `fuel` counts it.
pub find_matching : ℕ → Bytes → ℕ → ℕ → CharNode → Option CharNode → Bool → Option CharNode
find_matching zero prefix first last current last_valid reverse = last_valid
find_matching (suc fuel) prefix first last current last_valid reverse =
    let valid = if has_value current then some current else last_valid in
    let last' = if reverse && ltb 0 last then last - 1 else last in
    let index = get_or prefix (if reverse then last' else first) 0 in
    let deeper = λ (next : CharNode).
      find_matching fuel prefix (if reverse then first else first + 1) last' next valid reverse in
    if ltb first last'
    then elim (child index (childs current)) [ none ↦ valid | some next ↦ deeper next ]
    else valid

-- The call that every operation makes: from the root, over the whole prefix.
unfoldable pub find_from_root : Bytes → CharNode → Bool → Option CharNode
unfolding find_matching
find_from_root prefix root reverse =
    find_matching (suc (length prefix)) prefix 0 (length prefix) root none reverse

-- `create_sub_tree`: the tree with the path in it, and whether the pointer returned is not null.
unfoldable pub create_sub_tree : Bytes → CharNode → CharNode × Bool
create_sub_tree [] (node d m h dep n cs) = (node d m h dep n cs, not h)
create_sub_tree (c ∷ w) (node d m h dep n cs) = elim (child c cs) [
  | none ↦
      let r = create_sub_tree w (fresh (dep + 1)) in (node d m h dep (n + 1) (put c r.0 cs), r.1)
  | some t ↦ let r = create_sub_tree w t in (node d m h dep n (put c r.0 cs), r.1)
]

-- The assignments through the pointer to the node at the end of a path.
unfoldable pub store : Bytes → Bytes → ℕ → CharNode → CharNode
store [] d' m' (node d m h dep n cs) = node d' m' true dep n cs
store (c ∷ w) d' m' (node d m h dep n cs) = elim (child c cs) [
  | none ↦ node d m h dep n cs
  | some t ↦ node d m h dep n (put c (store w d' m' t) cs)
]

unfoldable pub add_route : Bytes → Bytes → ℕ → CharNode → CharNode × Bool
add_route prefix destination max_length root =
    let r = create_sub_tree prefix root in
    if r.1 then (store prefix destination max_length r.0, true) else (r.0, false)

-- `clean_node` at the root.
unfoldable pub clear_all_routes : CharNode → CharNode
clear_all_routes (node d m h dep n cs) = node d m h dep 0 nil

-- The loop of `add_route` over a vector of routes: prefix_, destination_, max_length_.
unfoldable pub add_each : List (Bytes × Bytes × ℕ) → CharNode → CharNode × Bool
add_each [] root = (root, true)
add_each (r ∷ routes) root =
    let one = add_route r.0 r.1 r.2 root in
    let rest = add_each routes one.0 in (rest.0, one.1 && rest.1)

unfoldable pub add_routes : List (Bytes × Bytes × ℕ) → Bool → CharNode → CharNode × Bool
add_routes routes clear_first root =
    add_each routes (if clear_first then clear_all_routes root else root)

unfoldable pub update_route : Bytes → Bytes → ℕ → CharNode → CharNode × Bool
update_route prefix destination max_length root = elim (find_from_root prefix root false) [
  | none ↦ (root, false)
  | some n ↦
      if depth n == length prefix
      then (store prefix destination max_length root, true)
      else (root, false)
]

-- `has_value_flag_ = false` at the end of the path, then `clean_up` from there: each level says
-- whether the node is deleted, and its parent then drops it and is looked at in turn.
unfoldable pub reset : Bytes → CharNode → CharNode × Bool
reset [] (node d m h dep n cs) = (node d m false dep n cs, n == 0)
reset (c ∷ w) (node d m h dep n cs) = elim (child c cs) [
  | none ↦ (node d m h dep n cs, false)
  | some t ↦
      let r = reset w t in
      if r.1
      then (node d m h dep (n - 1) (clear c cs), not h && (n - 1 == 0))
      else (node d m h dep n (put c r.0 cs), false)
]

unfoldable pub delete_route : Bytes → CharNode → CharNode × Bool
delete_route prefix root = elim (find_from_root prefix root false) [
  | none ↦ (root, false)
  | some n ↦ if depth n == length prefix then ((reset prefix root).0, true) else (root, false)
]

-- The empty string stands for no route.
abbrev pub destination_within : ℕ → CharNode → Bytes
destination_within len (node d m h dep n cs) = if ltb m len then [] else d

unfoldable pub find_destination : Bytes → CharNode → Bool → Bytes
find_destination prefix root reverse = elim (find_from_root prefix root reverse) [
  | none ↦ []
  | some n ↦ destination_within (length prefix) n
]

-- The constructor `route_mapper`.
abbrev pub empty : CharNode
empty = fresh 0
