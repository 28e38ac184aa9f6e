-- ===== src/Routing/Matcher/Table.antt =====
-- The routes that a matcher stands for, in the order of their numbers.
use smppgw.Base.{
  ℕ, suc, ◌*◌, ◌<◌, ◌≤◌, ◌≡◌, refl, ap, sym, subst, ◌∙◌, Bool, true, false, List, [], ◌∷◌, ◌++◌,
  Option, none, some, map, ltb, ◌==◌, if◌then◌else◌, arith, Bool-cases, inl, inr, All, length,
}
use smppgw.Smpp.Byte.{Bytes}
use smppgw.Routing.RuleMatcher.{RuleMatcher}
use smppgw.Routing.RuleMatcher.Adding.{rule_matches, all_selected}
use smppgw.Routing.RuleMatcher.Rules.{IsMatcher}
use smppgw.Routing.Matcher.{
  RoutingInfo, get_list, Matcher, find_key, assign, emplace, erase_key, erase_value,
}

-- A route with its number.
abbrev pub Table : Type 0
Table = List (ℕ × RoutingInfo)

abbrev pub is_route : ℕ → Table → Bool
is_route id [] = false
is_route id (e ∷ table) = if e.1.info_id == id then true else is_route id table

-- The numbers ascend from `lo` on and stay below `hi`.
abbrev pub Ascends : ℕ → ℕ → Table → Type 0
Ascends lo hi [] = lo ≤ hi
Ascends lo hi (e ∷ table) = (lo ≤ e.0) × Ascends (suc e.0) hi table

abbrev pub numbers : Table → List (ℕ × ℕ)
numbers table = map (λ e. (e.0, e.1.info_id)) table

-- The identifiers differ.
abbrev pub Differs : Table → Type 0
Differs [] = Unit
Differs (e ∷ table) = (is_route e.1.info_id table ≡ false) × Differs table

-- The bits of a route's number are those of its fields.
abbrev pub IsMarked : RuleMatcher → ℕ × RoutingInfo → Type 0
IsMarked m e =
    (fields : List Bytes)
    → length fields ≡ 4
    → all_selected m.trie.root fields (e.0 * 4) ≡ rule_matches (get_list e.1) fields

-- The identifiers' entries are those of the routes.
abbrev pub target_of : ℕ → Table → Option (Bytes × ℕ)
target_of id [] = none
target_of id (e ∷ table) =
    if e.1.info_id == id then some (e.1.info_target, e.1.info_priority) else target_of id table

pub record IsTable (m : Matcher) (table : Table) : Type 0 where
  pub matcher : IsMatcher 1000 m.prefix_rule_matcher
  pub room : m.prefix_rule_matcher.count_of_set_rules ≤ 1000
  pub numbered : m.prm_id_to_rule_id ≡ numbers table
  pub mapped : (id : ℕ) → find_key id m.rule_id_mapping ≡ target_of id table
  pub ascends : Ascends 0 m.prefix_rule_matcher.count_of_set_rules table
  pub differs : Differs table
  pub marked : All (IsMarked m.prefix_rule_matcher) table

-- What the maps hold behind `emplace` and `erase`.
module _ {A : Type 0} where
  pub find_key-emplace :
      (k j : ℕ) (v : A) (es : List (ℕ × A))
      → find_key k es ≡ none
      → find_key j (emplace k v es) ≡ (if k == j then some v else find_key j es)
  unfolding find_key emplace
  find_key-emplace k j v [] absent = refl
  find_key-emplace k j v (e ∷ es) absent = elim (Bool-cases (e.0 == k)) [
    | inl same ↦
        let found : some e.1 ≡ none =
          sym (ap (λ b. if b then some e.1 else find_key k es) same) ∙ absent in
        cc
    | inr other ↦
        let rest =
          find_key-emplace k j v es
            (sym (ap (λ b. if b then some e.1 else find_key k es) other) ∙ absent) in
        let differ : (k == e.0) ≡ false = ground (arith, other) in
        rw differ (elim (Bool-cases (ltb k e.0)) [
          | inl first ↦ rw first refl
          | inr later ↦ rw (later, rest) (ground (arith, other))
        ])
  ]

  pub find_key-erase_key :
      (k j : ℕ) (es : List (ℕ × A))
      → find_key j (erase_key k es) ≡ (if k == j then none else find_key j es)
  unfolding find_key erase_key
  find_key-erase_key k j [] = ground arith
  find_key-erase_key k j (e ∷ es) = elim (Bool-cases (e.0 == k)) [
    | inl same ↦ rw (same, find_key-erase_key k j es) (ground (arith, same))
    | inr other ↦ rw (other, find_key-erase_key k j es) (ground (arith, other))
  ]

  -- A key above the others goes to the end.
  pub assign_last :
      (k : ℕ) (v : A) (es : List (ℕ × A))
      → All (λ e. e.0 < k) es
      → assign k v es ≡ es ++ ((k, v) ∷ [])
  unfolding assign
  assign_last k v [] h = refl
  assign_last k v (e ∷ es) h =
      let differ : (k == e.0) ≡ false = ground (arith, h.0) in
      let above : ltb k e.0 ≡ false = ground (arith, h.0) in
      rw (differ, above, assign_last k v es h.1) refl

-- The route with an identifier is taken out.
abbrev pub without : ℕ → Table → Table
without id [] = []
without id (e ∷ table) = if e.1.info_id == id then table else e ∷ without id table

pub numbers-without :
    (id : ℕ) (table : Table) → erase_value id (numbers table) ≡ numbers (without id table)
unfolding erase_value
numbers-without id [] = refl
numbers-without id (e ∷ table) = elim (Bool-cases (e.1.info_id == id)) [
  | inl same ↦ rw same refl
  | inr other ↦ rw (other, numbers-without id table) refl
]

pub Ascends-le : (lo hi : ℕ) (table : Table) → Ascends lo hi table → lo ≤ hi
Ascends-le lo hi [] h = h
Ascends-le lo hi (e ∷ table) h = omega (arith, h.0, Ascends-le (suc e.0) hi table h.1)

Ascends-weaken :
    (lo lo' hi : ℕ) (table : Table) → lo ≤ lo' → Ascends lo' hi table → Ascends lo hi table
Ascends-weaken lo lo' hi [] le h = omega arith
Ascends-weaken lo lo' hi (e ∷ table) le h = (omega (arith, h.0), h.1)

pub Ascends-widen :
    (lo hi hi' : ℕ) (table : Table) → hi ≤ hi' → Ascends lo hi table → Ascends lo hi' table
Ascends-widen lo hi hi' [] le h = omega arith
Ascends-widen lo hi hi' (e ∷ table) le h = (h.0, Ascends-widen (suc e.0) hi hi' table le h.1)

pub Ascends-without :
    (id lo hi : ℕ) (table : Table) → Ascends lo hi table → Ascends lo hi (without id table)
Ascends-without id lo hi [] h = h
Ascends-without id lo hi (e ∷ table) h = elim (Bool-cases (e.1.info_id == id)) [
  | inl same ↦ rw same (Ascends-weaken lo (suc e.0) hi table (omega (arith, h.0)) h.1)
  | inr other ↦ rw other (h.0, Ascends-without id (suc e.0) hi table h.1)
]

pub is_route-without :
    (id j : ℕ) (table : Table) → is_route j table ≡ false → is_route j (without id table) ≡ false
is_route-without id j [] h = refl
is_route-without id j (e ∷ table) h = elim (Bool-cases (e.1.info_id == id)) [
  | inl same ↦ rw same (ground (arith, h))
  | inr other ↦ rw other (ground (arith, h, is_route-without id j table))
]

pub Differs-without : (id : ℕ) (table : Table) → Differs table → Differs (without id table)
Differs-without id [] h = h
Differs-without id (e ∷ table) h = elim (Bool-cases (e.1.info_id == id)) [
  | inl same ↦ rw same h.1
  | inr other ↦ rw other (is_route-without id e.1.info_id table h.0, Differs-without id table h.1)
]

pub All-without {ℓ} :
    (P : ℕ × RoutingInfo → Type ℓ) (id : ℕ) (table : Table) → All P table → All P (without id table)
All-without P id [] h = h
All-without P id (e ∷ table) h = elim (Bool-cases (e.1.info_id == id)) [
  | inl same ↦ rw same h.1
  | inr other ↦ rw other (h.0, All-without P id table h.1)
]

target_of_absent : (id : ℕ) (table : Table) → is_route id table ≡ false → target_of id table ≡ none
target_of_absent id [] h = refl
target_of_absent id (e ∷ table) h = ground (arith, h, target_of_absent id table)

pub target_of-without :
    (id j : ℕ) (table : Table)
    → Differs table
    → target_of j (without id table) ≡ (if id == j then none else target_of j table)
target_of-without id j [] h = ground arith
target_of-without id j (e ∷ table) h = elim (Bool-cases (e.1.info_id == id)) [
  | inl same ↦ rw same (elim (Bool-cases (id == j)) [
    | inl here ↦
        let same_id : e.1.info_id ≡ j = ground (arith, same, here) in
        rw here (target_of_absent j table (subst (λ i. is_route i table ≡ false) same_id h.0))
    | inr there ↦
        let differ : (e.1.info_id == j) ≡ false = ground (arith, same, there) in
        rw (there, differ) refl
  ])
  | inr other ↦ rw (other, target_of-without id j table h.1) (ground (arith, other))
]

pub All_below :
    (lo hi : ℕ) (table : Table) → Ascends lo hi table → All (λ e. e.0 < hi) (numbers table)
All_below lo hi [] h = tt
All_below lo hi (e ∷ table) h =
    (Ascends-le (suc e.0) hi table h.1, All_below (suc e.0) hi table h.1)

pub without_absent : (id : ℕ) (table : Table) → target_of id table ≡ none → without id table ≡ table
without_absent id [] absent = refl
without_absent id (e ∷ table) absent = elim (Bool-cases (e.1.info_id == id)) [
  | inl same ↦
      let target : Bytes × ℕ = (e.1.info_target, e.1.info_priority) in
      let found = sym (ap (λ b. if b then some target else target_of id table) same) ∙ absent in cc
  | inr other ↦
      let target : Bytes × ℕ = (e.1.info_target, e.1.info_priority) in
      let rest = sym (ap (λ b. if b then some target else target_of id table) other) ∙ absent in
      rw (other, without_absent id table rest) refl
]
