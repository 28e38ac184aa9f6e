-- ===== src/Pinex/RouteMapper/Lookup.antt =====
-- The trie as a table: what stands at a prefix, and how adding a route changes it.
use smppgw.Base.{
  ℕ, ◌+◌, ◌≡◌, refl, inl, inr, Bool, true, false, ◌&&◌, [], ◌∷◌, Option, none, some, Option-cases,
  Bool-cases, ◌==◌, if◌then◌else◌, arith,
}
use smppgw.Smpp.Byte.{Bytes}
use smppgw.Pinex.Text.{eq_text}
use smppgw.Pinex.RouteMapper.{
  CharNode, node, Childs, nil, cons, fresh, child, put, create_sub_tree, store, add_route,
}

pub child-put :
    (i j : ℕ) (t : CharNode) (cs : Childs)
    → child j (put i t cs) ≡ (if i == j then some t else child j cs)
unfolding child put
child-put i j t nil = refl
child-put i j t (cons k u cs) = ground (arith, child-put i j t cs)

-- The destination and the maximal length that are stored for a prefix.
unfoldable pub value_at : Bytes → CharNode → Option (Bytes × ℕ)
value_at [] (node d m h dep n cs) = if h then some (d, m) else none
value_at (c ∷ w) (node d m h dep n cs) = elim (child c cs) [ none ↦ none | some t ↦ value_at w t ]

pub value_at-fresh : (p : Bytes) (dep : ℕ) → value_at p (fresh dep) ≡ none
unfolding value_at child
value_at-fresh [] dep = refl
value_at-fresh (c ∷ p) dep = refl

-- Making the path changes no value, and fails exactly where one is stored.
value_at-create_sub_tree :
    (w p : Bytes) (t : CharNode) → value_at p (create_sub_tree w t).0 ≡ value_at p t
unfolding value_at create_sub_tree
value_at-create_sub_tree [] [] (node d m h dep n cs) = refl
value_at-create_sub_tree [] (e ∷ p) (node d m h dep n cs) = refl
value_at-create_sub_tree (c ∷ w) [] (node d m h dep n cs) = ground arith
value_at-create_sub_tree (c ∷ w) (e ∷ p) (node d m h dep n cs) = elim (Option-cases (child c cs)) [
  | inl a ↦ ground (
    arith,
    child-put c e (create_sub_tree w (fresh (dep + 1))).0 cs,
    value_at-create_sub_tree w p (fresh (dep + 1)),
    value_at-fresh p (dep + 1),
  )
  | inr (t, a) ↦
      ground (arith, child-put c e (create_sub_tree w t).0 cs, value_at-create_sub_tree w p t)
]

-- The pointer is null exactly where a value is stored.
abbrev pub is_none : Option (Bytes × ℕ) → Bool
is_none none = true
is_none (some v) = false

create_sub_tree-is_none :
    (w : Bytes) (t : CharNode) → (create_sub_tree w t).1 ≡ is_none (value_at w t)
unfolding value_at create_sub_tree
create_sub_tree-is_none [] (node d m h dep n cs) = ground arith
create_sub_tree-is_none (c ∷ w) (node d m h dep n cs) = elim (Option-cases (child c cs)) [
  | inl a ↦ ground (arith, create_sub_tree-is_none w (fresh (dep + 1)), value_at-fresh w (dep + 1))
  | inr (t, a) ↦ ground (arith, create_sub_tree-is_none w t)
]

-- The path is there.
unfoldable pub reaches : Bytes → CharNode → Bool
reaches [] t = true
reaches (c ∷ w) (node d m h dep n cs) = elim (child c cs) [ none ↦ false | some t ↦ reaches w t ]

reaches-create_sub_tree : (w : Bytes) (t : CharNode) → reaches w (create_sub_tree w t).0 ≡ true
unfolding reaches create_sub_tree
reaches-create_sub_tree [] t = refl
reaches-create_sub_tree (c ∷ w) (node d m h dep n cs) = elim (Option-cases (child c cs)) [
  | inl a ↦ ground (
    arith,
    reaches-create_sub_tree w (fresh (dep + 1)),
    child-put c c (create_sub_tree w (fresh (dep + 1))).0 cs,
  )
  | inr (t, a) ↦
      ground (arith, reaches-create_sub_tree w t, child-put c c (create_sub_tree w t).0 cs)
]

-- Storing at the end of a path that is there changes that prefix alone.
pub value_at-store :
    (w p : Bytes) (d' : Bytes) (m' : ℕ) (t : CharNode)
    → reaches w t ≡ true
    → value_at p (store w d' m' t) ≡ (if eq_text w p then some (d', m') else value_at p t)
unfolding value_at store reaches eq_text
value_at-store [] [] d' m' (node d m h dep n cs) r = refl
value_at-store [] (e ∷ p) d' m' (node d m h dep n cs) r = refl
value_at-store (c ∷ w) [] d' m' (node d m h dep n cs) r = ground arith
value_at-store (c ∷ w) (e ∷ p) d' m' (node d m h dep n cs) r = elim (Option-cases (child c cs)) [
  | inl a ↦ ground arith
  | inr (t, a) ↦ ground (arith, child-put c e (store w d' m' t) cs, value_at-store w p d' m' t)
]

-- `add_route` succeeds exactly where no route is stored; then it stores its own at that prefix.
-- Every other prefix keeps its route, in both cases.
pub value_at-add_route :
    (w p : Bytes) (d : Bytes) (m : ℕ) (t : CharNode)
    → ((add_route w d m t).1 ≡ is_none (value_at w t))
      × (value_at p (add_route w d m t).0
          ≡ (if eq_text w p && is_none (value_at w t) then some (d, m) else value_at p t))
unfolding add_route
value_at-add_route w p d m t =
    let f = create_sub_tree-is_none w t in
    let g = value_at-create_sub_tree w p t in
    elim (Bool-cases (create_sub_tree w t).1) [
      | inl e ↦ ground (
        arith,
        f,
        g,
        value_at-store w p d m (create_sub_tree w t).0 (reaches-create_sub_tree w t),
      )
      | inr e ↦ ground (arith, f, g)
    ]
