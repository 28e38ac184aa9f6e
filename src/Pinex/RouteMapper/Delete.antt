-- ===== src/Pinex/RouteMapper/Delete.antt =====
-- Updating and deleting routes.
use smppgw.Base.{
  ℕ, suc, ◌+◌, ◌≡◌, ◌<◌, refl, inl, inr, Bool, true, false, not, ◌&&◌, [], ◌∷◌, Option, none, some,
  Option-cases, Bool-cases, length, ◌==◌, if◌then◌else◌, arith,
}
use smppgw.Smpp.Byte.{Bytes}
use smppgw.Pinex.Text.{eq_text}
use smppgw.Pinex.RouteMapper.{
  CharNode, node, nil, cons, child, has_value, number_of_childs, depth, find_from_root, reset,
  update_route, delete_route,
}
use smppgw.Pinex.RouteMapper.Lookup.{value_at, is_none, child-put, value_at-store, reaches}
use smppgw.Pinex.RouteMapper.Matching.{walk, find_from_root-walk}
use smppgw.Pinex.RouteMapper.Invariant.{IsNode, child-IsNode, child-clear, reset-IsNode}

-- The node found stands at this depth.
abbrev hit : ℕ → Option CharNode → Bool
hit len none = false
hit len (some n) = depth n == len

abbrev Shallow : ℕ → Option CharNode → Type 0
Shallow k none = Unit {0}
Shallow k (some n) = depth n < k

hit_below : (k len : ℕ) (last : Option CharNode) → Shallow k last → hit (k + len) last ≡ false
hit_below k len none s = refl
hit_below k len (some n) s = ground arith

Shallow-valid :
    (k : ℕ) (t : CharNode) (last : Option CharNode)
    → IsNode k t
    → Shallow k last
    → Shallow (k + 1) (if has_value t then some t else last)
Shallow-valid k (node d m true dep n cs) last v s = omega arith
Shallow-valid k (node d m false dep n cs) none v s = tt
Shallow-valid k (node d m false dep n cs) (some u) v s = omega arith

hit-walk :
    (k : ℕ) (w : Bytes) (t : CharNode) (last : Option CharNode)
    → IsNode k t
    → Shallow k last
    → hit (k + length w) (walk w t last) ≡ not (is_none (value_at w t))
unfolding walk value_at
hit-walk k [] (node d m true dep n cs) last v s = ground arith
hit-walk k [] (node d m false dep n cs) last v s = hit_below k 0 last s
hit-walk k (c ∷ w) (node d m h dep n cs) last v s =
    let valid : Option CharNode = if h then some (node d m h dep n cs) else last in
    let s' = Shallow-valid k (node d m h dep n cs) last v s in
    elim (Option-cases (child c cs)) [
      | inl a ↦
          rw (a, walk, value_at)
            (let e : k + suc (length w) ≡ k + 1 + length w = omega arith in
              rw e (hit_below (k + 1) (length w) valid s'))
      | inr (t, a) ↦
          rw (a, walk, value_at)
            (let e : k + suc (length w) ≡ k + 1 + length w = omega arith in
              rw e (hit-walk (k + 1) w t valid (child-IsNode c (k + 1) cs t v.2 a) s'))
    ]

-- The search finds the node of the whole prefix exactly where a route is stored for it.
found :
    (w : Bytes) (t : CharNode)
    → IsNode 0 t
    → hit (length w) (find_from_root w t false) ≡ not (is_none (value_at w t))
found w t v =
    rw (find_from_root-walk w t false)
      (let e : 0 + length w ≡ length w = omega arith in rw e at (hit-walk 0 w t none v tt))

value_at_bare :
    (k : ℕ) (p : Bytes) (t : CharNode)
    → IsNode k t
    → has_value t ≡ false
    → number_of_childs t ≡ 0
    → value_at p t ≡ none
unfolding value_at child
value_at_bare k [] (node d m h dep n cs) v e z = ground arith
value_at_bare k (c ∷ p) (node d m h dep n nil) v e z = refl
value_at_bare k (c ∷ p) (node d m h dep n (cons i t cs)) v e z = absurd (omega arith)

-- A node that `clean_up` deletes holds no value and has no children.
reset_bare :
    (w : Bytes) (t : CharNode)
    → (reset w t).1 ≡ true
    → (has_value (reset w t).0 ≡ false) × (number_of_childs (reset w t).0 ≡ 0)
unfolding reset
reset_bare [] (node d m h dep n cs) e = ground arith
reset_bare (c ∷ w) (node d m h dep n cs) e = elim (Option-cases (child c cs)) [
  | inl a ↦ ground arith
  | inr (t, a) ↦ ground arith
]

value_at-reset :
    (k : ℕ) (w p : Bytes) (t : CharNode)
    → IsNode k t
    → value_at p (reset w t).0 ≡ (if eq_text w p then none else value_at p t)
unfolding value_at reset eq_text
value_at-reset k [] [] (node d m h dep n cs) v = refl
value_at-reset k [] (e ∷ p) (node d m h dep n cs) v = refl
value_at-reset k (c ∷ w) [] (node d m h dep n cs) v = elim (Option-cases (child c cs)) [
  | inl a ↦ ground arith
  | inr (t, a) ↦ ground arith
]
value_at-reset k (c ∷ w) (e ∷ p) (node d m h dep n cs) v = elim (Option-cases (child c cs)) [
  | inl a ↦ ground arith
  | inr (t, a) ↦
      let u = child-IsNode c (k + 1) cs t v.2 a in
      let ih = value_at-reset (k + 1) w p t u in
      elim (Bool-cases (reset w t).1) [
        | inl b ↦
            let bare = reset_bare w t b in
            let gone =
              value_at_bare (k + 1) p (reset w t).0 (reset-IsNode (k + 1) w t u) bare.0 bare.1 in
            ground (arith, child-clear c e cs, ih, gone)
        | inr b ↦ ground (arith, child-put c e (reset w t).0 cs, ih)
      ]
]

-- A path with a value is there.
reaches_value : (w : Bytes) (t : CharNode) → is_none (value_at w t) ≡ false → reaches w t ≡ true
unfolding reaches value_at
reaches_value [] t h = refl
reaches_value (c ∷ w) (node d m h dep n cs) e = elim (Option-cases (child c cs)) [
  | inl a ↦ ground arith
  | inr (t, a) ↦ ground (arith, reaches_value w t)
]

-- `update_route` succeeds exactly where a route is stored, and then replaces that route alone.
pub value_at-update_route :
    (w p : Bytes) (d : Bytes) (m : ℕ) (t : CharNode)
    → IsNode 0 t
    → ((update_route w d m t).1 ≡ not (is_none (value_at w t)))
      × (value_at p (update_route w d m t).0
          ≡ (if eq_text w p && not (is_none (value_at w t)) then some (d, m) else value_at p t))
unfolding update_route
value_at-update_route w p d m t v = elim (Option-cases (find_from_root w t false)) [
  | inl a ↦ ground (arith, found w t v)
  | inr (n, a) ↦ ground (arith, found w t v, value_at-store w p d m t, reaches_value w t)
]

-- `delete_route` succeeds exactly where a route is stored, and then removes that route alone, the
-- nodes that it deletes notwithstanding.
pub value_at-delete_route :
    (w p : Bytes) (t : CharNode)
    → IsNode 0 t
    → ((delete_route w t).1 ≡ not (is_none (value_at w t)))
      × (value_at p (delete_route w t).0
          ≡ (if eq_text w p && not (is_none (value_at w t)) then none else value_at p t))
unfolding delete_route
value_at-delete_route w p t v = elim (Option-cases (find_from_root w t false)) [
  | inl a ↦ ground (arith, found w t v)
  | inr (n, a) ↦ ground (arith, found w t v, value_at-reset 0 w p t v)
]
