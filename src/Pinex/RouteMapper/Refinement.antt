-- ===== src/Pinex/RouteMapper/Refinement.antt =====
-- The trie implements a table from prefixes to routes, under any sequence of operations.
use mathlib.Core.Path.{fun_ext}
use smppgw.Base.{
  ◌==◌, ℕ, ◌≡◌, refl, ap, ◌∙◌, Bool, true, false, not, ◌&&◌, List, [], ◌∷◌, Option, none, some,
  length, if◌then◌else◌,
}
use smppgw.Smpp.Byte.{Bytes}
use smppgw.Pinex.Text.{eq_text}
use smppgw.Pinex.RouteMapper.{
  store, reset, depth, CharNode, node, empty, child, add_route, update_route, delete_route,
  clear_all_routes, find_destination, create_sub_tree, find_from_root,
}
use smppgw.Pinex.RouteMapper.Lookup.{value_at, value_at-fresh, is_none, value_at-add_route}
use smppgw.Pinex.RouteMapper.Matching.{searched, longest, destination_for, find_destination-longest}
use smppgw.Pinex.RouteMapper.Invariant.{IsNode, create_sub_tree-IsNode, store-IsNode, reset-IsNode}
use smppgw.Pinex.RouteMapper.Delete.{value_at-update_route, value_at-delete_route}

pub data Op : Type 0 where
  adds updates : Bytes → Bytes → ℕ → Op
  deletes : Bytes → Op
  clears : Op

abbrev pub apply : Op → CharNode → CharNode
apply (adds w d m) t = (add_route w d m t).0
apply (updates w d m) t = (update_route w d m t).0
apply (deletes w) t = (delete_route w t).0
apply clears t = clear_all_routes t

abbrev pub run : List Op → CharNode → CharNode
run [] t = t
run (o ∷ os) t = run os (apply o t)

abbrev pub Table : Type 0
Table = Bytes → Option (Bytes × ℕ)

-- The operations on the table. `clears` forgets every route but the one of the empty prefix.
abbrev pub apply_table : Op → Table → Table
apply_table (adds w d m) f p = if eq_text w p && is_none (f w) then some (d, m) else f p
apply_table (updates w d m) f p = if eq_text w p && not (is_none (f w)) then some (d, m) else f p
apply_table (deletes w) f p = if eq_text w p && not (is_none (f w)) then none else f p
apply_table clears f [] = f []
apply_table clears f (c ∷ p) = none

abbrev pub run_table : List Op → Table → Table
run_table [] f = f
run_table (o ∷ os) f = run_table os (apply_table o f)

-- A result that is one of two trees of the right shape has it.
pick-IsNode :
    (b : Bool) (x t : CharNode)
    → IsNode 0 x
    → IsNode 0 t
    → IsNode 0 (if b then (let r : CharNode × Bool = (x, true) in r) else (t, false)).0
pick-IsNode true x t v u = v
pick-IsNode false x t v u = u

found-IsNode :
    (o : Option CharNode) (b : CharNode → Bool) (x t : CharNode)
    → IsNode 0 x
    → IsNode 0 t
    → IsNode 0
        (elim o as (λ _. CharNode × Bool) [
          | none ↦ (t, false)
          | some n ↦ if b n then (x, true) else (t, false)
        ]).0
found-IsNode none b x t v u = u
found-IsNode (some n) b x t v u = pick-IsNode (b n) x t v u

apply-IsNode : (o : Op) (t : CharNode) → IsNode 0 t → IsNode 0 (apply o t)
unfolding add_route update_route delete_route clear_all_routes
apply-IsNode (adds w d m) t v =
    let u = create_sub_tree-IsNode 0 w t v in
    let r = create_sub_tree w t in
    pick-IsNode r.1 (store w d m r.0) r.0 (store-IsNode 0 w d m r.0 u) u
apply-IsNode (updates w d m) t v =
    found-IsNode (find_from_root w t false) (λ n. depth n == length w) (store w d m t) t
      (store-IsNode 0 w d m t v) v
apply-IsNode (deletes w) t v =
    found-IsNode (find_from_root w t false) (λ n. depth n == length w) (reset w t).0 t
      (reset-IsNode 0 w t v) v
apply-IsNode clears (node d m h dep n cs) v = (v.0, refl, tt)

value_at-apply :
    (o : Op) (t : CharNode) (p : Bytes)
    → IsNode 0 t
    → value_at p (apply o t) ≡ apply_table o (λ q. value_at q t) p
unfolding value_at clear_all_routes child
value_at-apply (adds w d m) t p v = (value_at-add_route w p d m t).1
value_at-apply (updates w d m) t p v = (value_at-update_route w p d m t v).1
value_at-apply (deletes w) t p v = (value_at-delete_route w p t v).1
value_at-apply clears (node d m h dep n cs) [] v = refl
value_at-apply clears (node d m h dep n cs) (c ∷ p) v = refl

run-IsNode : (os : List Op) (t : CharNode) → IsNode 0 t → IsNode 0 (run os t)
run-IsNode [] t v = v
run-IsNode (o ∷ os) t v = run-IsNode os (apply o t) (apply-IsNode o t v)

value_at-run :
    (os : List Op) (t : CharNode)
    → IsNode 0 t
    → (λ q. value_at q (run os t)) ≡ run_table os (λ q. value_at q t)
value_at-run [] t v = refl
value_at-run (o ∷ os) t v =
    value_at-run os (apply o t) (apply-IsNode o t v)
    ∙ ap (run_table os) (fun_ext (λ q. value_at-apply o t q v))

-- After any sequence of operations on a new mapper, its depths and child counts are right, and a
-- search answers from the table that the operations make: with the route of the longest prefix.
pub find_destination-run :
    (os : List Op) (q : Bytes) (r : Bool)
    → IsNode 0 (run os empty)
      × (find_destination q (run os empty) r
          ≡ destination_for (length q) (longest (run_table os (λ p. none)) (searched q r)))
find_destination-run os q r =
    let start : IsNode 0 empty = (refl, refl, tt) in
    (
      run-IsNode os empty start,
      find_destination-longest q (run os empty) r
          ∙ ap (λ f. destination_for (length q) (longest f (searched q r)))
              (value_at-run os empty start ∙ ap (run_table os) (fun_ext (λ p. value_at-fresh p 0))),
    )
