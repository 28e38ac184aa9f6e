-- ===== src/Pinex/RouteMapper/Invariant.antt =====
-- The shape of the trie: depths, child counts and distinct indices, kept by every operation.
use smppgw.Base.{
  ℕ, suc, ◌+◌, ◌≡◌, refl, inl, inr, subst, Bool, true, false, [], ◌∷◌, Option, none, some,
  Option-cases, Bool-cases, ◌==◌, if◌then◌else◌, arith,
}
use smppgw.Smpp.Byte.{Bytes}
use smppgw.Pinex.RouteMapper.{
  CharNode, node, Childs, nil, cons, fresh, child, put, clear, create_sub_tree, store, reset,
}
use smppgw.Pinex.RouteMapper.Lookup.{child-put}

abbrev pub count : Childs → ℕ
count nil = 0
count (cons i t cs) = suc (count cs)

abbrev mutual
  pub IsNode : ℕ → CharNode → Type 0
  IsNode k (node d m h dep n cs) = (dep ≡ k) × (n ≡ count cs) × IsChilds (k + 1) cs

  pub IsChilds : ℕ → Childs → Type 0
  IsChilds k nil = Unit {0}
  IsChilds k (cons i t cs) = (child i cs ≡ none) × IsNode k t × IsChilds k cs

pub child-IsNode :
    (i k : ℕ) (cs : Childs) (t : CharNode) → IsChilds k cs → child i cs ≡ some t → IsNode k t
unfolding child
child-IsNode i k nil t h e = cc
child-IsNode i k (cons j u cs) t h e = elim (Bool-cases (j == i)) [
  | inl d ↦ subst (IsNode k) (ground arith) h.1
  | inr d ↦ child-IsNode i k cs t h.2 (rw d at e)
]

pub put-IsChilds :
    (i k : ℕ) (t : CharNode) (cs : Childs) → IsChilds k cs → IsNode k t → IsChilds k (put i t cs)
unfolding put child
put-IsChilds i k t nil h n = (refl, n, tt)
put-IsChilds i k t (cons j u cs) h n = elim (Bool-cases (j == i)) [
  | inl d ↦ rw d (ground arith, n, h.2)
  | inr d ↦ rw d (ground (arith, child-put i j t cs), h.1, put-IsChilds i k t cs h.2 n)
]

is_some : Option CharNode → Bool
is_some none = false
is_some (some t) = true

count-put :
    (i : ℕ) (t : CharNode) (cs : Childs)
    → count (put i t cs) ≡ (if is_some (child i cs) then count cs else count cs + 1)
unfolding put child is_some
count-put i t nil = refl
count-put i t (cons j u cs) = ground (arith, count-put i t cs)

pub child-clear :
    (i j : ℕ) (cs : Childs) → child j (clear i cs) ≡ (if i == j then none else child j cs)
unfolding child clear
child-clear i j nil = ground arith
child-clear i j (cons k u cs) = ground (arith, child-clear i j cs)

clear-IsChilds : (i k : ℕ) (cs : Childs) → IsChilds k cs → IsChilds k (clear i cs)
unfolding clear
clear-IsChilds i k nil h = tt
clear-IsChilds i k (cons j u cs) h = elim (Bool-cases (j == i)) [
  | inl d ↦ rw d (clear-IsChilds i k cs h.2)
  | inr d ↦ rw d (ground (arith, child-clear i j cs, h.0), h.1, clear-IsChilds i k cs h.2)
]

count-clear :
    (i k : ℕ) (cs : Childs)
    → IsChilds k cs
    → (if is_some (child i cs) then count (clear i cs) + 1 else count (clear i cs)) ≡ count cs
unfolding child clear is_some
count-clear i k nil h = refl
count-clear i k (cons j u cs) h = elim (Bool-cases (j == i)) [
  | inl d ↦ ground (arith, count-clear i k cs h.2, h.0)
  | inr d ↦ ground (arith, count-clear i k cs h.2)
]

pub create_sub_tree-IsNode :
    (k : ℕ) (w : Bytes) (t : CharNode) → IsNode k t → IsNode k (create_sub_tree w t).0
unfolding create_sub_tree is_some
create_sub_tree-IsNode k [] (node d m h dep n cs) v = v
create_sub_tree-IsNode k (c ∷ w) (node d m h dep n cs) v = elim (Option-cases (child c cs)) [
  | inl a ↦
      rw (a, create_sub_tree)
        (
          v.0,
          ground (arith, v.1, count-put c (create_sub_tree w (fresh (dep + 1))).0 cs),
          put-IsChilds c (k + 1) _ cs v.2
              (create_sub_tree-IsNode (k + 1) w (fresh (dep + 1)) (ground (arith, v.0), refl, tt)),
        )
  | inr (t, a) ↦
      rw (a, create_sub_tree)
        (
          v.0,
          ground (arith, v.1, count-put c (create_sub_tree w t).0 cs),
          put-IsChilds c (k + 1) _ cs v.2
              (create_sub_tree-IsNode (k + 1) w t (child-IsNode c (k + 1) cs t v.2 a)),
        )
]

pub store-IsNode :
    (k : ℕ) (w : Bytes) (d' : Bytes) (m' : ℕ) (t : CharNode)
    → IsNode k t
    → IsNode k (store w d' m' t)
unfolding store is_some
store-IsNode k [] d' m' (node d m h dep n cs) v = v
store-IsNode k (c ∷ w) d' m' (node d m h dep n cs) v = elim (Option-cases (child c cs)) [
  | inl a ↦ rw (a, store) v
  | inr (t, a) ↦
      rw (a, store)
        (
          v.0,
          ground (arith, v.1, count-put c (store w d' m' t) cs),
          put-IsChilds c (k + 1) _ cs v.2
              (store-IsNode (k + 1) w d' m' t (child-IsNode c (k + 1) cs t v.2 a)),
        )
]

pub reset-IsNode : (k : ℕ) (w : Bytes) (t : CharNode) → IsNode k t → IsNode k (reset w t).0
unfolding reset is_some
reset-IsNode k [] (node d m h dep n cs) v = v
reset-IsNode k (c ∷ w) (node d m h dep n cs) v = elim (Option-cases (child c cs)) [
  | inl a ↦ rw (a, reset) v
  | inr (t, a) ↦ elim (Bool-cases (reset w t).1) [
    | inl b ↦
        rw (a, reset)
          (rw b (
            v.0,
            ground (arith, v.1, count-clear c (k + 1) cs v.2),
            clear-IsChilds c (k + 1) cs v.2,
          ))
    | inr b ↦
        rw (a, reset)
          (rw b (
            v.0,
            ground (arith, v.1, count-put c (reset w t).0 cs),
            put-IsChilds c (k + 1) _ cs v.2
                (reset-IsNode (k + 1) w t (child-IsNode c (k + 1) cs t v.2 a)),
          ))
  ]
]
