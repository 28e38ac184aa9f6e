-- ===== src/Pinex/Router/Invariant.antt =====
-- The list of targets is in strict order, so without repetition, and the round-robin index is in it.
use smppgw.Base.{
  length-append, zero, Option-cases, ℕ, suc, ◌+◌, ◌≡◌, ◌<◌, ◌⊎◌, inl, inr, refl, ap, ◌∙◌, true,
  false, not, ◌&&◌, ◌||◌, List, [], ◌∷◌, ◌++◌, some, length, get_elem?, if◌then◌else◌, All, arith,
  Bool-cases,
}
use smppgw.Smpp.Byte.{Bytes}
use smppgw.Pinex.Text.{
  eq_text, lt_text, eq_text→eq, eq_text_comm, lt_text_irrefl, lt_text_trans, lt_text_total,
}
use smppgw.Base.Results.{ok, >>=-eq-ok, subst_ok}
use smppgw.Pinex.RoutingList.{RoutingMethod}
use smppgw.Pinex.Router.{
  Router, find, find_by, route_by_load_balance, has_target, insert_sorted, sort, add_target,
  remove_loop, remove_target, route_by_round_robin,
}

abbrev pub Above : Bytes → List Bytes → Type 0
Above x = All (λ y. lt_text x y ≡ true)

abbrev pub IsAscending : List Bytes → Type 0
IsAscending [] = Unit {0}
IsAscending (x ∷ xs) = Above x xs × IsAscending xs

pub record IsRouter (s : Router) : Type 0 where
  pub ascending : IsAscending s.targets_list
  pub in_range : (s.last_index ≡ 0) ⊎ (s.last_index < length s.targets_list)

Above-trans : (x y : Bytes) (l : List Bytes) → lt_text x y ≡ true → Above y l → Above x l
Above-trans x y [] h a = tt
Above-trans x y (z ∷ l) h a = (lt_text_trans x y z h a.0, Above-trans x y l h a.1)

-- A text is not among those above it.
Above-has_target : (x : Bytes) (l : List Bytes) → Above x l → has_target x l ≡ false
unfolding has_target
Above-has_target x [] a = refl
Above-has_target x (y ∷ l) a = elim (Bool-cases (eq_text y x)) [
  | inl e ↦ cc (a.0, ap (lt_text x) (eq_text→eq y x e), lt_text_irrefl x)
  | inr e ↦ rw e (Above-has_target x l a.1)
]

has_target-insert_sorted :
    (t y : Bytes) (l : List Bytes)
    → has_target y (insert_sorted t l) ≡ (eq_text t y || has_target y l)
unfolding has_target insert_sorted
has_target-insert_sorted t y [] = refl
has_target-insert_sorted t y (x ∷ l) = ground (arith, has_target-insert_sorted t y l)

has_target-sort : (y : Bytes) (l : List Bytes) → has_target y (sort l) ≡ has_target y l
unfolding has_target sort
has_target-sort y [] = refl
has_target-sort y (x ∷ l) =
    rw (has_target-insert_sorted x y (sort l)) (ground (arith, has_target-sort y l))

has_target-append :
    (y t : Bytes) (l : List Bytes) → has_target y (l ++ t ∷ []) ≡ (eq_text t y || has_target y l)
unfolding has_target
has_target-append y t [] = refl
has_target-append y t (x ∷ l) = ground (arith, has_target-append y t l)

Above-insert_sorted :
    (x t : Bytes) (l : List Bytes) → lt_text x t ≡ true → Above x l → Above x (insert_sorted t l)
unfolding insert_sorted
Above-insert_sorted x t [] h a = (h, tt)
Above-insert_sorted x t (y ∷ l) h a = elim (Bool-cases (lt_text y t)) [
  | inl e ↦ rw e (a.0, Above-insert_sorted x t l h a.1)
  | inr e ↦ rw e (h, a)
]

insert_sorted-IsAscending :
    (t : Bytes) (l : List Bytes)
    → IsAscending l
    → has_target t l ≡ false
    → IsAscending (insert_sorted t l)
unfolding insert_sorted has_target
insert_sorted-IsAscending t [] a n = (tt, tt)
insert_sorted-IsAscending t (x ∷ l) a n = elim (Bool-cases (lt_text x t)) [
  | inl e ↦ rw e (Above-insert_sorted x t l e a.0, insert_sorted-IsAscending t l a.1 (ground arith))
  | inr e ↦
      let less = lt_text_total x t e (ground (arith, eq_text_comm t x)) in
      rw e ((less, Above-trans t x l less a.0), a)
]

abbrev IsDistinct : List Bytes → Type 0
IsDistinct [] = Unit {0}
IsDistinct (x ∷ xs) = (has_target x xs ≡ false) × IsDistinct xs

IsAscending→IsDistinct : (l : List Bytes) → IsAscending l → IsDistinct l
IsAscending→IsDistinct [] a = tt
IsAscending→IsDistinct (x ∷ l) a = (Above-has_target x l a.0, IsAscending→IsDistinct l a.1)

append-IsDistinct :
    (l : List Bytes) (t : Bytes) → IsDistinct l → has_target t l ≡ false → IsDistinct (l ++ t ∷ [])
unfolding has_target
append-IsDistinct [] t d n = (refl, tt)
append-IsDistinct (x ∷ l) t d n = (
  ground (arith, has_target-append x t l, eq_text_comm t x, d.0),
  append-IsDistinct l t d.1 (ground arith),
)

sort-IsAscending : (l : List Bytes) → IsDistinct l → IsAscending (sort l)
unfolding sort
sort-IsAscending [] d = tt
sort-IsAscending (x ∷ l) d =
    insert_sorted-IsAscending x (sort l) (sort-IsAscending l d.1) (has_target-sort x l ∙ d.0)

length-insert_sorted : (t : Bytes) (l : List Bytes) → length (insert_sorted t l) ≡ length l + 1
unfolding insert_sorted
length-insert_sorted t [] = refl
length-insert_sorted t (x ∷ l) = ground (arith, length-insert_sorted t l)

length-sort : (l : List Bytes) → length (sort l) ≡ length l
unfolding sort
length-sort [] = refl
length-sort (x ∷ l) = omega (arith, length-insert_sorted x (sort l), length-sort l)

remove_loop_absent : (t : Bytes) (l : List Bytes) → has_target t l ≡ false → remove_loop t l ≡ l
unfolding has_target remove_loop
remove_loop_absent t [] n = refl
remove_loop_absent t (x ∷ []) n = ground arith
remove_loop_absent t (x ∷ y ∷ l) n = ground (arith, remove_loop_absent t (y ∷ l))

-- What the loop does to a list without repetitions.
remove_first : Bytes → List Bytes → List Bytes
remove_first t [] = []
remove_first t (x ∷ l) = if eq_text x t then l else x ∷ remove_first t l

remove_loop-remove_first :
    (t : Bytes) (l : List Bytes) → IsDistinct l → remove_loop t l ≡ remove_first t l
unfolding has_target remove_loop remove_first
remove_loop-remove_first t [] d = refl
remove_loop-remove_first t (x ∷ []) d = ground arith
remove_loop-remove_first t (x ∷ y ∷ l) d = elim (Bool-cases (eq_text x t)) [
  | inl e ↦
      ground (arith, remove_loop_absent t l, ap (λ u. has_target u (y ∷ l)) (eq_text→eq x t e), d.0)
  | inr e ↦ ground (arith, remove_loop-remove_first t (y ∷ l) d.1)
]

Above-remove_first : (t x : Bytes) (l : List Bytes) → Above x l → Above x (remove_first t l)
unfolding remove_first
Above-remove_first t x [] a = tt
Above-remove_first t x (y ∷ l) a = elim (Bool-cases (eq_text y t)) [
  | inl e ↦ rw e a.1
  | inr e ↦ rw e (a.0, Above-remove_first t x l a.1)
]

remove_first-IsAscending :
    (t : Bytes) (l : List Bytes) → IsAscending l → IsAscending (remove_first t l)
unfolding remove_first
remove_first-IsAscending t [] a = tt
remove_first-IsAscending t (x ∷ l) a = elim (Bool-cases (eq_text x t)) [
  | inl e ↦ rw e a.1
  | inr e ↦ rw e (Above-remove_first t x l a.0, remove_first-IsAscending t l a.1)
]

has_target-remove_first :
    (t y : Bytes) (l : List Bytes)
    → IsDistinct l
    → has_target y (remove_first t l) ≡ (not (eq_text t y) && has_target y l)
unfolding has_target remove_first
has_target-remove_first t y [] d = ground arith
has_target-remove_first t y (x ∷ l) d =
    let ih = has_target-remove_first t y l d.1 in
    elim (Bool-cases (eq_text x t)) [
      | inl e ↦
          let t_is_x = ap (λ u. eq_text u y) (eq_text→eq x t e) in
          elim (Bool-cases (eq_text x y)) [
            | inl f ↦ ground (arith, t_is_x, ap (λ u. has_target u l) (eq_text→eq x y f), d.0)
            | inr f ↦ ground (arith, t_is_x)
          ]
      | inr e ↦ elim (Bool-cases (eq_text x y)) [
        | inl f ↦ ground (arith, ih, eq_text_comm t x, ap (eq_text t) (eq_text→eq x y f))
        | inr f ↦ ground (arith, ih)
      ]
    ]

-- Adding a target keeps the invariant, and the router then has that target and those it had.
pub add_target-IsRouter :
    (t : Bytes) (s : Router)
    → IsRouter s
    → IsRouter (add_target t s)
      × ((y : Bytes)
          → has_target y (add_target t s).targets_list
            ≡ (eq_text t y || has_target y s.targets_list))
unfolding add_target
add_target-IsRouter t s v = elim (Bool-cases (has_target t s.targets_list)) [
  | inl e ↦ rw (e, add_target) (v, λ y. known y e)
  | inr e ↦
      rw (e, add_target)
        (
          record {
            ascending =
                sort-IsAscending _
                  (append-IsDistinct s.targets_list t (IsAscending→IsDistinct _ v.ascending) e);
            in_range =
                grown _
                  (omega (
                    arith,
                    length-sort (s.targets_list ++ t ∷ []),
                    length-append s.targets_list (t ∷ []),
                  ))
                  v.in_range;
          },
          λ y. has_target-sort y (s.targets_list ++ t ∷ []) ∙ has_target-append y t s.targets_list,
        )
]
  where
    known :
        (y : Bytes)
        → has_target t s.targets_list ≡ true
        → has_target y s.targets_list ≡ (eq_text t y || has_target y s.targets_list)
    known y e = elim (Bool-cases (eq_text t y)) [
      | inl f ↦ ground (arith, ap (λ u. has_target u s.targets_list) (eq_text→eq t y f))
      | inr f ↦ ground arith
    ]

    grown :
        (n : ℕ)
        → n ≡ length s.targets_list + 1
        → (s.last_index ≡ 0) ⊎ (s.last_index < length s.targets_list)
        → (s.last_index ≡ 0) ⊎ (s.last_index < n)
    grown n e (inl z) = inl z
    grown n e (inr l) = inr (omega arith)

-- Removing a target keeps the invariant, and takes that target alone out of the list, although the
-- loop passes over the entry behind an erased one.
pub remove_target-IsRouter :
    (t : Bytes) (s : Router)
    → IsRouter s
    → IsRouter (remove_target t s)
      × ((y : Bytes)
          → has_target y (remove_target t s).targets_list
            ≡ (not (eq_text t y) && has_target y s.targets_list))
unfolding remove_target
remove_target-IsRouter t s v =
    let d = IsAscending→IsDistinct s.targets_list v.ascending in
    let e = remove_loop-remove_first t s.targets_list d in
    (
      record {
        ascending = rw e (remove_first-IsAscending t s.targets_list v.ascending);
        in_range = inl refl;
      },
      λ y. rw e (has_target-remove_first t y s.targets_list d),
    )

-- Below the length an index finds an entry, from the length on none.
pub get_elem?_lt :
    {A : Type 0} (l : List A) (i : ℕ) → i < length l → (a : A) × (get_elem? l i ≡ some a)
get_elem?_lt [] i h = elim h [ ]
get_elem?_lt (x ∷ l) zero h = (x, refl)
get_elem?_lt (x ∷ l) (suc i) h = get_elem?_lt l i (omega arith)

pub get_elem?→lt : {A : Type 0} (l : List A) (i : ℕ) {a : A} → get_elem? l i ≡ some a → i < length l
get_elem?→lt [] i e = cc
get_elem?→lt (x ∷ l) zero e = omega arith
get_elem?→lt (x ∷ l) (suc i) e = omega (arith, get_elem?→lt l i e)

route_by_round_robin-IsRouter : (s : Router) → IsRouter s → IsRouter (route_by_round_robin s).0
unfolding route_by_round_robin
route_by_round_robin-IsRouter s v = elim (Option-cases (get_elem? s.targets_list s.last_index)) [
  | inl e ↦ rw (e, route_by_round_robin) v
  | inr (t, e) ↦
      rw (e, route_by_round_robin)
        (record {
          ascending = v.ascending;
          in_range = inr (omega (arith, get_elem?→lt s.targets_list s.last_index e));
        })
]

abbrev Kept : Router → Router × List Bytes → Type 0
Kept s r = IsRouter r.0 × (r.0.targets_list ≡ s.targets_list)

find_by-Kept :
    (m : RoutingMethod) (msg_type : ℕ) (id : Bytes) (s : Router) (r : Router × List Bytes)
    → IsRouter s
    → find_by m msg_type id s ≡ ok r
    → Kept s r
unfolding find_by route_by_round_robin
find_by-Kept RoutingMethod.broad_cast msg_type id s r v e = subst_ok (Kept s) e (v, refl)
find_by-Kept RoutingMethod.load_balance msg_type id s r v e =
    let (ts, _, er) = >>=-eq-ok (route_by_load_balance id s) (λ ts. ok (s, ts)) e in
    subst_ok (Kept s) er (v, refl)
find_by-Kept RoutingMethod.round_robin msg_type id s r v e =
    subst_ok (Kept s) e (route_by_round_robin-IsRouter s v, ground arith)
find_by-Kept RoutingMethod.route_by_prefix msg_type id s r v e = subst_ok (Kept s) e (v, refl)
find_by-Kept RoutingMethod.route_by_client_id msg_type id s r v e = subst_ok (Kept s) e (v, refl)

-- Whatever the method, a search that returns keeps the invariant and the list of targets.
pub find-IsRouter :
    (msg_type : ℕ) (id : Bytes) (s : Router) (r : Router × List Bytes)
    → IsRouter s
    → find msg_type id s ≡ ok r
    → IsRouter r.0 × (r.0.targets_list ≡ s.targets_list)
unfolding find
find-IsRouter msg_type id s r v e = find_by-Kept _ msg_type id s r v e
