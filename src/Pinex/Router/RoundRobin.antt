-- ===== src/Pinex/Router/RoundRobin.antt =====
-- Round robin is fair, and load balancing stays in range.
use smppgw.Base.{
  ℕ, zero, suc, ◌+◌, ◌-◌, ◌%◌, ◌≡◌, ◌<◌, ◌≤◌, ap, ap₂, ◌∙◌, List, [], ◌∷◌, ◌++◌, append_assoc,
  drop-get_elem?, take-length, length, take, drop, length-drop, arith,
}
use smppgw.Smpp.Byte.{Bytes}
use smppgw.Pinex.Router.{Router, route_by_round_robin}
use smppgw.Pinex.Router.Invariant.{get_elem?_lt}

-- The router after some round-robin searches, and the targets that they returned.
abbrev pub searches : ℕ → Router → Router × List Bytes
searches zero s = (s, [])
searches (suc k) s =
    let r = route_by_round_robin s in let rest = searches k r.0 in (rest.0, r.1 ++ rest.1)

abbrev at_index : Router → ℕ → Router
at_index s i = record s { last_index = i }

one_search :
    (s : Router) (i : ℕ)
    → i < length s.targets_list
    → (t : Bytes) × (route_by_round_robin (at_index s i)
        ≡ (at_index s ((i + 1) % length s.targets_list), t ∷ []))
      × (drop i s.targets_list ≡ t ∷ drop (i + 1) s.targets_list)
unfolding route_by_round_robin
one_search s i h =
    let (t, e) = get_elem?_lt s.targets_list i h in
    let next : i + 1 ≡ suc i = omega arith in
    (t, rw (e, route_by_round_robin), rw next (drop-get_elem? s.targets_list i t e))

mod_lt : (i n : ℕ) → i < n → i % n ≡ i
mod_lt i n h = grind arith

-- Searches up to the end of the list return its entries in order.
searches_run :
    (s : Router) (k i : ℕ)
    → 0 < length s.targets_list
    → i + k ≤ length s.targets_list
    → searches k (at_index s (i % length s.targets_list))
      ≡ (at_index s ((i + k) % length s.targets_list), take k (drop i s.targets_list))
searches_run s zero i p h = let e : i + 0 ≡ i = omega arith in rw e
searches_run s (suc k) i p h =
    let (t, step, split) = one_search s i (omega arith) in
    let ih = searches_run s k (i + 1) p (omega arith) in
    let e : i + 1 + k ≡ i + suc k = omega arith in
    rw (mod_lt i (length s.targets_list) (omega arith), step, split) (rw ih (rw e))

searches_add :
    (a b : ℕ) (s : Router)
    → searches (a + b) s
      ≡ ((searches b (searches a s).0).0, (searches a s).1 ++ (searches b (searches a s).0).1)
searches_add zero b s = let e : 0 + b ≡ b = omega arith in rw e
searches_add (suc a) b s =
    let e : suc a + b ≡ suc (a + b) = omega arith in
    rw e (rw (searches_add a b (route_by_round_robin s).0) (rw append_assoc))

to_end :
    (s : Router)
    → s.last_index < length s.targets_list
    → searches (length s.targets_list - s.last_index) s
      ≡ (at_index s (0 % length s.targets_list), drop s.last_index s.targets_list)
to_end s h =
    let n : ℕ = length s.targets_list in
    let i : ℕ = s.last_index in
    let run = searches_run s (n - i) i (omega arith) (omega arith) in
    let whole : n - i ≡ length (drop i s.targets_list) =
      omega (arith, length-drop i s.targets_list) in
    let sum : i + (n - i) ≡ n = omega arith in
    let wrap : n % n ≡ 0 % n = grind arith in
    (rw (mod_lt i n h) at run)
    ∙ ap₂ (λ j l. (at_index s j, l)) (rw (sum, wrap)) (rw whole (take-length _))

from_start :
    (s : Router)
    → s.last_index < length s.targets_list
    → searches s.last_index (at_index s (0 % length s.targets_list))
      ≡ (s, take s.last_index s.targets_list)
from_start s h =
    let n : ℕ = length s.targets_list in
    let i : ℕ = s.last_index in
    let run = searches_run s i 0 (omega arith) (omega arith) in
    let sum : (0 + i) % n ≡ i = (let z : 0 + i ≡ i = omega arith in rw z (mod_lt i n h)) in
    run ∙ ap (λ j. (at_index s j, take i s.targets_list)) sum

-- As many searches as there are targets return each entry of the list once, from the index on and
-- then from the start, and leave the router as it was.
pub searches_round :
    (s : Router)
    → s.last_index < length s.targets_list
    → searches (length s.targets_list) s
      ≡ (s, drop s.last_index s.targets_list ++ take s.last_index s.targets_list)
searches_round s h =
    let n : ℕ = length s.targets_list in
    let i : ℕ = s.last_index in
    let split : n ≡ n - i + i = omega arith in
    ap (λ k. searches k s) split ∙ searches_add (n - i) i s ∙ rw (to_end s h) (rw (from_start s h))
