-- ===== src/Pinex/RouteMapper/Matching.antt =====
-- `find_matching` walks the trie; what it finds is the longest prefix that has a route.
use mathlib.Core.Path.{fun_ext}
use mathlib.Core.List.{reverse-append}
use smppgw.Base.{
  take-length, ℕ, zero, suc, ◌+◌, ◌≡◌, ◌≤◌, ◌<◌, refl, ap, ◌∙◌, inl, inr, Bool, true, false, [],
  ◌∷◌, ◌++◌, Option, none, some, Option-cases, Bool-cases, reverse, length, get_or, take, drop, ltb,
  if◌then◌else◌, arith,
}
use smppgw.Smpp.Byte.{Bytes}
use smppgw.Pinex.RouteMapper.{
  CharNode, node, child, find_matching, find_from_root, find_destination, destination_within,
}
use smppgw.Pinex.RouteMapper.Lookup.{value_at}

-- The deepest node with a value on the path of a text.
unfoldable pub walk : Bytes → CharNode → Option CharNode → Option CharNode
walk [] (node d m h dep n cs) last = if h then some (node d m h dep n cs) else last
walk (c ∷ w) (node d m h dep n cs) last =
    let valid = if h then some (node d m h dep n cs) else last in
    elim (child c cs) [ none ↦ valid | some next ↦ walk w next valid ]

drop_cons :
    (prefix : Bytes) (i : ℕ)
    → i < length prefix
    → drop i prefix ≡ get_or prefix i 0 ∷ drop (suc i) prefix
drop_cons [] i h = elim h [ ]
drop_cons (b ∷ prefix) zero h = refl
drop_cons (b ∷ prefix) (suc i) h = drop_cons prefix i (omega arith)

drop_all : (prefix : Bytes) (i : ℕ) → length prefix ≤ i → drop i prefix ≡ []
drop_all [] zero h = refl
drop_all [] (suc i) h = refl
drop_all (b ∷ prefix) zero h = absurd (omega arith)
drop_all (b ∷ prefix) (suc i) h = drop_all prefix i (omega arith)

step_walk :
    (prefix : Bytes) (first : ℕ) (t : CharNode) (last : Option CharNode)
    → first < length prefix
    → walk (drop first prefix) t last
      ≡ walk (get_or prefix first 0 ∷ drop (first + 1) prefix) t last
step_walk prefix first t last h =
    rw (drop_cons prefix first h) (let e : first + 1 ≡ suc first = omega arith in rw e)

forward :
    (fuel : ℕ) (prefix : Bytes) (first : ℕ) (t : CharNode) (last : Option CharNode)
    → first ≤ length prefix
    → length prefix < first + fuel
    → find_matching fuel prefix first (length prefix) t last false ≡ walk (drop first prefix) t last
unfolding find_matching walk
forward zero prefix first (node d m h dep n cs) last l b = absurd (omega arith)
forward (suc fuel) prefix first (node d m h dep n cs) last l b =
    let valid : Option CharNode = if h then some (node d m h dep n cs) else last in
    elim (Bool-cases (ltb first (length prefix))) [
      | inl e ↦ elim (Option-cases (child (get_or prefix first 0) cs)) [
        | inl a ↦ ground (arith, step_walk prefix first (node d m h dep n cs) last)
        | inr (next, a) ↦ ground (
          arith,
          step_walk prefix first (node d m h dep n cs) last,
          forward fuel prefix (first + 1) next valid,
        )
      ]
      | inr e ↦ rw (drop_all prefix first (ground arith), e)
    ]

-- The bytes at k, k - 1, ..., 1.
abbrev backwards : Bytes → ℕ → Bytes
backwards prefix zero = []
backwards prefix (suc k) = get_or prefix (suc k) 0 ∷ backwards prefix k

backward :
    (fuel : ℕ) (prefix : Bytes) (k : ℕ) (t : CharNode) (last : Option CharNode)
    → k < fuel
    → find_matching fuel prefix 0 (suc k) t last true ≡ walk (backwards prefix k) t last
unfolding find_matching walk
backward zero prefix k t last b = elim b [ ]
backward (suc fuel) prefix zero (node d m h dep n cs) last b = refl
backward (suc fuel) prefix (suc k) (node d m h dep n cs) last b =
    let valid : Option CharNode = if h then some (node d m h dep n cs) else last in
    elim (Option-cases (child (get_or prefix (suc k) 0) cs)) [
      | inl a ↦ ground arith
      | inr (next, a) ↦ ground (arith, backward fuel prefix k next valid)
    ]

-- In the order of the text, the bytes at 1, ..., k.
take_snoc : (xs : Bytes) (k : ℕ) → k < length xs → take (suc k) xs ≡ take k xs ++ get_or xs k 0 ∷ []
take_snoc [] k h = elim h [ ]
take_snoc (x ∷ xs) zero h = refl
take_snoc (x ∷ xs) (suc k) h = rw (take_snoc xs k (omega arith))

backwards-take :
    (b : ℕ) (xs : Bytes) (k : ℕ) → k ≤ length xs → backwards (b ∷ xs) k ≡ reverse (take k xs)
backwards-take b xs zero h = refl
backwards-take b xs (suc k) h = rw (
  take_snoc xs k (omega arith),
  reverse-append (take k xs) (get_or xs k 0 ∷ []),
  backwards-take b xs k (omega arith),
)

-- The text that a search compares with the prefixes: in reverse, all but its first byte.
abbrev pub searched : Bytes → Bool → Bytes
searched prefix false = prefix
searched prefix true = reverse (drop 1 prefix)

pub find_from_root-walk :
    (prefix : Bytes) (t : CharNode) (r : Bool)
    → find_from_root prefix t r ≡ walk (searched prefix r) t none
unfolding find_from_root
find_from_root-walk prefix t false =
    forward (suc (length prefix)) prefix 0 t none (omega arith) (omega arith)
find_from_root-walk [] (node d m h dep n cs) true = unfold find_matching walk in refl
find_from_root-walk (b ∷ xs) t true =
    backward (suc (suc (length xs))) (b ∷ xs) (length xs) t none (omega arith)
    ∙ rw (backwards-take b xs (length xs) (omega arith), take-length xs)

-- The value at the longest prefix of a text that has one.
unfoldable pub longest : {V : Type 0} → (Bytes → Option V) → Bytes → Option V
longest f [] = f []
longest f (c ∷ q) = elim (longest (λ p. f (c ∷ p)) q) [ none ↦ f [] | some v ↦ some v ]

longest-none :
    {V : Type 0} (f : Bytes → Option V) (q : Bytes)
    → ((p : Bytes) → f p ≡ none)
    → longest f q ≡ none
unfolding longest
longest-none f [] h = h []
longest-none f (c ∷ q) h = rw (longest-none (λ p. f (c ∷ p)) q (λ p. h (c ∷ p)), h [])

pub longest-ext :
    {V : Type 0} (f g : Bytes → Option V) (q : Bytes)
    → ((p : Bytes) → f p ≡ g p)
    → longest f q ≡ longest g q
longest-ext f g q h = ap (λ k. longest k q) (fun_ext h)

abbrev entry : CharNode → Bytes × ℕ
entry (node d m h dep n cs) = (d, m)

abbrev entry? : Option CharNode → Option (Bytes × ℕ)
entry? none = none
entry? (some t) = some (entry t)

abbrev or_else : Option (Bytes × ℕ) → Option (Bytes × ℕ) → Option (Bytes × ℕ)
or_else none y = y
or_else (some v) y = some v

entry?-walk :
    (q : Bytes) (t : CharNode) (last : Option CharNode)
    → entry? (walk q t last) ≡ or_else (longest (λ p. value_at p t) q) (entry? last)
unfolding walk value_at longest
entry?-walk [] (node d m h dep n cs) last = ground arith
entry?-walk (c ∷ q) (node d m h dep n cs) last =
    let valid : Option CharNode = if h then some (node d m h dep n cs) else last in
    let f = λ (p : Bytes). value_at (c ∷ p) (node d m h dep n cs) in
    elim (Option-cases (child c cs)) [
      | inl a ↦ ground (arith, longest-none f q (λ p. ground arith))
      | inr (next, a) ↦ ground (
        arith,
        longest-ext f (λ p. value_at p next) q (λ p. ground arith),
        entry?-walk q next valid,
      )
    ]

-- What `find_destination` makes of the value that it finds for a text of this length.
abbrev pub destination_for : ℕ → Option (Bytes × ℕ) → Bytes
destination_for len none = []
destination_for len (some v) = if ltb v.1 len then [] else v.0

destination_for-entry? :
    (len : ℕ) (o : Option CharNode)
    → (elim o [ none ↦ [] | some n ↦ destination_within len n ]) ≡ destination_for len (entry? o)
destination_for-entry? len none = refl
destination_for-entry? len (some (node d m h dep n cs)) = refl

or_else-none : (x : Option (Bytes × ℕ)) → or_else x none ≡ x
or_else-none none = refl
or_else-none (some v) = refl

-- `find_destination` returns the destination stored for the longest prefix of the text that has a
-- route, and the empty string if there is none or the whole text is longer than that route allows.
-- In reverse mode the text is read from its end, and its first byte is left out.
pub find_destination-longest :
    (q : Bytes) (t : CharNode) (r : Bool)
    → find_destination q t r
      ≡ destination_for (length q) (longest (λ p. value_at p t) (searched q r))
unfolding find_destination
find_destination-longest q t r =
    destination_for-entry? (length q) (find_from_root q t r)
    ∙ ap (λ o. destination_for (length q) (entry? o)) (find_from_root-walk q t r)
    ∙ ap (destination_for (length q)) (entry?-walk (searched q r) t none ∙ or_else-none _)

-- In reverse mode the first byte of the text has no influence, whatever the routes are.
pub find_destination_reverse_first :
    (b b' : ℕ) (q : Bytes) (t : CharNode)
    → find_destination (b ∷ q) t true ≡ find_destination (b' ∷ q) t true
find_destination_reverse_first b b' q t =
    rw (find_destination-longest (b ∷ q) t true, find_destination-longest (b' ∷ q) t true)
