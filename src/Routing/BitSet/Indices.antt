-- ===== src/Routing/BitSet/Indices.antt =====
-- `get_set_bits_indices`, which takes the set bits of each word from the lowest on.
use Prim.Native.Nat.{bit_xor}
use smppgw.Base.{
  ℕ, zero, suc, ◌+◌, ◌-◌, ◌*◌, ◌/◌, ◌%◌, ◌^◌, ◌<◌, ◌≤◌, ◌≡◌, refl, ap, sym, ◌∙◌, Bool, true, false,
  List, [], ◌∷◌, ◌++◌, length, get_or, All, ltb, ◌==◌, if◌then◌else◌, arith, ==_iff, Bool-cases,
  inl, inr, subst, ap₂, map, ◌≢◌,
}
use smppgw.Routing.Digits.{digit, digit-zero, digit-bit_xor, digit-power, digit-high, lt_power}
use smppgw.Routing.BitSet.{
  BitSet, IsBitSet, bit_at, trailing_zeros, word_indices, storage_indices, get_set_bits_indices,
  word_count,
}

-- The indices from `i` to `i + count - 1` with the property, ascending.
unfoldable pub chosen : (ℕ → Bool) → ℕ → ℕ → List ℕ
chosen p i zero = []
chosen p i (suc count) = let rest = chosen p (suc i) count in if p i then i ∷ rest else rest

pub chosen_same :
    (p q : ℕ → Bool) (i count : ℕ)
    → ((k : ℕ) → i ≤ k → k < i + count → p k ≡ q k)
    → chosen p i count ≡ chosen q i count
unfolding chosen
chosen_same p q i zero same = refl
chosen_same p q i (suc count) same =
    rw
      (
        same i (omega arith) (omega arith),
        chosen_same p q (suc i) count (λ k lo hi. same k (omega arith) (omega arith)),
      )
      refl

pub chosen-skip :
    (p : ℕ → Bool) (i d count : ℕ)
    → ((k : ℕ) → i ≤ k → k < i + d → p k ≡ false)
    → chosen p i (d + count) ≡ chosen p (i + d) count
unfolding chosen
chosen-skip p i zero count none =
    let here : i + 0 ≡ i = omega arith in
    let all : 0 + count ≡ count = omega arith in rw (here, all) refl
chosen-skip p i (suc d) count none =
    let next : i + suc d ≡ suc i + d = omega arith in
    let more : suc d + count ≡ suc (d + count) = omega arith in
    rw (next, more, none i (omega arith) (omega arith))
      (chosen-skip p (suc i) d count (λ k lo hi. none k (omega arith) (omega arith)))

pub chosen-append :
    (p : ℕ → Bool) (i m n : ℕ) → chosen p i (m + n) ≡ chosen p i m ++ chosen p (i + m) n
unfolding chosen
chosen-append p i zero n =
    let here : i + 0 ≡ i = omega arith in let all : 0 + n ≡ n = omega arith in rw (here, all) refl
chosen-append p i (suc m) n =
    let next : i + suc m ≡ suc i + m = omega arith in
    let more : suc m + n ≡ suc (m + n) = omega arith in
    rw (next, more, chosen-append p (suc i) m n) (ground arith)

chosen-shift :
    (p : ℕ → Bool) (c i n : ℕ) → map (λ k. c + k) (chosen (λ k. p (c + k)) i n) ≡ chosen p (c + i) n
unfolding chosen
chosen-shift p c i zero = refl
chosen-shift p c i (suc n) =
    let next : c + suc i ≡ suc (c + i) = omega arith in
    let rest =
      subst (λ j. map (λ k. c + k) (chosen (λ k. p (c + k)) (suc i) n) ≡ chosen p j n) next
        (chosen-shift p c (suc i) n) in
    ground (arith, rest)

unset_below :
    (n w : ℕ)
    → (w % 2 == 1) ≡ false
    → ((k : ℕ) → k < n → digit k (w / 2) ≡ false)
    → (k : ℕ) → k < suc n
    → digit k w ≡ false
unfolding digit
unset_below n w even unset zero lt = even
unset_below n w even unset (suc k) lt = unset k (omega arith)

trailing_zeros_lem :
    (bits w : ℕ)
    → w < 2 ^ bits
    → w ≢ 0
    → (digit (trailing_zeros bits w) w ≡ true)
      × ((k : ℕ) → k < trailing_zeros bits w → digit k w ≡ false)
unfolding trailing_zeros digit
trailing_zeros_lem zero w small h = absurd (h (omega arith))
trailing_zeros_lem (suc bits) w small h = elim (Bool-cases (w % 2 == 1)) [
  | inl odd ↦ rw odd (odd, λ k lt. absurd (omega arith))
  | inr even ↦
      let half : w / 2 ≢ 0 = λ e. h (ground (arith, even, e)) in
      let rest = trailing_zeros_lem bits (w / 2) (omega arith) half in
      rw even (rest.0, unset_below (trailing_zeros bits (w / 2)) w even rest.1)
]

pub chosen_none :
    (p : ℕ → Bool) (i n : ℕ) → ((k : ℕ) → i ≤ k → k < i + n → p k ≡ false) → chosen p i n ≡ []
unfolding chosen
chosen_none p i zero none = refl
chosen_none p i (suc n) none =
    rw (none i (omega arith) (omega arith))
      (chosen_none p (suc i) n (λ k lo hi. none k (omega arith) (omega arith)))

chosen_first :
    (p : ℕ → Bool) (i n pos : ℕ)
    → i ≤ pos
    → pos < i + n
    → p pos ≡ true
    → ((k : ℕ) → k < pos → p k ≡ false)
    → chosen p i n ≡ pos ∷ chosen p (suc pos) (i + n - suc pos)
unfolding chosen
chosen_first p i n pos le lt set low =
    let d = pos - i in
    let left = i + n - suc pos in
    let split : n ≡ d + suc left = omega arith in
    let there : i + d ≡ pos = omega arith in
    let skip = chosen-skip p i d (suc left) (λ k lo hi. low k (omega arith)) in
    ap (chosen p i) split ∙ skip ∙ rw (there, set) refl

-- The digits of a word once its lowest one is cleared.
module _ (tmp pos : ℕ) (set : digit pos tmp ≡ true) where
  cleared_same : (k : ℕ) → pos < k → digit k tmp ≡ digit k (bit_xor tmp (2 ^ pos))
  cleared_same k lt = ground (arith, digit-bit_xor k tmp (2 ^ pos), digit-power k pos)

  cleared_low :
      ((k : ℕ) → k < pos → digit k tmp ≡ false)
      → (k : ℕ) → k < suc pos
      → digit k (bit_xor tmp (2 ^ pos)) ≡ false
  cleared_low low k lt = elim (Bool-cases (k == pos)) [
    | inl same ↦
        let at = subst (λ j. digit j tmp ≡ true) (sym ((==_iff k pos).0 same)) set in
        ground (arith, digit-bit_xor k tmp (2 ^ pos), digit-power k pos, at)
    | inr other ↦
        let at : digit k tmp ≡ false = low k (ground (arith, other)) in
        ground (arith, digit-bit_xor k tmp (2 ^ pos), digit-power k pos, at)
  ]

  cleared_lt : pos < 64 → tmp < 2 ^ 64 → bit_xor tmp (2 ^ pos) < 2 ^ 64
  cleared_lt lt small = lt_power 64 _ (λ k le.
      ground
        (arith, digit-bit_xor k tmp (2 ^ pos), digit-power k pos, digit-high k 64 tmp le small))

module _ (i : ℕ) where
  word_indices_from :
      (fuel p m tmp : ℕ)
      → p + m ≡ 64
      → m ≤ fuel
      → tmp < 2 ^ 64
      → ((k : ℕ) → k < p → digit k tmp ≡ false)
      → word_indices fuel i tmp ≡ map (λ k. i * 64 + k) (chosen (λ k. digit k tmp) p m)
  unfolding word_indices chosen
  word_indices_from zero p zero tmp e enough small low = refl
  word_indices_from zero p (suc m) tmp e enough small low = absurd (omega arith)
  word_indices_from (suc fuel) p m tmp e enough small low = elim (Bool-cases (tmp == 0)) [
    | inl nothing ↦
        rw
          (
            nothing,
            chosen_none (λ k. digit k tmp) p m
                (λ k lo hi. ap (digit k) ((==_iff tmp 0).0 nothing) ∙ digit-zero k),
          )
          refl
    | inr something ↦
        let pos = trailing_zeros 64 tmp in
        let lowest = trailing_zeros_lem 64 tmp small (λ z. ground (arith, z, something)) in
        let q : ℕ → Bool = λ k. digit k tmp in
        let lt : pos < 64 =
          ground (arith, Bool-cases (ltb pos 64), lowest.0, digit-high pos 64 tmp) in
        let le : p ≤ pos = ground (arith, low pos, lowest.0) in
        let first = chosen_first q p m pos le (omega (arith, lt)) lowest.0 lowest.1 in
        let rest =
          word_indices_from fuel (suc pos) (p + m - suc pos) (bit_xor tmp (2 ^ pos))
            (omega (arith, lt)) (omega (arith, le)) (cleared_lt tmp pos lowest.0 lt small)
            (cleared_low tmp pos lowest.0 lowest.1) in
        let same =
          chosen_same q (λ k. digit k (bit_xor tmp (2 ^ pos))) (suc pos) (p + m - suc pos)
            (λ k lo hi. cleared_same tmp pos lowest.0 k lo) in
        rw (something, rest, first, same) refl
  ]

  -- The set bits of one word, ascending.
  word_indices-digit :
      (w : ℕ)
      → w < 2 ^ 64
      → word_indices 64 i w ≡ map (λ k. i * 64 + k) (chosen (λ k. digit k w) 0 64)
  word_indices-digit w small =
      word_indices_from 64 0 64 w refl (omega arith) small (λ k lt. absurd (omega arith))

storage_indices-digit :
    (p : ℕ → Bool) (i : ℕ) (ws : List ℕ)
    → All (λ w. w < 2 ^ 64) ws
    → ((k : ℕ) → i * 64 ≤ k → p k ≡ digit (k % 64) (get_or ws (k / 64 - i) 0))
    → storage_indices i ws ≡ chosen p (i * 64) (length ws * 64)
unfolding storage_indices
storage_indices-digit p i [] h same =
    sym (chosen_none p (i * 64) 0 (λ k lo hi. absurd (omega arith)))
storage_indices-digit p i (w ∷ ws) h same =
    let q : ℕ → Bool = λ k. digit k w in
    let c = i * 64 in
    let here : chosen q 0 64 ≡ chosen (λ k. p (c + k)) 0 64 =
      chosen_same q (λ k. p (c + k)) 0 64
        (λ k lo hi.
          let r : (c + k) % 64 ≡ k = omega arith in
          let d : (c + k) / 64 - i ≡ 0 = omega arith in
          rw (same (c + k) (omega arith), r, d) refl) in
    let rest : storage_indices (i + 1) ws ≡ chosen p ((i + 1) * 64) (length ws * 64) =
      storage_indices-digit p (i + 1) ws h.1 (λ k le.
        let d : k / 64 - i ≡ suc (k / 64 - (i + 1)) = omega arith in
        same k (omega arith) ∙ rw d refl) in
    let start : c + 0 ≡ c = omega arith in
    let next : (i + 1) * 64 ≡ c + 64 = omega arith in
    let all : suc (length ws) * 64 ≡ 64 + length ws * 64 = omega arith in
    let first = word_indices-digit i w h.0 ∙ ap (map (λ k. c + k)) here ∙ chosen-shift p c 0 64 in
    ap₂ (λ (a b : List ℕ). a ++ b) first rest
    ∙ ap₂ (λ (a b : ℕ). chosen p a 64 ++ chosen p b (length ws * 64)) start next
    ∙ sym (chosen-append p c 64 (length ws * 64))
    ∙ ap (chosen p c) (sym all)

-- On a set for `n` indices with the words that they need, the loop over the trailing zeros gives
-- the indices of the bits that are set, each once and ascending.
pub get_set_bits_indices-chosen :
    {n : ℕ} {s : BitSet}
    → IsBitSet n s
    → get_set_bits_indices s ≡ chosen (bit_at s) 0 (word_count n * 64)
unfolding get_set_bits_indices bit_at
get_set_bits_indices-chosen {s = s} hs =
    storage_indices-digit (bit_at s) 0 s.storage hs.words
      (λ k le. let first : k / 64 - 0 ≡ k / 64 = omega arith in rw first refl)
    ∙ ap (λ c. chosen (bit_at s) 0 (c * 64)) hs.measured
