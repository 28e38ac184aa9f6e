-- ===== src/Routing/BitSet/Writing.antt =====
-- `set`, `get` and `shift_right` against the set of indices.
use Prim.Native.Nat.{bit_and, bit_or}
use smppgw.Base.{
  ℕ, zero, suc, ◌-◌, ◌/◌, ◌%◌, ◌^◌, ◌<◌, ◌≤◌, ◌≡◌, refl, ap, ◌∙◌, Bool, true, false, List, length,
  get_or, set, All, ◌==◌, if◌then◌else◌, arith, length-set, ==_iff, lt→ltb, Bool-cases, inl, inr,
  get_or-set_same, get_or-set_other, All-set, ap₂,
}
use smppgw.Base.Results.{ok}
use smppgw.Routing.Digits.{
  digit, shifted, digit-bit_and, digit-bit_or, digit-power, tested-bit_and, bit_or_lt, bit_and_lt,
  digit_complement, power_lt, digit-shifted_zero, digit-shifted-suc,
}
use smppgw.Routing.BitSet.{
  BitSet, word, IsBitSet, bit_at, set_bit, get, ind_set, ind_unset, carried, shift_words,
  shift_right,
}
use smppgw.Routing.BitSet.Laws.{get_or_lt}

-- The word that `set` stores.
written : ℕ → ℕ → Bool → ℕ
written w i value = if value then bit_or w (ind_set i) else bit_and w (ind_unset i)

digit-written :
    (k w i : ℕ) (value : Bool)
    → k < 64
    → i < 64
    → digit k (written w i value) ≡ (if k == i then value else digit k w)
unfolding written
digit-written k w i true hk hi = ground (arith, digit-bit_or k w (2 ^ i), digit-power k i)
digit-written k w i false hk hi =
    let off = digit_complement k 64 (2 ^ i) hk (power_lt i 64 hi) in
    ground (arith, off, digit-bit_and k w (ind_unset i), digit-power k i)

written_lt : (w i : ℕ) (value : Bool) → w < 2 ^ 64 → i < 64 → written w i value < 2 ^ 64
unfolding written
written_lt w i true hw hi = bit_or_lt 64 w (2 ^ i) hw (power_lt i 64 hi)
written_lt w i false hw hi = bit_and_lt 64 w _ hw

module _ {n : ℕ} {s : BitSet} (hs : IsBitSet n s) where
  pub bit_at-set_bit :
      (ind : ℕ) (value : Bool)
      → ind < n
      → (c : BitSet) × (set_bit s ind value ≡ ok c)
        × IsBitSet n c
        × ((k : ℕ) → bit_at c k ≡ (if k == ind then value else bit_at s k))
  unfolding set_bit bit_at written
  bit_at-set_bit ind value h =
      let quot = ind / 64 in
      let w = written (word s quot) (ind % 64) value in
      (
        record s { storage = set s.storage quot w },
        ground (arith, hs.sized),
        record {
          sized = hs.sized;
          measured = length-set s.storage quot w ∙ hs.measured;
          words =
              All-set _ s.storage quot w hs.words
                (written_lt _ (ind % 64) value (get_or_lt s.storage quot hs.words) (omega arith));
        },
        λ k. elim (Bool-cases (k / 64 == quot)) [
          | inl same ↦
              let e = (==_iff (k / 64) quot).0 same in
              let stored =
                digit-written (k % 64) (word s quot) (ind % 64) value (omega arith) (omega arith) in
              rw (e, get_or-set_same s.storage quot w 0 (omega (arith, hs.measured)), stored)
                (ground (arith, e))
          | inr other ↦
              rw (get_or-set_other s.storage quot (k / 64) w 0 (λ e. ground (arith, e)))
                (ground arith)
        ],
      )

  pub get-bit_at : (ind : ℕ) → ind < n → get s ind ≡ ok (bit_at s ind)
  unfolding get bit_at
  get-bit_at ind h =
      rw (hs.sized, lt→ltb ind n h, tested-bit_and (word s (ind / 64)) (ind % 64)) refl

digit-carried_zero : (w' w : ℕ) → digit 0 (carried w' w) ≡ digit 63 w'
unfolding carried
digit-carried_zero w' w = ground (
  arith,
  tested-bit_and w' 63,
  digit-bit_or 0 (shifted w) 1,
  digit-power 0 0,
  digit-shifted_zero w,
)

digit-carried-suc :
    (k w' w : ℕ) → suc k < 64 → w < 2 ^ 64 → digit (suc k) (carried w' w) ≡ digit k w
unfolding carried
digit-carried-suc k w' w hk hw =
    ground (
      arith,
      digit-bit_or (suc k) (shifted w) 1,
      digit-power (suc k) 0,
      digit-shifted-suc k w hk hw,
    )

shifted_lt : (w : ℕ) → shifted w < 2 ^ 64
unfolding shifted
shifted_lt w = omega arith

carried_lt : (w' w : ℕ) → carried w' w < 2 ^ 64
unfolding carried
carried_lt w' w =
    ground (arith, shifted_lt w, bit_or_lt 64 (shifted w) 1 (shifted_lt w) (omega arith))

-- The loop reads each word before it is shifted.
shifted_word : List ℕ → ℕ → ℕ
shifted_word ws zero = shifted (get_or ws 0 0)
shifted_word ws (suc i) = carried (get_or ws i 0) (get_or ws (suc i) 0)

shift_words_above : (i j : ℕ) (ws : List ℕ) → i < j → get_or (shift_words i ws) j 0 ≡ get_or ws j 0
unfolding shift_words
shift_words_above zero j ws h = get_or-set_other ws 0 j _ 0 (λ e. omega (arith, e))
shift_words_above (suc i) j ws h =
    shift_words_above i j _ (omega arith)
    ∙ get_or-set_other ws (suc i) j _ 0 (λ e. omega (arith, e))

shifted_word-set :
    (ws : List ℕ) (i j v : ℕ) → j < i → shifted_word (set ws i v) j ≡ shifted_word ws j
unfolding shifted_word
shifted_word-set ws i zero v h = ap shifted (get_or-set_other ws i 0 v 0 (λ e. omega (arith, e)))
shifted_word-set ws i (suc j) v h =
    ap₂ carried (get_or-set_other ws i j v 0 (λ e. omega (arith, e)))
      (get_or-set_other ws i (suc j) v 0 (λ e. omega (arith, e)))

shift_words_below :
    (i j : ℕ) (ws : List ℕ)
    → i < length ws
    → j ≤ i
    → get_or (shift_words i ws) j 0 ≡ shifted_word ws j
unfolding shift_words shifted_word
shift_words_below zero zero ws h le = get_or-set_same ws 0 _ 0 h
shift_words_below zero (suc j) ws h le = absurd (omega arith)
shift_words_below (suc i) j ws h le =
    let v = carried (get_or ws i 0) (get_or ws (suc i) 0) in
    elim (Bool-cases (j == suc i)) [
      | inl last ↦
          let stays = shift_words_above i (suc i) (set ws (suc i) v) (omega arith) in
          rw ((==_iff j (suc i)).0 last) (stays ∙ get_or-set_same ws (suc i) v 0 h)
      | inr lower ↦
          let le : j ≤ i = ground (arith, lower) in
          shift_words_below i j (set ws (suc i) v) (omega (arith, length-set ws (suc i) v)) le
          ∙ shifted_word-set ws (suc i) j v (omega arith)
    ]

length-shift_words : (i : ℕ) (ws : List ℕ) → length (shift_words i ws) ≡ length ws
unfolding shift_words
length-shift_words zero ws = length-set ws 0 _
length-shift_words (suc i) ws = length-shift_words i _ ∙ length-set ws (suc i) _

All-shift_words :
    (i : ℕ) (ws : List ℕ) → All (λ w. w < 2 ^ 64) ws → All (λ w. w < 2 ^ 64) (shift_words i ws)
unfolding shift_words
All-shift_words zero ws h = All-set _ ws 0 _ h (shifted_lt _)
All-shift_words (suc i) ws h = All-shift_words i _ (All-set _ ws (suc i) _ h (carried_lt _ _))

digit-shifted_word :
    (ws : List ℕ) (q r : ℕ)
    → suc r < 64
    → All (λ w. w < 2 ^ 64) ws
    → digit (suc r) (shifted_word ws q) ≡ digit r (get_or ws q 0)
unfolding shifted_word
digit-shifted_word ws zero r hr h = digit-shifted-suc r _ hr (get_or_lt ws 0 h)
digit-shifted_word ws (suc q) r hr h = digit-carried-suc r _ _ hr (get_or_lt ws (suc q) h)

-- The bit behind the bit `k`, which may be the first of the next word.
digit-shifted_next :
    (ws : List ℕ) (k : ℕ)
    → All (λ w. w < 2 ^ 64) ws
    → digit (suc k % 64) (shifted_word ws (suc k / 64)) ≡ digit (k % 64) (get_or ws (k / 64) 0)
unfolding shifted_word
digit-shifted_next ws k h = elim (Bool-cases (suc k % 64 == 0)) [
  | inl first ↦
      let e : suc k % 64 ≡ 0 = (==_iff _ 0).0 first in
      let q : suc k / 64 ≡ suc (k / 64) = omega (arith, e) in
      let r : k % 64 ≡ 63 = omega (arith, e) in rw (e, q, r) (digit-carried_zero _ _)
  | inr inner ↦
      let q : suc k / 64 ≡ k / 64 = ground (arith, inner) in
      let r : suc k % 64 ≡ suc (k % 64) = ground (arith, inner) in
      rw (q, r) (digit-shifted_word ws (k / 64) (k % 64) (omega (arith, r)) h)
]

-- What stands one index lower, and nothing below the first.
abbrev pub before : ℕ → (ℕ → Bool) → Bool
before zero p = false
before (suc k) p = p k

module _ {n : ℕ} {s : BitSet} (hs : IsBitSet n s) where
  pub shift_right-IsBitSet : IsBitSet n (shift_right s)
  unfolding shift_right
  shift_right-IsBitSet = record {
    sized = hs.sized;
    measured = length-shift_words _ s.storage ∙ hs.measured;
    words = All-shift_words _ s.storage hs.words;
  }

  -- Shifting a set for `n` indices moves each bit below `n - 1` to the next index, across the
  -- words too, and clears the first.
  pub bit_at-shift_right : (k : ℕ) → k < n → bit_at (shift_right s) k ≡ before k (bit_at s)
  unfolding shift_right bit_at shifted_word
  bit_at-shift_right zero h =
      rw
        (shift_words_below (length s.storage - 1) 0 s.storage (omega (arith, hs.measured))
          (omega arith))
        (digit-shifted_zero _)
  bit_at-shift_right (suc k) h =
      rw
        (shift_words_below (length s.storage - 1) (suc k / 64) s.storage
          (omega (arith, hs.measured)) (omega (arith, hs.measured)))
        (digit-shifted_next s.storage k hs.words)
