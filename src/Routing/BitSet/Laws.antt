-- ===== src/Routing/BitSet/Laws.antt =====
-- The operations of the bit set against the set of indices that it stands for.
use Prim.Native.Nat.{bit_and, bit_or}
use smppgw.Base.{
  ℕ, zero, suc, ◌/◌, ◌%◌, ◌^◌, ◌<◌, ◌≡◌, refl, ap, sym, ◌∙◌, false, ◌&&◌, ◌||◌, List, [], ◌∷◌,
  length, get_or, All, arith, length-replicate, get_or-replicate, All-replicate,
}
use smppgw.Base.Results.{ok}
use smppgw.Routing.Digits.{digit-zero, digit-bit_and, digit-bit_or, bit_or_lt, bit_and_lt}
use smppgw.Routing.BitSet.{
  BitSet, make, word_count, each_word, and_assign, or_assign, IsBitSet, bit_at,
}

pub get_or_lt : (ws : List ℕ) (i : ℕ) → All (λ w. w < 2 ^ 64) ws → get_or ws i 0 < 2 ^ 64
get_or_lt [] i h = omega arith
get_or_lt (w ∷ ws) zero h = h.0
get_or_lt (w ∷ ws) (suc i) h = get_or_lt ws i h.1

pub make-IsBitSet : (n : ℕ) → IsBitSet n (make n)
make-IsBitSet n = record {
  sized = refl;
  measured = length-replicate (word_count n) 0;
  words = All-replicate (λ w. w < 2 ^ 64) (word_count n) 0 (omega arith);
}

pub bit_at-make : (n k : ℕ) → bit_at (make n) k ≡ false
unfolding bit_at
bit_at-make n k = rw (get_or-replicate {A = ℕ} (word_count n) (k / 64) 0) (digit-zero (k % 64))

-- What a loop over the words of two sets does to one word, and to the count and bound of the words.
module _ (f : ℕ → ℕ → ℕ) where
  word-each_word :
      (vs ws : List ℕ) (i : ℕ)
      → length vs ≡ length ws
      → f 0 0 ≡ 0
      → get_or (each_word f vs ws) i 0 ≡ f (get_or vs i 0) (get_or ws i 0)
  word-each_word [] [] i e h = sym h
  word-each_word [] (w ∷ ws) i e h = absurd (omega arith)
  word-each_word (v ∷ vs) [] i e h = absurd (omega arith)
  word-each_word (v ∷ vs) (w ∷ ws) zero e h = refl
  word-each_word (v ∷ vs) (w ∷ ws) (suc i) e h = word-each_word vs ws i (omega arith) h

  length-each_word : (vs ws : List ℕ) → length (each_word f vs ws) ≡ length vs
  length-each_word [] ws = refl
  length-each_word (v ∷ vs) [] = refl
  length-each_word (v ∷ vs) (w ∷ ws) = ap suc (length-each_word vs ws)

  All-each_word :
      (vs ws : List ℕ)
      → ((v w : ℕ) → v < 2 ^ 64 → w < 2 ^ 64 → f v w < 2 ^ 64)
      → All (λ w. w < 2 ^ 64) vs
      → All (λ w. w < 2 ^ 64) ws
      → All (λ w. w < 2 ^ 64) (each_word f vs ws)
  All-each_word [] ws small hv hw = tt
  All-each_word (v ∷ vs) [] small hv hw = hv
  All-each_word (v ∷ vs) (w ∷ ws) small hv hw =
      (small v w hv.0 hw.0, All-each_word vs ws small hv.1 hw.1)

module _ {n : ℕ} {a b : BitSet} (ha : IsBitSet n a) (hb : IsBitSet n b) where
  each_word-IsBitSet :
      (f : ℕ → ℕ → ℕ)
      → ((v w : ℕ) → v < 2 ^ 64 → w < 2 ^ 64 → f v w < 2 ^ 64)
      → IsBitSet n (record a { storage = each_word f a.storage b.storage })
  each_word-IsBitSet f small = record {
    sized = ha.sized;
    measured = length-each_word f a.storage b.storage ∙ ha.measured;
    words = All-each_word f a.storage b.storage small ha.words hb.words;
  }

  -- Sets for the same indices are united.
  pub bit_at-or_assign :
      (c : BitSet) × (or_assign a b ≡ ok c)
      × IsBitSet n c
      × ((k : ℕ) → bit_at c k ≡ bit_at a k || bit_at b k)
  unfolding or_assign bit_at
  bit_at-or_assign =
      let same = ha.measured ∙ sym hb.measured in
      (
        record a { storage = each_word bit_or a.storage b.storage },
        ground (arith, same),
        each_word-IsBitSet bit_or (bit_or_lt 64),
        λ k.
            rw (word-each_word bit_or a.storage b.storage (k / 64) same refl)
              (digit-bit_or (k % 64) _ _),
      )

  pub bit_at-and_assign :
      (c : BitSet) × (and_assign a b ≡ ok c)
      × IsBitSet n c
      × ((k : ℕ) → bit_at c k ≡ bit_at a k && bit_at b k)
  unfolding and_assign bit_at
  bit_at-and_assign =
      let same = ha.measured ∙ sym hb.measured in
      (
        record a { storage = each_word bit_and a.storage b.storage },
        ground (arith, same),
        each_word-IsBitSet bit_and (λ v w hv hw. bit_and_lt 64 v w hv),
        λ k.
            rw (word-each_word bit_and a.storage b.storage (k / 64) same refl)
              (digit-bit_and (k % 64) _ _),
      )
