-- ===== src/Routing/Digits.antt =====
-- The binary digits of a word, and what `&` and `|` on `uint64_t` do to them.
use Prim.Native.Nat.{
  bit_and, bit_or, bitwise, digits, bit_and-bitwise, bit_or-bitwise, bit_xor, differ,
  bit_xor-bitwise,
}
use smppgw.Base.{
  ℕ, zero, suc, ◌+◌, ◌-◌, ◌*◌, ◌/◌, ◌%◌, ◌^◌, ◌≤◌, ◌<◌, min, max, ◌≡◌, refl, sym, ap, ◌∙◌, Bool,
  false, not, if◌then◌else◌, ◌&&◌, ◌||◌, ◌==◌, arith, Bool-cases, inl, inr, ==_iff, subst, ltb,
  ltb→lt, ltb_false→le,
}

-- The digit with the weight `2 ^ k`.
unfoldable pub digit : ℕ → ℕ → Bool
digit zero w = w % 2 == 1
digit (suc k) w = digit k (w / 2)

-- A digitwise operation that goes on with `z` behind the first number is `f` on each digit.
module _ (z : ℕ → ℕ) (f : ℕ → ℕ → ℕ) (tail : (b : ℕ) → z b ≡ z (b / 2) * 2 + f 0 (b % 2)) where
  digits_enough : (n m a b : ℕ) → a ≤ n → a ≤ m → digits z f n a b ≡ digits z f m a b
  digits_enough zero zero a b hn hm = refl
  digits_enough zero (suc m) zero b hn hm = refl
  digits_enough zero (suc m) (suc a) b hn hm = absurd (omega arith)
  digits_enough (suc n) zero zero b hn hm = refl
  digits_enough (suc n) zero (suc a) b hn hm = absurd (omega arith)
  digits_enough (suc n) (suc m) zero b hn hm = refl
  digits_enough (suc n) (suc m) (suc a) b hn hm =
      omega (arith, digits_enough n m (suc a / 2) (b / 2) (omega arith) (omega arith))

  bitwise_halves : (a b : ℕ) → bitwise z f a b ≡ bitwise z f (a / 2) (b / 2) * 2 + f (a % 2) (b % 2)
  bitwise_halves zero b = tail b
  bitwise_halves (suc a) b =
      omega (arith, digits_enough a (suc a / 2) (suc a / 2) (b / 2) (omega arith) (omega arith))

bit_and_halves : (a b : ℕ) → bit_and a b ≡ bit_and (a / 2) (b / 2) * 2 + min (a % 2) (b % 2)
bit_and_halves a b =
    let halves = bitwise_halves (λ b. zero) min (λ b. omega arith) a b in
    omega (arith, halves, bit_and-bitwise a b, bit_and-bitwise (a / 2) (b / 2))

bit_or_halves : (a b : ℕ) → bit_or a b ≡ bit_or (a / 2) (b / 2) * 2 + max (a % 2) (b % 2)
bit_or_halves a b =
    let halves = bitwise_halves (λ b. b) max (λ b. omega arith) a b in
    omega (arith, halves, bit_or-bitwise a b, bit_or-bitwise (a / 2) (b / 2))

-- One digit of `^`.
bit_xor_halves : (a b : ℕ) → bit_xor a b ≡ bit_xor (a / 2) (b / 2) * 2 + differ (a % 2) (b % 2)
bit_xor_halves a b =
    let halves = bitwise_halves (λ b. b) differ (λ b. omega arith) a b in
    omega (arith, halves, bit_xor-bitwise a b, bit_xor-bitwise (a / 2) (b / 2))

pub digit-bit_and : (k a b : ℕ) → digit k (bit_and a b) ≡ digit k a && digit k b
unfolding digit
digit-bit_and zero a b = ground (arith, bit_and_halves a b)
digit-bit_and (suc k) a b =
    ap (digit k) (omega (arith, bit_and_halves a b)) ∙ digit-bit_and k (a / 2) (b / 2)

pub digit-bit_or : (k a b : ℕ) → digit k (bit_or a b) ≡ digit k a || digit k b
unfolding digit
digit-bit_or zero a b = ground (arith, bit_or_halves a b)
digit-bit_or (suc k) a b =
    ap (digit k) (omega (arith, bit_or_halves a b)) ∙ digit-bit_or k (a / 2) (b / 2)

differ_unit : (x y : ℕ) → x < 2 → y < 2 → differ x y ≡ (x + y) % 2
differ_unit zero zero hx hy = refl
differ_unit zero (suc zero) hx hy = refl
differ_unit (suc zero) zero hx hy = refl
differ_unit (suc zero) (suc zero) hx hy = refl
differ_unit zero (suc (suc y)) hx hy = absurd (omega arith)
differ_unit (suc (suc x)) y hx hy = absurd (omega arith)
differ_unit (suc zero) (suc (suc y)) hx hy = absurd (omega arith)

pub digit-bit_xor :
    (k a b : ℕ) → digit k (bit_xor a b) ≡ (if digit k b then not (digit k a) else digit k a)
unfolding digit
digit-bit_xor zero a b =
    let unit = differ_unit (a % 2) (b % 2) (omega arith) (omega arith) in
    ground (arith, bit_xor_halves a b, unit)
digit-bit_xor (suc k) a b =
    let unit = differ_unit (a % 2) (b % 2) (omega arith) (omega arith) in
    ap (digit k) (omega (arith, bit_xor_halves a b, unit)) ∙ digit-bit_xor k (a / 2) (b / 2)

pub digit-zero : (k : ℕ) → digit k 0 ≡ false
unfolding digit
digit-zero zero = refl
digit-zero (suc k) = digit-zero k

power_halves : (i : ℕ) → 2 ^ suc i ≡ 2 ^ i * 2
power_halves i = omega arith

pub digit-power : (k i : ℕ) → digit k (2 ^ i) ≡ (k == i)
unfolding digit
digit-power zero zero = refl
digit-power zero (suc i) = ground (arith, power_halves i)
digit-power (suc k) zero = digit-zero k ∙ ground arith
digit-power (suc k) (suc i) =
    ap (digit k) (omega (arith, power_halves i)) ∙ digit-power k i ∙ ground arith

-- `~x` in a type of `n` bits.
pub digit_complement : (k n x : ℕ) → k < n → x < 2 ^ n → digit k (2 ^ n - 1 - x) ≡ not (digit k x)
unfolding digit
digit_complement k zero x hk hx = absurd (omega arith)
digit_complement zero (suc n) x hk hx = ground (arith, power_halves n)
digit_complement (suc k) (suc n) x hk hx =
    ap (digit k) (omega (arith, power_halves n))
    ∙ digit_complement k n (x / 2) (omega arith) (omega (arith, power_halves n))

-- Words are equal when their digits are.
digits_equal_fuel : (n a b : ℕ) → a ≤ n → b ≤ n → ((k : ℕ) → digit k a ≡ digit k b) → a ≡ b
unfolding digit
digits_equal_fuel zero a b ha hb same = omega arith
digits_equal_fuel (suc n) a b ha hb same =
    let halves =
      digits_equal_fuel n (a / 2) (b / 2) (omega arith) (omega arith) (λ k. same (suc k)) in
    ground (arith, halves, same 0)

pub digits_equal : (a b : ℕ) → ((k : ℕ) → digit k a ≡ digit k b) → a ≡ b
digits_equal a b same = digits_equal_fuel (max a b) a b (omega arith) (omega arith) same

-- An unset digit leaves nothing of the word under its mask.
masked_nothing : (w i k : ℕ) → digit i w ≡ false → digit k (bit_and w (2 ^ i)) ≡ digit k 0
masked_nothing w i k unset = elim (Bool-cases (k == i)) [
  | inl same ↦
      let off = subst (λ j. digit j w ≡ false) (sym ((==_iff k i).0 same)) unset in
      ground (arith, digit-zero k, digit-bit_and k w (2 ^ i), off)
  | inr other ↦ ground (arith, digit-zero k, digit-bit_and k w (2 ^ i), digit-power k i)
]

-- `(w & ind_set_[i]) ? true : false`.
pub tested-bit_and : (w i : ℕ) → not (bit_and w (2 ^ i) == 0) ≡ digit i w
tested-bit_and w i = elim (Bool-cases (digit i w)) [
  | inl set ↦ elim (Bool-cases (bit_and w (2 ^ i) == 0)) [
    | inl nothing ↦
        let off = ap (digit i) ((==_iff _ 0).0 nothing) in
        ground (arith, off, digit-zero i, digit-bit_and i w (2 ^ i), digit-power i i)
    | inr something ↦ ground arith
  ]
  | inr unset ↦
      let nothing = digits_equal (bit_and w (2 ^ i)) 0 (λ k. masked_nothing w i k unset) in
      ground (arith, nothing)
]

digit-minus_power : (k n w : ℕ) → k < n → 2 ^ n ≤ w → digit k (w - 2 ^ n) ≡ digit k w
unfolding digit
digit-minus_power k zero w hk hw = absurd (omega arith)
digit-minus_power zero (suc n) w hk hw = ground (arith, power_halves n)
digit-minus_power (suc k) (suc n) w hk hw =
    ap (digit k) (omega (arith, power_halves n))
    ∙ digit-minus_power k n (w / 2) (omega arith) (omega (arith, power_halves n))

-- `w <<= 1`.
unfoldable pub shifted : ℕ → ℕ
shifted w = w * 2 % 2 ^ 64

pub digit-shifted_zero : (w : ℕ) → digit 0 (shifted w) ≡ false
unfolding digit shifted
digit-shifted_zero w = ground arith

pub digit-shifted-suc : (k w : ℕ) → suc k < 64 → w < 2 ^ 64 → digit (suc k) (shifted w) ≡ digit k w
unfolding digit shifted
digit-shifted-suc k w hk hw = elim (Bool-cases (ltb w (2 ^ 63))) [
  | inl low ↦ ap (digit k) (omega (arith, ltb→lt w (2 ^ 63) low))
  | inr high ↦
      let le = ltb_false→le w (2 ^ 63) high in
      ap (digit k) (omega (arith, le)) ∙ digit-minus_power k 63 w (omega arith) le
]

-- A number whose digits from the `n`-th on are unset has `n` digits.
pub lt_power : (n w : ℕ) → ((k : ℕ) → n ≤ k → digit k w ≡ false) → w < 2 ^ n
unfolding digit
lt_power zero w high =
    let nothing = digits_equal w 0 (λ k. high k (omega arith) ∙ sym (digit-zero k)) in
    omega (arith, nothing)
lt_power (suc n) w high =
    let half = lt_power n (w / 2) (λ k h. high (suc k) (omega arith)) in
    omega (arith, half, power_halves n)

pub digit-high : (k n w : ℕ) → n ≤ k → w < 2 ^ n → digit k w ≡ false
unfolding digit
digit-high k zero w hk hw = ap (digit k) {x = w} {y = 0} (omega arith) ∙ digit-zero k
digit-high zero (suc n) w hk hw = absurd (omega arith)
digit-high (suc k) (suc n) w hk hw =
    digit-high k n (w / 2) (omega arith) (omega (arith, power_halves n))

-- A digitwise result stays a word.
pub bit_or_lt : (n a b : ℕ) → a < 2 ^ n → b < 2 ^ n → bit_or a b < 2 ^ n
bit_or_lt n a b ha hb =
    lt_power n _
      (λ k h. ground (arith, digit-bit_or k a b, digit-high k n a h ha, digit-high k n b h hb))

pub bit_and_lt : (n a b : ℕ) → a < 2 ^ n → bit_and a b < 2 ^ n
bit_and_lt n a b ha =
    lt_power n _ (λ k h. ground (arith, digit-bit_and k a b, digit-high k n a h ha))

pub power_lt : (i n : ℕ) → i < n → 2 ^ i < 2 ^ n
power_lt i n h = lt_power n (2 ^ i) (λ k hk. ground (arith, digit-power k i))
