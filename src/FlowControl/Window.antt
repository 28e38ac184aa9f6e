-- ===== src/FlowControl/Window.antt =====
-- The window of `limit_credit`: its total, and what changing its size does.
use smppgw.Base.{
  ℕ, zero, suc, ◌+◌, ◌-◌, ◌*◌, ◌%◌, ◌^◌, ◌≤◌, ◌<◌, ◌≡◌, refl, ap, ap₂, ◌∙◌, ◌⊎◌, inl, inr, true,
  false, List, [], ◌∷◌, ◌++◌, some, length, leb, replicate, arith, Bool-cases, length-append,
  le→leb, ◌||◌, Bool,
}
use smppgw.FlowControl.{
  FlowControl, pass_second, pass_seconds, back, increment_back, full, admit, check,
  on_credit_windows_size_replace,
}

abbrev pub sum : List ℕ → ℕ
sum [] = 0
sum (c ∷ cs) = c + sum cs

-- The total is that of the counts, and the window has a second at least.
pub record IsWindow (s : FlowControl) : Type 0 where
  pub total : s.window_total_packets ≡ sum s.elements_packet_count
  pub small : s.window_total_packets < 2 ^ 32
  pub seconds : 0 < length s.elements_packet_count

sum-append : (xs ys : List ℕ) → sum (xs ++ ys) ≡ sum xs + sum ys
sum-append [] ys = omega arith
sum-append (x ∷ xs) ys = omega (arith, sum-append xs ys)

-- What a step keeps of a window.
abbrev Kept : FlowControl → FlowControl → Type 0
Kept s t =
    IsWindow t
    × (t.max_packets_per_second ≡ s.max_packets_per_second)
    × (t.credit_windows_size ≡ s.credit_windows_size)
    × (t.window_total_packets ≤ s.window_total_packets)

passed :
    (s : FlowControl) (c : ℕ) (cs : List ℕ)
    → IsWindow s
    → s.elements_packet_count ≡ c ∷ cs
    → (t : FlowControl) × (pass_second s ≡ some t) × Kept s t
unfolding pass_second
passed s c cs w e =
    let total : s.window_total_packets ≡ c + sum cs = rw e at w.total in
    (
      record s {
        window_total_packets = (s.window_total_packets + 2 ^ 32 - c) % 2 ^ 32;
        elements_packet_count = cs ++ 0 ∷ [];
      },
      rw e refl,
      (
        record {
          total = omega (arith, total, sum-append cs (0 ∷ []), w.small);
          small = omega arith;
          seconds = omega (arith, length-append cs (0 ∷ []));
        },
        refl,
        refl,
        omega (arith, total, w.small),
      ),
    )

with_seconds : (xs : List ℕ) → 0 < length xs → (c : ℕ) × (cs : List ℕ) × (xs ≡ c ∷ cs)
with_seconds [] h = absurd (omega arith)
with_seconds (c ∷ cs) h = (c, cs, refl)

pass_second-Kept :
    (s : FlowControl) → IsWindow s → (t : FlowControl) × (pass_second s ≡ some t) × Kept s t
pass_second-Kept s w =
    let (c, cs, e) = with_seconds s.elements_packet_count w.seconds in passed s c cs w e

pass_seconds-Kept :
    (diff : ℕ) (s : FlowControl)
    → IsWindow s
    → (t : FlowControl) × (pass_seconds diff s ≡ some t) × Kept s t
unfolding pass_seconds
pass_seconds-Kept zero s w = (s, refl, (w, refl, refl, omega arith))
pass_seconds-Kept (suc diff) s w =
    let (t, e, (w1, a, b, c)) = pass_second-Kept s w in
    let (u, e', (w2, a', b', c')) = pass_seconds-Kept diff t w1 in
    (u, rw (pass_seconds, e) e', (w2, a' ∙ a, b' ∙ b, omega (arith, c, c')))

back-some : (xs : List ℕ) → 0 < length xs → (c : ℕ) × (back xs ≡ some c)
unfolding back
back-some [] h = absurd (omega arith)
back-some (c ∷ []) h = (c, refl)
back-some (c ∷ d ∷ cs) h = back-some (d ∷ cs) (omega arith)

sum-increment_back :
    (xs : List ℕ) (c : ℕ)
    → back xs ≡ some c
    → c + 1 < 2 ^ 32
    → (sum (increment_back xs) ≡ sum xs + 1) × (length (increment_back xs) ≡ length xs)
unfolding back increment_back
sum-increment_back [] c e h = cc
sum-increment_back (d ∷ []) c e h = let same : d ≡ c = cc in (omega (arith, same, h), refl)
sum-increment_back (d ∷ d' ∷ xs) c e h =
    let (a, b) = sum-increment_back (d' ∷ xs) c e h in (omega (arith, a), omega (arith, b))

admit-full :
    (s : FlowControl) (count : ℕ)
    → back s.elements_packet_count ≡ some count
    → full count s ≡ true
    → admit s ≡ some (1000000, s)
unfolding admit
admit-full s count d f = rw (admit, d, f) refl

below :
    (s : FlowControl) (count : ℕ)
    → full count s ≡ false
    → (count < (s.max_packets_per_second + s.max_slippage) % 2 ^ 32)
      × (s.window_total_packets < s.max_packets_per_second * s.credit_windows_size % 2 ^ 32)
below s count f = ground arith

admit_room :
    (s : FlowControl) (count : ℕ)
    → IsWindow s
    → back s.elements_packet_count ≡ some count
    → full count s ≡ false
    → (t : FlowControl) × (admit s ≡ some (0, t))
      × IsWindow t
      × (t.window_total_packets ≤ s.max_packets_per_second * s.credit_windows_size % 2 ^ 32)
unfolding admit
admit_room s count w d f =
    let (low, room) = below s count f in
    let (total, long) = sum-increment_back s.elements_packet_count count d (omega arith) in
    (
      record s {
        window_total_packets = (s.window_total_packets + 1) % 2 ^ 32;
        elements_packet_count = increment_back s.elements_packet_count;
      },
      rw (admit, d, f) refl,
      record {
        total = omega (arith, total, room, w.total);
        small = omega arith;
        seconds = omega (arith, long, w.seconds);
      },
      omega (arith, room),
    )

-- Checking a packet on a window returns, and leaves a window: its total is that of its counts. A
-- packet is admitted, with no time to wait, only if the total then is within the packets that the
-- window allows; otherwise the total has not grown.
pub check-IsWindow :
    (diff : ℕ) (s : FlowControl)
    → IsWindow s
    → (wait : ℕ) × (t : FlowControl) × (check diff s ≡ some (wait, t))
      × IsWindow t
      × (((wait ≡ 0)
            × (t.window_total_packets ≤ s.max_packets_per_second * s.credit_windows_size % 2 ^ 32))
          ⊎ ((wait ≡ 1000000) × (t.window_total_packets ≤ s.window_total_packets)))
unfolding check
check-IsWindow diff s w =
    let (t, e, (v, a, b, c)) = pass_seconds-Kept diff s w in
    let (count, d) = back-some t.elements_packet_count v.seconds in
    elim (Bool-cases (full count t)) [
      | inl f ↦ (1000000, t, rw (check, e) (admit-full t count d f), v, inr (refl, c))
      | inr f ↦
          let (u, g, x, y) = admit_room t count v d f in
          (0, u, rw (check, e) g, x, inl (refl, rw (a, b) at y))
    ]

or_true : (b : Bool) → (b || true) ≡ true
or_true true = refl
or_true false = refl

zeros_snoc : (n : ℕ) → replicate {A = ℕ} n 0 ++ 0 ∷ [] ≡ replicate (suc n) 0
zeros_snoc zero = refl
zeros_snoc (suc n) = ap (λ l. 0 ∷ l) (zeros_snoc n)

back-zeros : (n : ℕ) → back (replicate (suc n) 0) ≡ some 0
unfolding back
back-zeros zero = refl
back-zeros (suc n) = back-zeros n

module _ (n : ℕ) (s : FlowControl) (small : s.window_total_packets < 2 ^ 32) where
  abbrev replaced : FlowControl
  replaced = record s { credit_windows_size = suc n; elements_packet_count = replicate (suc n) 0 }

  pass_second-replaced : pass_second replaced ≡ some replaced
  unfolding pass_second
  pass_second-replaced =
      ap₂
        (λ a b. some (record s {
          credit_windows_size = suc n;
          window_total_packets = a;
          elements_packet_count = b;
        }))
        (omega (arith, small)) (zeros_snoc n)

  pass_seconds-replaced : (diff : ℕ) → pass_seconds diff replaced ≡ some replaced
  unfolding pass_seconds
  pass_seconds-replaced zero = refl
  pass_seconds-replaced (suc diff) =
      rw (pass_seconds, pass_second-replaced) (pass_seconds-replaced diff)

-- After the size of the window was changed the counts are zero, but the total is kept: if it is not
-- below what the new window admits, no packet is admitted, however many seconds pass.
pub check-on_credit_windows_size_replace :
    (n diff : ℕ) (s : FlowControl)
    → s.window_total_packets < 2 ^ 32
    → s.max_packets_per_second * suc n % 2 ^ 32 ≤ s.window_total_packets
    → check diff (on_credit_windows_size_replace (suc n) s)
      ≡ some (1000000, on_credit_windows_size_replace (suc n) s)
unfolding check admit on_credit_windows_size_replace
check-on_credit_windows_size_replace n diff s small h =
    rw
      (
        check,
        pass_seconds-replaced n s small diff,
        admit,
        back-zeros n,
        le→leb (s.max_packets_per_second * suc n % 2 ^ 32) s.window_total_packets h,
        or_true (leb ((s.max_packets_per_second + s.max_slippage) % 2 ^ 32) 0),
      )
      refl
