-- ===== src/Smpp/Session/Numbers.antt =====
-- The sequence numbers that a session draws for its requests.
use smppgw.Base.{
  ℕ, zero, suc, ◌+◌, ◌%◌, ◌^◌, ◌≤◌, ◌<◌, ◌≡◌, ◌≢◌, refl, ap, ◌∙◌, ltb, if◌then◌else◌, arith,
}
use smppgw.Smpp.Session.{Session, next_sequence_number}

-- The session after it has drawn `k` numbers.
abbrev pub draw : ℕ → Session → Session
draw zero s = s
draw (suc k) s = (next_sequence_number (draw k s)).1

next_number :
    (s : Session)
    → (next_sequence_number s).1.sequence_number ≡ (
        if ltb 0x7FFFFFFF ((s.sequence_number + 1) % 2 ^ 32)
        then 1
        else (s.sequence_number + 1) % 2 ^ 32)
unfolding next_sequence_number
next_number s = refl

step :
    (x : ℕ)
    → (if ltb 0x7FFFFFFF ((x % 0x7FFFFFFF + 1 + 1) % 2 ^ 32)
        then 1
        else (x % 0x7FFFFFFF + 1 + 1) % 2 ^ 32)
      ≡ (x + 1) % 0x7FFFFFFF + 1
step x = ground arith

first :
    (x : ℕ)
    → x ≤ 0x7FFFFFFF
    → (if ltb 0x7FFFFFFF ((x + 1) % 2 ^ 32) then 1 else (x + 1) % 2 ^ 32) ≡ x % 0x7FFFFFFF + 1
first x h = ground arith

-- The numbers go round from 1 to 0x7FFFFFFF.
drawn_number :
    (k : ℕ) (s : Session)
    → s.sequence_number ≤ 0x7FFFFFFF
    → (draw (suc k) s).sequence_number ≡ (s.sequence_number + k) % 0x7FFFFFFF + 1
drawn_number zero s h = next_number s ∙ first s.sequence_number h ∙ omega arith
drawn_number (suc k) s h =
    let ih = drawn_number k s h in
    next_number (draw (suc k) s)
    ∙ ap (λ x. if ltb 0x7FFFFFFF ((x + 1) % 2 ^ 32) then 1 else (x + 1) % 2 ^ 32) ih
    ∙ step (s.sequence_number + k)
    ∙ omega arith

-- If the last number is at most 0x7FFFFFFF, as it is at the start, the numbers that a session draws are
-- from 1 to 0x7FFFFFFF, and those of two draws that are fewer than 0x7FFFFFFF draws apart are different.
pub draw-distinct :
    (i d : ℕ) (s : Session)
    → s.sequence_number ≤ 0x7FFFFFFF
    → 0 < d
    → d < 0x7FFFFFFF
    → ((1 ≤ (draw (suc i) s).sequence_number) × ((draw (suc i) s).sequence_number ≤ 0x7FFFFFFF))
      × ((draw (suc i) s).sequence_number ≢ (draw (suc (i + d)) s).sequence_number)
draw-distinct i d s h p q =
    let a = drawn_number i s h in
    let b = drawn_number (i + d) s h in (omega (arith, a), λ e. absurd (omega (arith, a, b, e)))
