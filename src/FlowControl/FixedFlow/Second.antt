-- ===== src/FlowControl/FixedFlow/Second.antt =====
-- The times that `fixed_flow` keeps, its waits, and the packet that is admitted after a wait.
use smppgw.Base.{
  ℕ, suc, ◌+◌, ◌-◌, ◌%◌, ◌^◌, ◌<◌, ◌≤◌, ◌≡◌, refl, ap, sym, subst, ◌∙◌, true, false, List, [], ◌∷◌,
  ◌++◌, Option, some, length, ltb, arith, Bool-cases, inl, inr, length-append, ltb_false→le, lt→ltb,
  le→ltb_false, ltb→lt,
}
use smppgw.FlowControl.FixedFlow.{FixedFlow, minus, remove_past_data, refuse, counted, check_fixed}

-- The times ascend from `lo` on and stay at most `hi`.
abbrev pub Between : ℕ → ℕ → List ℕ → Type 0
Between lo hi [] = lo ≤ hi
Between lo hi (t ∷ ts) = (lo ≤ t) × Between t hi ts

Between-le : (lo hi : ℕ) (ts : List ℕ) → Between lo hi ts → lo ≤ hi
Between-le lo hi [] h = h
Between-le lo hi (t ∷ ts) h =
    let rest : t ≤ hi = Between-le t hi ts h.1 in let first : lo ≤ t = h.0 in omega arith

Between-append :
    (lo hi now : ℕ) (ts : List ℕ) → Between lo hi ts → hi ≤ now → Between lo now (ts ++ now ∷ [])
Between-append lo hi now [] h le = let first : lo ≤ hi = h in (omega arith, omega arith)
Between-append lo hi now (t ∷ ts) h le = (h.0, Between-append t hi now ts h.1 le)

Between-widen : (lo hi now : ℕ) (ts : List ℕ) → Between lo hi ts → hi ≤ now → Between lo now ts
Between-widen lo hi now [] h le = let first : lo ≤ hi = h in omega arith
Between-widen lo hi now (t ∷ ts) h le = (h.0, Between-widen t hi now ts h.1 le)

Between-weaken : (lo low hi : ℕ) (ts : List ℕ) → lo ≤ low → Between low hi ts → Between lo hi ts
Between-weaken lo low hi [] le h = let first : low ≤ hi = h in omega arith
Between-weaken lo low hi (t ∷ ts) le h = let first : low ≤ t = h.0 in (omega arith, h.1)

minus_le : (a b : ℕ) → b ≤ a → a < 2 ^ 64 → minus a b ≡ a - b
unfolding minus
minus_le a b le small = omega arith

minus_back : (a b : ℕ) → a < b → b < 2 ^ 63 → 2 ^ 63 < minus a b
unfolding minus
minus_back a b less small = omega arith

-- The wait of a refusal ends when the oldest time is a second old.
wait_exact :
    (now t : ℕ)
    → t ≤ now
    → now < 2 ^ 63
    → minus now t ≤ 1000000
    → minus ((t + 1000000) % 2 ^ 64) now ≡ t + 1000000 - now
wait_exact now t le small young =
    let past = minus_le now t le (omega arith) in
    let wrapped : (t + 1000000) % 2 ^ 64 ≡ t + 1000000 = omega arith in
    rw wrapped (minus_le (t + 1000000) now (omega (arith, young, past)) (omega arith))

-- What is left is between the same bounds, no longer than before, and none of it is too old.
remove_past_data-Between :
    (lo hi now : ℕ) (ts : List ℕ) → Between lo hi ts → Between lo hi (remove_past_data now ts)
unfolding remove_past_data
remove_past_data-Between lo hi now [] h = h
remove_past_data-Between lo hi now (t ∷ ts) h = elim (Bool-cases (ltb 1000000 (minus now t))) [
  | inl old ↦ rw old (remove_past_data-Between lo hi now ts (Between-weaken lo t hi ts h.0 h.1))
  | inr young ↦ rw young h
]

length-remove_past_data : (now : ℕ) (ts : List ℕ) → length (remove_past_data now ts) ≤ length ts
unfolding remove_past_data
length-remove_past_data now [] = omega arith
length-remove_past_data now (t ∷ ts) = elim (Bool-cases (ltb 1000000 (minus now t))) [
  | inl old ↦ rw old (omega (arith, length-remove_past_data now ts))
  | inr young ↦ rw young (omega arith)
]

abbrev pub IsYoung : ℕ → List ℕ → Type 0
IsYoung now [] = Unit
IsYoung now (t ∷ ts) = minus now t ≤ 1000000

remove_past_data-IsYoung : (now : ℕ) (ts : List ℕ) → IsYoung now (remove_past_data now ts)
unfolding remove_past_data
remove_past_data-IsYoung now [] = tt
remove_past_data-IsYoung now (t ∷ ts) = elim (Bool-cases (ltb 1000000 (minus now t))) [
  | inl old ↦ rw old (remove_past_data-IsYoung now ts)
  | inr young ↦ rw young (omega (arith, ltb_false→le 1000000 (minus now t) young))
]

-- The times that are kept at the time `last` ascend up to it, and they are as many as a second
-- admits at most.
pub record IsFixed (last : ℕ) (s : FixedFlow) : Type 0 where
  pub ascends : Between 0 last s.flow_times_fixed
  pub admitted : length s.flow_times_fixed ≤ s.max_packets_per_second
  pub some_admitted : 0 < s.max_packets_per_second

-- What a call comes to: a wait of a second at most, and a state that is kept well.
abbrev pub Outcome : ℕ → FixedFlow → ℕ × FixedFlow → Type 0
Outcome now s r =
    (r.0 ≤ 1000000) × IsFixed now r.1 × (r.1.max_packets_per_second ≡ s.max_packets_per_second)

refuse-Outcome :
    (last now : ℕ) (times : List ℕ) (s : FixedFlow)
    → Between 0 last times
    → length times ≤ s.max_packets_per_second
    → 0 < s.max_packets_per_second
    → s.max_packets_per_second ≤ length times
    → IsYoung now times
    → last ≤ now
    → now < 2 ^ 63
    → (r : ℕ × FixedFlow) × (refuse now times s ≡ some r) × Outcome now s r
unfolding refuse
refuse-Outcome last now [] s h most positive least young le small =
    absurd (omega (arith, positive, least))
refuse-Outcome last now (t ∷ ts) s h most positive least young le small =
    let past : t ≤ last = Between-le t last ts h.1 in
    (
      (minus ((t + 1000000) % 2 ^ 64) now, record s { flow_times_fixed = t ∷ ts }),
      refl,
      (
        omega (arith, wait_exact now t (omega arith) small young),
        record {
          ascends = Between-widen 0 last now (t ∷ ts) h le;
          admitted = most;
          some_admitted = positive;
        },
        refl,
      ),
    )

-- From a state whose times ascend up to the last call's and are as many as a positive
-- `max_packets_per_second` at most, a call at a time that is not earlier and below 2 ^ 63 returns. The
-- state is again of that kind, for the time of the call, and the wait is a second at most.
pub check_fixed-IsFixed :
    (last now : ℕ) (s : FixedFlow)
    → IsFixed last s
    → last ≤ now
    → now < 2 ^ 63
    → (r : ℕ × FixedFlow) × (check_fixed now s ≡ some r) × Outcome now s r
unfolding check_fixed counted
check_fixed-IsFixed last now s h le small =
    let times = remove_past_data now s.flow_times_fixed in
    let shorter = length-remove_past_data now s.flow_times_fixed in
    let between = remove_past_data-Between 0 last now s.flow_times_fixed h.ascends in
    elim (Bool-cases (ltb (length times) s.max_packets_per_second)) [
      | inl free ↦ (
        (0, counted now times s),
        rw free refl,
        (
          omega arith,
          record {
            ascends = Between-append 0 last now times between le;
            admitted = omega (
              arith,
              length-append times (now ∷ []),
              ltb→lt (length times) s.max_packets_per_second free,
            );
            some_admitted = h.some_admitted;
          },
          refl,
        ),
      )
      | inr full ↦
          let least = ltb_false→le (length times) s.max_packets_per_second full in
          rw full (
            refuse-Outcome last now times s between (omega (arith, shorter, h.admitted))
              h.some_admitted least (remove_past_data-IsYoung now s.flow_times_fixed) le small)
    ]

-- The times after a wait: the oldest is more than a second old, and is erased.
erased :
    (later t : ℕ) (ts : List ℕ) (n : ℕ)
    → t + 1000000 < later
    → later < 2 ^ 63
    → suc (length ts) ≤ n
    → ltb (length (remove_past_data later (t ∷ ts))) n ≡ true
unfolding remove_past_data
erased later t ts n past small most =
    let age = minus_le later t (omega arith) (omega arith) in
    let old : ltb 1000000 (minus later t) ≡ true =
      lt→ltb 1000000 (minus later t) (omega (arith, age)) in
    rw old (
      lt→ltb (length (remove_past_data later ts)) n
        (omega (arith, length-remove_past_data later ts)))

abbrev Retried : ℕ → FixedFlow → Type 0
Retried later t =
    check_fixed later t ≡ some (0, counted later (remove_past_data later t.flow_times_fixed) t)

refuse_retry :
    (now later wait : ℕ) (times : List ℕ) (s t : FixedFlow)
    → Between 0 now times
    → length times ≤ s.max_packets_per_second
    → IsYoung now times
    → now < 2 ^ 63
    → refuse now times s ≡ some (wait, t)
    → now + wait < later
    → later < 2 ^ 63
    → Retried later t
unfolding refuse check_fixed
refuse_retry now later wait [] s t h most young small e past bound = cc
refuse_retry now later wait (u ∷ us) s t h most young small e past bound =
    let le : u ≤ now = Between-le u now us h.1 in
    let waits : minus ((u + 1000000) % 2 ^ 64) now ≡ wait = cc in
    let state : record s { flow_times_fixed = u ∷ us } ≡ t = cc in
    let free =
      erased later u us s.max_packets_per_second
        (omega (arith, waits, wait_exact now u le small young)) bound most in
    subst (Retried later) state (rw free refl)

abbrev answered : ℕ → List ℕ → FixedFlow → Option (ℕ × FixedFlow)
answered now times s = some (0, counted now times s)

-- Where `check` asks for a wait, from a state as in `IsFixed`, a call at any time after the end of that
-- wait and below 2 ^ 63 admits the packet at once and counts it, if nothing was counted meanwhile.
pub check_fixed_retry :
    (last now later wait : ℕ) (s t : FixedFlow)
    → IsFixed last s
    → last ≤ now
    → now < 2 ^ 63
    → check_fixed now s ≡ some (wait, t)
    → 0 < wait
    → now + wait < later
    → later < 2 ^ 63
    → check_fixed later t ≡ some (0, counted later (remove_past_data later t.flow_times_fixed) t)
unfolding check_fixed
check_fixed_retry last now later wait s t h le small e waited past bound =
    let times = remove_past_data now s.flow_times_fixed in
    let shorter = length-remove_past_data now s.flow_times_fixed in
    let between = remove_past_data-Between 0 last now s.flow_times_fixed h.ascends in
    elim (Bool-cases (ltb (length times) s.max_packets_per_second)) [
      | inl free ↦
          let answer : answered now times s ≡ some (wait, t) = rw free at e in
          let zero_wait : 0 ≡ wait = cc in absurd (omega (arith, zero_wait, waited))
      | inr full ↦
          refuse_retry now later wait times s t (Between-widen 0 last now times between le)
            (omega (arith, shorter, h.admitted)) (remove_past_data-IsYoung now s.flow_times_fixed)
            small (rw full at e) past bound
    ]

-- Where as many times are kept as `max_packets_per_second` says, a call at the microsecond at which
-- the oldest is exactly a second old, and below 2 ^ 63, returns no wait and does not count the packet.
pub check_fixed_uncounted :
    (t : ℕ) (ts : List ℕ) (s : FixedFlow)
    → s.flow_times_fixed ≡ t ∷ ts
    → length s.flow_times_fixed ≡ s.max_packets_per_second
    → t + 1000000 < 2 ^ 63
    → check_fixed (t + 1000000) s ≡ some (0, s)
unfolding check_fixed remove_past_data refuse
check_fixed_uncounted t ts s e full small =
    let count : suc (length ts) ≡ s.max_packets_per_second = sym (ap length e) ∙ full in
    let young : ltb 1000000 (minus (t + 1000000) t) ≡ false =
      le→ltb_false 1000000 (minus (t + 1000000) t)
        (omega (arith, minus_le (t + 1000000) t (omega arith) (omega arith))) in
    let full_times : ltb (suc (length ts)) s.max_packets_per_second ≡ false =
      le→ltb_false (suc (length ts)) s.max_packets_per_second (omega (arith, count)) in
    let no_wait : minus ((t + 1000000) % 2 ^ 64) (t + 1000000) ≡ 0 = omega (
      arith,
      wait_exact (t + 1000000) t (omega arith) small
          (omega (arith, minus_le (t + 1000000) t (omega arith) (omega arith))),
    ) in
    let state : record s { flow_times_fixed = t ∷ ts } ≡ s =
      sym (ap (λ times. record s { flow_times_fixed = times }) e) in
    subst (λ u. check_fixed (t + 1000000) u ≡ some (0, u)) state
      (rw (young, full_times, no_wait) refl)
