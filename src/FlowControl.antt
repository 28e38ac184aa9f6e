-- ===== src/FlowControl.antt =====
-- src/libs/flow_control.hpp: the method `limit_credit`, which admits packets by the counts of the last
-- seconds. A word is 32 bits wide. The seconds that have passed since the last call are a parameter.
pub mod Window
pub mod FixedFlow
mod Tests
use smppgw.Base.{
  ℕ, zero, suc, ◌+◌, ◌-◌, ◌*◌, ◌%◌, ◌^◌, ◌<◌, ◌≡◌, Bool, ◌||◌, List, [], ◌∷◌, ◌++◌, Option, none,
  some, length, leb, replicate, if◌then◌else◌,
}

pub record FlowControl : Type 0 where
  pub max_packets_per_second : ℕ
  pub max_slippage : ℕ
  pub credit_windows_size : ℕ
  pub window_total_packets : ℕ
  pub elements_packet_count : List ℕ

-- A round of the loop: the oldest second leaves the window. `front()` of an empty deque is undefined.
unfoldable pub pass_second : FlowControl → Option FlowControl
pass_second s = elim s.elements_packet_count [
  | [] ↦ none
  | count ∷ counts ↦ some (record s {
    window_total_packets = (s.window_total_packets + 2 ^ 32 - count) % 2 ^ 32;
    elements_packet_count = counts ++ 0 ∷ [];
  })
]

-- `for (auto i = 0; i < diff; i++)`.
unfoldable pub pass_seconds : ℕ → FlowControl → Option FlowControl
pass_seconds zero s = some s
pass_seconds (suc diff) s = elim (pass_second s) [ none ↦ none | some t ↦ pass_seconds diff t ]

-- `back()`, which is undefined for an empty deque, and `back()++`.
unfoldable pub back : List ℕ → Option ℕ
back [] = none
back (c ∷ []) = some c
back (c ∷ d ∷ cs) = back (d ∷ cs)

unfoldable pub increment_back : List ℕ → List ℕ
increment_back [] = []
increment_back (c ∷ []) = ((c + 1) % 2 ^ 32) ∷ []
increment_back (c ∷ d ∷ cs) = c ∷ increment_back (d ∷ cs)

-- The packet is refused.
abbrev pub full : ℕ → FlowControl → Bool
full count s =
    leb ((s.max_packets_per_second + s.max_slippage) % 2 ^ 32) count
    || leb (s.max_packets_per_second * s.credit_windows_size % 2 ^ 32) s.window_total_packets

-- What `check()` does once the seconds have passed.
unfoldable pub admit : FlowControl → Option (ℕ × FlowControl)
admit s = elim (back s.elements_packet_count) [
  | none ↦ none
  | some count ↦
      if full count s
      then some (1000000, s)
      else some (
        0,
        record s {
          window_total_packets = (s.window_total_packets + 1) % 2 ^ 32;
          elements_packet_count = increment_back s.elements_packet_count;
        },
      )
]

-- `check()`: the time to wait in microseconds, and the state.
unfoldable pub check : ℕ → FlowControl → Option (ℕ × FlowControl)
check diff s = elim (pass_seconds diff s) [ none ↦ none | some t ↦ admit t ]

unfoldable pub on_credit_windows_size_replace : ℕ → FlowControl → FlowControl
on_credit_windows_size_replace n s = record s {
  credit_windows_size = n;
  elements_packet_count = replicate n 0;
}
