-- ===== src/FlowControl/FixedFlow.antt =====
-- src/libs/flow_control.hpp: the method `fixed_flow`, which admits packets by the times of the last
-- second, in microseconds. A time is 64 bits wide. The clock's time is a parameter.
pub mod Second
use smppgw.Base.{
  ℕ, suc, ◌+◌, ◌-◌, ◌%◌, ◌^◌, ◌<◌, ◌≤◌, ◌≡◌, refl, ap, sym, subst, ◌∙◌, true, false, List, [], ◌∷◌,
  ◌++◌, Option, none, some, length, ltb, if◌then◌else◌, arith, Bool-cases, inl, inr,
}

-- The members of `flow_control` that the method reads.
pub record FixedFlow : Type 0 where
  pub max_packets_per_second : ℕ
  pub flow_times_fixed : List ℕ

-- Subtraction on `uint64_t`.
unfoldable pub minus : ℕ → ℕ → ℕ
minus a b = (a + 2 ^ 64 - b) % 2 ^ 64

-- The times from the oldest on are erased while they are more than a second old.
unfoldable pub remove_past_data : ℕ → List ℕ → List ℕ
remove_past_data now [] = []
remove_past_data now (t ∷ ts) =
    let rest = remove_past_data now ts in if ltb 1000000 (minus now t) then rest else t ∷ ts

-- The wait until the oldest time is a second old. `*begin()` of an empty deque is undefined.
unfoldable pub refuse : ℕ → List ℕ → FixedFlow → Option (ℕ × FixedFlow)
refuse now [] s = none
refuse now (t ∷ ts) s =
    some (minus ((t + 1000000) % 2 ^ 64) now, record s { flow_times_fixed = t ∷ ts })

unfoldable pub counted : ℕ → List ℕ → FixedFlow → FixedFlow
counted now times s = record s { flow_times_fixed = times ++ now ∷ [] }

-- `check()`: the time to wait in microseconds, and the state.
unfoldable pub check_fixed : ℕ → FixedFlow → Option (ℕ × FixedFlow)
check_fixed now s =
    let times = remove_past_data now s.flow_times_fixed in
    if ltb (length times) s.max_packets_per_second
    then some (0, counted now times s)
    else refuse now times s
