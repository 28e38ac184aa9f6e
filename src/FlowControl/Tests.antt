-- ===== src/FlowControl/Tests.antt =====
-- The methods `limit_credit` and `fixed_flow` at concrete states.
use smppgw.Base.{ℕ, ◌*◌, ◌%◌, ◌^◌, ◌≤◌, ◌≡◌, ◌⊎◌, refl, some, [], ◌∷◌, arith}
use smppgw.FlowControl.{FlowControl, check, on_credit_windows_size_replace}
use smppgw.FlowControl.FixedFlow.{FixedFlow, minus, remove_past_data, refuse, counted, check_fixed}
use smppgw.FlowControl.FixedFlow.Second.{
  IsFixed, Outcome, check_fixed-IsFixed, check_fixed_retry, check_fixed_uncounted,
}
use smppgw.FlowControl.Window.{IsWindow, check-IsWindow, check-on_credit_windows_size_replace}

-- Ten packets a second over three seconds, of which 25 were admitted.
abbrev busy : FlowControl
busy = record {
  max_packets_per_second = 10;
  max_slippage = 2;
  credit_windows_size = 3;
  window_total_packets = 25;
  elements_packet_count = 10 ∷ 9 ∷ 6 ∷ [];
}

check-IsWindow_example :
    (wait : ℕ) × (t : FlowControl) × (check 1 busy ≡ some (wait, t))
    × IsWindow t
    × (((wait ≡ 0) × (t.window_total_packets ≤ 10 * 3 % 2 ^ 32))
        ⊎ ((wait ≡ 1000000) × (t.window_total_packets ≤ 25)))
check-IsWindow_example =
    check-IsWindow 1 busy (record { total = refl; small = omega arith; seconds = omega arith })

check-on_credit_windows_size_replace_example :
    check 60 (on_credit_windows_size_replace 2 busy)
    ≡ some (1000000, on_credit_windows_size_replace 2 busy)
check-on_credit_windows_size_replace_example =
    check-on_credit_windows_size_replace 1 60 busy (omega arith) (omega arith)

-- Two packets a second, at 4.0 and 4.25 seconds.
abbrev paced : FixedFlow
paced = record { max_packets_per_second = 2; flow_times_fixed = 4000000 ∷ 4250000 ∷ [] }

paced-IsFixed : IsFixed 4250000 paced
paced-IsFixed = record {
  ascends = (omega arith, (omega arith, omega arith));
  admitted = omega arith;
  some_admitted = omega arith;
}

check_fixed-IsFixed_example :
    (r : ℕ × FixedFlow) × (check_fixed 4500000 paced ≡ some r) × Outcome 4500000 paced r
check_fixed-IsFixed_example =
    check_fixed-IsFixed 4250000 4500000 paced paced-IsFixed (omega arith) (omega arith)

refused : check_fixed 4500000 paced ≡ some (500000, paced)
unfolding check_fixed remove_past_data refuse minus
refused = refl

check_fixed_retry_example :
    check_fixed 5000001 paced
    ≡ some (0, counted 5000001 (remove_past_data 5000001 paced.flow_times_fixed) paced)
check_fixed_retry_example =
    check_fixed_retry 4250000 4500000 5000001 500000 paced paced paced-IsFixed (omega arith)
      (omega arith) refused (omega arith) (omega arith) (omega arith)

check_fixed_uncounted_example : check_fixed 5000000 paced ≡ some (0, paced)
check_fixed_uncounted_example =
    check_fixed_uncounted 4000000 (4250000 ∷ []) paced refl refl (omega arith)
