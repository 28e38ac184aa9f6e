-- ===== src/Expirator/Tests.antt =====
-- The theorems on waiting keys at a concrete expirator.
use smppgw.Base.{ℕ, ◌≡◌, refl, List, [], ◌∷◌, none, some, arith}
use smppgw.Expirator.{Expirator, add, get_info, find_key, on_timer}
use smppgw.Expirator.Keys.{handed_for}
use smppgw.Expirator.Waiting.{Op, adds, removes, ticks, run, add-waits, add-expires}

-- One second a tick, in nanoseconds.
abbrev idle : Expirator ℕ
idle = record { index = 41; period = 1000000000; index_keys = [] }

abbrev meanwhile : List (Op ℕ)
meanwhile = ticks ∷ adds 6 5000000000 60 ∷ removes 8 ∷ ticks ∷ []

add-waits_example :
    let y = run meanwhile (add idle 7 2500000000 70) in
    (get_info y.0 7 ≡ some 70) × (handed_for 7 y.1 ≡ [])
unfolding get_info find_key
add-waits_example =
    add-waits idle 7 2500000000 70 meanwhile refl (omega arith) (λ e. omega (arith, e), tt)
      (omega arith)

add-expires_example :
    let y = run meanwhile (add idle 7 2500000000 70) in
    let last = on_timer y.0 in
    (handed_for 7 y.1 ≡ []) × (handed_for 7 last.1 ≡ 70 ∷ []) × (get_info last.0 7 ≡ none)
unfolding get_info find_key
add-expires_example =
    add-expires idle 7 2500000000 70 meanwhile refl (omega arith) (λ e. omega (arith, e), tt)
      (omega arith)
