-- ===== src/Smpp/FlatBuffer/Tests.antt =====
-- The receive buffer at concrete bytes.
use smppgw.Base.{◌+◌, ◌<◌, ◌≡◌, ◌⊎◌, [], ◌∷◌, ◌++◌, drop, arith}
use smppgw.Base.Results.{ok, throw, length_error}
use smppgw.Smpp.FlatBuffer.{
  FlatBuffer, IsFlat, capacity, size, data_of, prepare, commit, consume, fill,
}
use smppgw.Smpp.FlatBuffer.Refinement.{data_of-prepare, data_of-consume}

-- Two bytes at the end of an array of six: the next two do not fit behind them.
abbrev late : FlatBuffer
late = record { array = 1 ∷ 2 ∷ 3 ∷ 4 ∷ 5 ∷ 6 ∷ []; first = 3; out = 5; last = 6 }

late-IsFlat : IsFlat late
late-IsFlat = record { first_out = omega arith; out_last = omega arith; last_end = omega arith }

data_of-prepare_example :
    ((prepare 2 late ≡ throw length_error) × (capacity late < size late + 2))
    ⊎ ((p : FlatBuffer) × (prepare 2 late ≡ ok p)
        × IsFlat (commit 2 (fill (7 ∷ 8 ∷ []) p))
        × (data_of (commit 2 (fill (7 ∷ 8 ∷ []) p)) ≡ data_of late ++ 7 ∷ 8 ∷ []))
data_of-prepare_example = data_of-prepare 2 (7 ∷ 8 ∷ []) late late-IsFlat (omega arith)

data_of-consume_example :
    IsFlat (consume 1 late) × (data_of (consume 1 late) ≡ drop 1 (data_of late))
data_of-consume_example = data_of-consume 1 late late-IsFlat
