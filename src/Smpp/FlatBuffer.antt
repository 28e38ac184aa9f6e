-- ===== src/Smpp/FlatBuffer.antt =====
-- libs/smpp/net/detail/flat_buffer.hpp: the receive buffer, an array with three positions in it. A
-- pointer is its distance from the beginning of the array.
pub mod Refinement
mod Tests
use smppgw.Base.{ℕ, ◌+◌, ◌-◌, ◌≤◌, List, [], ◌++◌, length, take, drop, min, ltb, leb, if◌then◌else◌}
use smppgw.Base.Results.{Result, ok, throw, length_error}

pub record FlatBuffer : Type 0 where
  pub array : List ℕ
  pub first : ℕ
  pub out : ℕ
  pub last : ℕ

unfoldable pub capacity : FlatBuffer → ℕ
capacity b = length b.array

unfoldable pub size : FlatBuffer → ℕ
size b = b.out - b.first

-- `data()`: the bytes from `in_` to `out_`.
unfoldable pub data_of : FlatBuffer → List ℕ
data_of b = take (b.out - b.first) (drop b.first b.array)

unfoldable pub clear : FlatBuffer → FlatBuffer
clear b = record b { first = 0; out = 0; last = 0 }

-- `memmove` to the beginning of the array.
unfoldable pub moved : FlatBuffer → FlatBuffer
unfolding data_of size
moved b = record b { array = data_of b ++ drop (size b) b.array; first = 0; out = size b }

-- The buffer that is returned begins at `out_` and has `n` bytes.
unfoldable pub prepare : ℕ → FlatBuffer → Result FlatBuffer
unfolding capacity size moved data_of
prepare n b =
    if leb n (length b.array - b.out)
    then ok (record b { last = b.out + n })
    else if ltb (capacity b - size b) n
    then throw length_error
    else ok (record (moved b) { last = size b + n })

unfoldable pub commit : ℕ → FlatBuffer → FlatBuffer
commit n b = record b { out = b.out + min n (b.last - b.out) }

unfoldable pub consume : ℕ → FlatBuffer → FlatBuffer
unfolding size
consume n b =
    if leb (size b) n then record b { first = 0; out = 0 } else record b { first = b.first + n }

-- What the socket writes into the buffer that `prepare` returned.
unfoldable pub fill : List ℕ → FlatBuffer → FlatBuffer
fill chunk b = record b {
  array = take b.out b.array ++ (chunk ++ drop (b.out + length chunk) b.array);
}

-- The positions are in order and inside the array.
pub record IsFlat (b : FlatBuffer) : Type 0 where
  pub first_out : b.first ≤ b.out
  pub out_last : b.out ≤ b.last
  pub last_end : b.last ≤ length b.array
