-- ===== src/Smpp/Byte.antt =====
-- Bytes and big-endian 16-bit words, as libs/smpp reads and writes them. A `std::string`, a
-- `std::vector<uint8_t>` and a span are the list of their bytes, as numbers below 256.
use smppgw.Base.{
  ℕ, ◌+◌, ◌*◌, ◌/◌, ◌%◌, ◌<◌, ◌≡◌, List, [], ◌∷◌, arith, All, Bool, true, ◌&&◌, zero, suc,
}

abbrev pub Bytes : Type 0
Bytes = List ℕ

abbrev pub AreBytes : Bytes → Type 0
AreBytes = All (λ b. b < 256)

-- `data[0] << 8 | data[1]`: the operands share no bit, so the sum is the bitwise or.
abbrev pub u16_of : ℕ → ℕ → ℕ
u16_of hi lo = hi * 256 + lo

-- The two bytes that `serialize_u16` pushes for a `uint16_t`, the parameter's conversion included.
abbrev pub u16_bytes : ℕ → Bytes
u16_bytes val = (val / 256 % 256) ∷ (val % 256) ∷ []

pub u16_of-bytes : (val : ℕ) → val < 65536 → u16_of (val / 256 % 256) (val % 256) ≡ val
u16_of-bytes val h = omega arith

-- Over a small range, check every value by evaluation.
unfoldable pub holds_below : ℕ → (ℕ → Bool) → Bool
holds_below zero test = true
holds_below (suc bound) test = holds_below bound test && test bound

module _ (test : ℕ → Bool) where
  pub holds_below_at :
      (bound value : ℕ) → holds_below bound test ≡ true → value < bound → test value ≡ true
  unfolding holds_below
  holds_below_at zero value all small = absurd (omega arith)
  holds_below_at (suc bound) value all small = ground (arith, holds_below_at bound value)
