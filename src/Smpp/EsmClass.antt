-- ===== src/Smpp/EsmClass.antt =====
-- libs/smpp/param/esm_class.hpp: a byte split by masks into three enumerators. An enumeration over
-- `uint8_t` holds any byte, so each part is the number that the mask leaves.
use Prim.Native.Nat.{bit_and, bit_or}
use smppgw.Base.{ℕ, ◌*◌, ◌/◌, ◌%◌, ◌<◌, ◌≡◌, refl, Bool, true, ltb, ◌&&◌, ◌==◌, ==_iff, arith}
use smppgw.Smpp.Byte.{holds_below, holds_below_at}

pub record EsmClass : Type 0 where
  pub messaging_mode : ℕ
  pub message_type : ℕ
  pub gsm_network_features : ℕ

unfoldable pub from_u8 : ℕ → EsmClass
from_u8 value = record {
  messaging_mode = bit_and value 0x03;
  message_type = bit_and value 0x3C;
  gsm_network_features = bit_and value 0xC0;
}

unfoldable pub to_u8 : EsmClass → ℕ
to_u8 e = bit_or (bit_or e.messaging_mode e.message_type) e.gsm_network_features

-- The parts lie under their masks 0x03, 0x3C and 0xC0.
pub record IsEsmClass (e : EsmClass) : Type 0 where
  pub mode : e.messaging_mode < 4
  pub type_step : e.message_type % 4 ≡ 0
  pub type_top : e.message_type < 64
  pub features_step : e.gsm_network_features % 64 ≡ 0
  pub features_top : e.gsm_network_features < 256

abbrev parts_table : ℕ → ℕ → ℕ → Bool
parts_table m t g =
    let v = bit_or (bit_or m t) g in
    (bit_and v 0x03 == m) && ((bit_and v 0x3C == t) && ((bit_and v 0xC0 == g) && ltb v 256))

table :
    holds_below 4 (λ m. holds_below 16 (λ t. holds_below 4 (λ g. parts_table m (4 * t) (64 * g))))
    ≡ true
unfolding holds_below
table = refl

parts :
    (e : EsmClass)
    → IsEsmClass e
    → parts_table e.messaging_mode e.message_type e.gsm_network_features ≡ true
parts e v =
    let t = e.message_type / 4 in
    let g = e.gsm_network_features / 64 in
    let a = holds_below_at _ 4 e.messaging_mode table v.mode in
    let b = holds_below_at _ 16 t a (omega arith) in
    let c = holds_below_at _ 4 g b (omega arith) in
    let p : 4 * t ≡ e.message_type = omega arith in
    let q : 64 * g ≡ e.gsm_network_features = omega arith in rw (p, q) at c

-- A class whose parts lie under their masks comes back from the byte that it is sent as.
pub from_u8-to_u8 : (e : EsmClass) → IsEsmClass e → (from_u8 (to_u8 e) ≡ e) × (to_u8 e < 256)
unfolding from_u8 to_u8
from_u8-to_u8 e v = ground (arith, parts e v)

byte_table : holds_below 256 (λ b. to_u8 (from_u8 b) == b) ≡ true
unfolding holds_below from_u8 to_u8
byte_table = refl

-- Every byte that is received is sent on unchanged.
pub to_u8-from_u8 : (b : ℕ) → b < 256 → to_u8 (from_u8 b) ≡ b
to_u8-from_u8 b h = (==_iff _ b).0 (holds_below_at _ 256 b byte_table h)

received_table :
    holds_below 256 (λ b.
      ltb (bit_and b 0x03) 4
      && ((bit_and b 0x3C % 4 == 0)
          && (ltb (bit_and b 0x3C) 64 && ((bit_and b 0xC0 % 64 == 0) && ltb (bit_and b 0xC0) 256))))
    ≡ true
unfolding holds_below
received_table = refl

-- The parts of a byte that is received lie under their masks.
pub from_u8-IsEsmClass : (b : ℕ) → b < 256 → IsEsmClass (from_u8 b)
unfolding from_u8
from_u8-IsEsmClass b h = ground (arith, holds_below_at _ 256 b received_table h)
