-- ===== src/Smpp/RegisteredDelivery.antt =====
-- libs/smpp/param/registered_delivery.hpp: a byte split by masks into three enumerators. An enumeration over
-- `uint8_t` holds any byte, so each part is the number that the mask leaves.
use Prim.Native.Nat.{bit_and, bit_or}
use smppgw.Base.{ℕ, ◌*◌, ◌/◌, ◌%◌, ◌<◌, ◌≡◌, refl, Bool, true, ltb, ◌&&◌, ◌==◌, ==_iff, arith}
use smppgw.Smpp.Byte.{holds_below, holds_below_at}

pub record RegisteredDelivery : Type 0 where
  pub smsc_delivery_receipt : ℕ
  pub sme_originated_ack : ℕ
  pub intermediate_notification : ℕ

unfoldable pub from_u8 : ℕ → RegisteredDelivery
from_u8 value = record {
  smsc_delivery_receipt = bit_and value 0x03;
  sme_originated_ack = bit_and value 0x0C;
  intermediate_notification = bit_and value 0x10;
}

unfoldable pub to_u8 : RegisteredDelivery → ℕ
to_u8 e = bit_or (bit_or e.smsc_delivery_receipt e.sme_originated_ack) e.intermediate_notification

-- The parts lie under their masks 0x03, 0x0C and 0x10.
pub record IsRegisteredDelivery (e : RegisteredDelivery) : Type 0 where
  pub receipt : e.smsc_delivery_receipt < 4
  pub ack_step : e.sme_originated_ack % 4 ≡ 0
  pub ack_top : e.sme_originated_ack < 16
  pub notification_step : e.intermediate_notification % 16 ≡ 0
  pub notification_top : e.intermediate_notification < 32

abbrev parts_table : ℕ → ℕ → ℕ → Bool
parts_table m t g =
    let v = bit_or (bit_or m t) g in
    (bit_and v 0x03 == m) && ((bit_and v 0x0C == t) && ((bit_and v 0x10 == g) && ltb v 32))

table :
    holds_below 4 (λ m. holds_below 4 (λ t. holds_below 2 (λ g. parts_table m (4 * t) (16 * g))))
    ≡ true
unfolding holds_below
table = refl

parts :
    (e : RegisteredDelivery)
    → IsRegisteredDelivery e
    → parts_table e.smsc_delivery_receipt e.sme_originated_ack e.intermediate_notification ≡ true
parts e v =
    let t = e.sme_originated_ack / 4 in
    let g = e.intermediate_notification / 16 in
    let a = holds_below_at _ 4 e.smsc_delivery_receipt table v.receipt in
    let b = holds_below_at _ 4 t a (omega arith) in
    let c = holds_below_at _ 2 g b (omega arith) in
    let p : 4 * t ≡ e.sme_originated_ack = omega arith in
    let q : 16 * g ≡ e.intermediate_notification = omega arith in rw (p, q) at c

-- A value whose parts lie under their masks comes back from the byte that it is sent as.
pub from_u8-to_u8_delivery :
    (e : RegisteredDelivery) → IsRegisteredDelivery e → (from_u8 (to_u8 e) ≡ e) × (to_u8 e < 32)
unfolding from_u8 to_u8
from_u8-to_u8_delivery e v = ground (arith, parts e v)

byte_table : holds_below 256 (λ b. to_u8 (from_u8 b) == b % 32) ≡ true
unfolding holds_below from_u8 to_u8
byte_table = refl

-- The three top bits of a byte that is received are not sent on.
pub to_u8-from_u8_mod : (b : ℕ) → b < 256 → to_u8 (from_u8 b) ≡ b % 32
to_u8-from_u8_mod b h = (==_iff _ _).0 (holds_below_at _ 256 b byte_table h)

received_table :
    holds_below 256 (λ b.
      ltb (bit_and b 0x03) 4
      && ((bit_and b 0x0C % 4 == 0)
          && (ltb (bit_and b 0x0C) 16 && ((bit_and b 0x10 % 16 == 0) && ltb (bit_and b 0x10) 32))))
    ≡ true
unfolding holds_below
received_table = refl

-- The parts of a byte that is received lie under their masks.
pub from_u8-IsRegisteredDelivery : (b : ℕ) → b < 256 → IsRegisteredDelivery (from_u8 b)
unfolding from_u8
from_u8-IsRegisteredDelivery b h = ground (arith, holds_below_at _ 256 b received_table h)
