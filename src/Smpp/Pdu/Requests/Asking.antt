-- ===== src/Smpp/Pdu/Requests/Asking.antt =====
-- Asking for and cancelling a short message.
use smppgw.Base.{arith, ℕ, refl, false, [], ◌∷◌}
use smppgw.Smpp.Byte.{Bytes}
use smppgw.Smpp.CommandId
use smppgw.Smpp.CommandId.{BindType, bind_command, bind_command_resp}
use smppgw.Smpp.Wire.{enum_u8, c_octet_str}
use smppgw.Smpp.Pdu.{Pdu}

-- libs/smpp/pdu/query_sm.hpp
pub record QuerySm : Type 0 where
  pub message_id : Bytes
  pub source_addr_ton : ℕ
  pub source_addr_npi : ℕ
  pub source_addr : Bytes

unfoldable pub query_sm_pdu : Pdu (Unit {0}) QuerySm
query_sm_pdu = record {
  members = c_octet_str 65 ∷ enum_u8 ∷ enum_u8 ∷ c_octet_str 21 ∷ [];
  values = λ p. (p.message_id, (p.source_addr_ton, (p.source_addr_npi, (p.source_addr, tt))));
  args = λ p. tt;
  make = λ args vs. record {
    message_id = vs.0;
    source_addr_ton = vs.1.0;
    source_addr_npi = vs.1.1.0;
    source_addr = vs.1.1.1.0;
  };
  omitted = λ args. record {
    message_id = [];
    source_addr_ton = 0;
    source_addr_npi = 0;
    source_addr = [];
  };
  can_be_omitted = false;
  is_response = false;
  command_id_of = λ p. CommandId.query_sm;
  make-values = λ p. refl;
  values-make = λ args vs. refl;
  omitted_fits = λ args. omega arith;
  smart_last = tt;
  writes = λ h. cc;
}

-- libs/smpp/pdu/cancel_sm.hpp
pub record CancelSm : Type 0 where
  pub service_type : Bytes
  pub message_id : Bytes
  pub source_addr_ton : ℕ
  pub source_addr_npi : ℕ
  pub source_addr : Bytes
  pub dest_addr_ton : ℕ
  pub dest_addr_npi : ℕ
  pub dest_addr : Bytes

unfoldable pub cancel_sm_pdu : Pdu (Unit {0}) CancelSm
cancel_sm_pdu = record {
  members =
      c_octet_str 6
      ∷ c_octet_str 65
      ∷ enum_u8
      ∷ enum_u8
      ∷ c_octet_str 21
      ∷ enum_u8
      ∷ enum_u8
      ∷ c_octet_str 21
      ∷ [];
  values = λ p. (
    p.service_type,
    (
      p.message_id,
      (
        p.source_addr_ton,
        (
          p.source_addr_npi,
          (p.source_addr, (p.dest_addr_ton, (p.dest_addr_npi, (p.dest_addr, tt)))),
        ),
      ),
    ),
  );
  args = λ p. tt;
  make = λ args vs. record {
    service_type = vs.0;
    message_id = vs.1.0;
    source_addr_ton = vs.1.1.0;
    source_addr_npi = vs.1.1.1.0;
    source_addr = vs.1.1.1.1.0;
    dest_addr_ton = vs.1.1.1.1.1.0;
    dest_addr_npi = vs.1.1.1.1.1.1.0;
    dest_addr = vs.1.1.1.1.1.1.1.0;
  };
  omitted = λ args. record {
    service_type = [];
    message_id = [];
    source_addr_ton = 0;
    source_addr_npi = 0;
    source_addr = [];
    dest_addr_ton = 0;
    dest_addr_npi = 0;
    dest_addr = [];
  };
  can_be_omitted = false;
  is_response = false;
  command_id_of = λ p. CommandId.cancel_sm;
  make-values = λ p. refl;
  values-make = λ args vs. refl;
  omitted_fits = λ args. omega arith;
  smart_last = tt;
  writes = λ h. cc;
}
