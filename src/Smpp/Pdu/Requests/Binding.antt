-- ===== src/Smpp/Pdu/Requests/Binding.antt =====
-- Binding a session, and the notification that a mobile is available.
use smppgw.Base.{arith, ℕ, refl, false, [], ◌∷◌}
use smppgw.Smpp.Byte.{Bytes}
use smppgw.Smpp.Oparam.{Oparam}
use smppgw.Smpp.CommandId
use smppgw.Smpp.CommandId.{BindType, bind_command, bind_command_resp}
use smppgw.Smpp.Wire.{enum_u8, smart, c_octet_str}
use smppgw.Smpp.Pdu.{Pdu}

-- libs/smpp/pdu/bind_request.hpp
pub record BindRequest : Type 0 where
  pub bind_type : BindType
  pub system_id : Bytes
  pub password : Bytes
  pub system_type : Bytes
  pub interface_version : ℕ
  pub addr_ton : ℕ
  pub addr_npi : ℕ
  pub address_range : Bytes

unfoldable pub bind_request_pdu : Pdu BindType BindRequest
bind_request_pdu = record {
  members =
      c_octet_str 31
      ∷ c_octet_str 31
      ∷ c_octet_str 13
      ∷ enum_u8
      ∷ enum_u8
      ∷ enum_u8
      ∷ c_octet_str 41
      ∷ [];
  values = λ p. (
    p.system_id,
    (
      p.password,
      (p.system_type, (p.interface_version, (p.addr_ton, (p.addr_npi, (p.address_range, tt))))),
    ),
  );
  args = λ p. p.bind_type;
  make = λ args vs. record {
    bind_type = args;
    system_id = vs.0;
    password = vs.1.0;
    system_type = vs.1.1.0;
    interface_version = vs.1.1.1.0;
    addr_ton = vs.1.1.1.1.0;
    addr_npi = vs.1.1.1.1.1.0;
    address_range = vs.1.1.1.1.1.1.0;
  };
  omitted = λ args. record {
    bind_type = args;
    system_id = [];
    password = [];
    system_type = [];
    interface_version = 0x34;
    addr_ton = 0;
    addr_npi = 0;
    address_range = [];
  };
  can_be_omitted = false;
  is_response = false;
  command_id_of = λ p. bind_command p.bind_type;
  make-values = λ p. refl;
  values-make = λ args vs. refl;
  omitted_fits = λ args. omega arith;
  smart_last = tt;
  writes = λ h. cc;
}

-- libs/smpp/pdu/alert_notification.hpp
pub record AlertNotification : Type 0 where
  pub source_addr_ton : ℕ
  pub source_addr_npi : ℕ
  pub source_addr : Bytes
  pub esme_addr_ton : ℕ
  pub esme_addr_npi : ℕ
  pub esme_addr : Bytes
  pub oparam : Oparam

unfoldable pub alert_notification_pdu : Pdu (Unit {0}) AlertNotification
alert_notification_pdu = record {
  members = enum_u8 ∷ enum_u8 ∷ c_octet_str 65 ∷ enum_u8 ∷ enum_u8 ∷ c_octet_str 65 ∷ smart ∷ [];
  values = λ p. (
    p.source_addr_ton,
    (
      p.source_addr_npi,
      (p.source_addr, (p.esme_addr_ton, (p.esme_addr_npi, (p.esme_addr, (p.oparam, tt))))),
    ),
  );
  args = λ p. tt;
  make = λ args vs. record {
    source_addr_ton = vs.0;
    source_addr_npi = vs.1.0;
    source_addr = vs.1.1.0;
    esme_addr_ton = vs.1.1.1.0;
    esme_addr_npi = vs.1.1.1.1.0;
    esme_addr = vs.1.1.1.1.1.0;
    oparam = vs.1.1.1.1.1.1.0;
  };
  omitted = λ args. record {
    source_addr_ton = 0;
    source_addr_npi = 0;
    source_addr = [];
    esme_addr_ton = 0;
    esme_addr_npi = 0;
    esme_addr = [];
    oparam = [];
  };
  can_be_omitted = false;
  is_response = false;
  command_id_of = λ p. CommandId.alert_notification;
  make-values = λ p. refl;
  values-make = λ args vs. refl;
  omitted_fits = λ args. omega arith;
  smart_last = refl;
  writes = λ h. cc;
}
