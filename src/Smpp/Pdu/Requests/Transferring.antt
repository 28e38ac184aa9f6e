-- ===== src/Smpp/Pdu/Requests/Transferring.antt =====
-- Transferring and replacing a short message.
use smppgw.Base.{arith, ℕ, refl, false, [], ◌∷◌}
use smppgw.Smpp.Byte.{Bytes}
use smppgw.Smpp.Oparam.{Oparam}
use smppgw.Smpp.EsmClass.{EsmClass}
use smppgw.Smpp.RegisteredDelivery.{RegisteredDelivery}
use smppgw.Smpp.CommandId
use smppgw.Smpp.CommandId.{BindType, bind_command, bind_command_resp}
use smppgw.Smpp.Wire.{
  enum_u8, u8, flag_esm_class, flag_registered_delivery, smart, c_octet_str, u8_octet_str,
}
use smppgw.Smpp.Pdu.{Pdu}

-- libs/smpp/pdu/data_sm.hpp
pub record DataSm : Type 0 where
  pub service_type : Bytes
  pub source_addr_ton : ℕ
  pub source_addr_npi : ℕ
  pub source_addr : Bytes
  pub dest_addr_ton : ℕ
  pub dest_addr_npi : ℕ
  pub dest_addr : Bytes
  pub esm_class : EsmClass
  pub registered_delivery : RegisteredDelivery
  pub data_coding : ℕ
  pub oparam : Oparam

unfoldable pub data_sm_pdu : Pdu (Unit {0}) DataSm
data_sm_pdu = record {
  members =
      c_octet_str 6
      ∷ enum_u8
      ∷ enum_u8
      ∷ c_octet_str 65
      ∷ enum_u8
      ∷ enum_u8
      ∷ c_octet_str 65
      ∷ flag_esm_class
      ∷ flag_registered_delivery
      ∷ enum_u8
      ∷ smart
      ∷ [];
  values = λ p. (
    p.service_type,
    (
      p.source_addr_ton,
      (
        p.source_addr_npi,
        (
          p.source_addr,
          (
            p.dest_addr_ton,
            (
              p.dest_addr_npi,
              (
                p.dest_addr,
                (p.esm_class, (p.registered_delivery, (p.data_coding, (p.oparam, tt)))),
              ),
            ),
          ),
        ),
      ),
    ),
  );
  args = λ p. tt;
  make = λ args vs. record {
    service_type = vs.0;
    source_addr_ton = vs.1.0;
    source_addr_npi = vs.1.1.0;
    source_addr = vs.1.1.1.0;
    dest_addr_ton = vs.1.1.1.1.0;
    dest_addr_npi = vs.1.1.1.1.1.0;
    dest_addr = vs.1.1.1.1.1.1.0;
    esm_class = vs.1.1.1.1.1.1.1.0;
    registered_delivery = vs.1.1.1.1.1.1.1.1.0;
    data_coding = vs.1.1.1.1.1.1.1.1.1.0;
    oparam = vs.1.1.1.1.1.1.1.1.1.1.0;
  };
  omitted = λ args. record {
    service_type = [];
    source_addr_ton = 0;
    source_addr_npi = 0;
    source_addr = [];
    dest_addr_ton = 0;
    dest_addr_npi = 0;
    dest_addr = [];
    esm_class = record { messaging_mode = 0; message_type = 0; gsm_network_features = 0 };
    registered_delivery = record {
      smsc_delivery_receipt = 0;
      sme_originated_ack = 0;
      intermediate_notification = 0;
    };
    data_coding = 0;
    oparam = [];
  };
  can_be_omitted = false;
  is_response = false;
  command_id_of = λ p. CommandId.data_sm;
  make-values = λ p. refl;
  values-make = λ args vs. refl;
  omitted_fits = λ args. omega arith;
  smart_last = refl;
  writes = λ h. cc;
}

-- libs/smpp/pdu/replace_sm.hpp
pub record ReplaceSm : Type 0 where
  pub message_id : Bytes
  pub source_addr_ton : ℕ
  pub source_addr_npi : ℕ
  pub source_addr : Bytes
  pub schedule_delivery_time : Bytes
  pub validity_period : Bytes
  pub registered_delivery : RegisteredDelivery
  pub sm_default_msg_id : ℕ
  pub short_message : Bytes

unfoldable pub replace_sm_pdu : Pdu (Unit {0}) ReplaceSm
replace_sm_pdu = record {
  members =
      c_octet_str 65
      ∷ enum_u8
      ∷ enum_u8
      ∷ c_octet_str 21
      ∷ c_octet_str 17
      ∷ c_octet_str 17
      ∷ flag_registered_delivery
      ∷ u8
      ∷ u8_octet_str 254
      ∷ [];
  values = λ p. (
    p.message_id,
    (
      p.source_addr_ton,
      (
        p.source_addr_npi,
        (
          p.source_addr,
          (
            p.schedule_delivery_time,
            (
              p.validity_period,
              (p.registered_delivery, (p.sm_default_msg_id, (p.short_message, tt))),
            ),
          ),
        ),
      ),
    ),
  );
  args = λ p. tt;
  make = λ args vs. record {
    message_id = vs.0;
    source_addr_ton = vs.1.0;
    source_addr_npi = vs.1.1.0;
    source_addr = vs.1.1.1.0;
    schedule_delivery_time = vs.1.1.1.1.0;
    validity_period = vs.1.1.1.1.1.0;
    registered_delivery = vs.1.1.1.1.1.1.0;
    sm_default_msg_id = vs.1.1.1.1.1.1.1.0;
    short_message = vs.1.1.1.1.1.1.1.1.0;
  };
  omitted = λ args. record {
    message_id = [];
    source_addr_ton = 0;
    source_addr_npi = 0;
    source_addr = [];
    schedule_delivery_time = [];
    validity_period = [];
    registered_delivery = record {
      smsc_delivery_receipt = 0;
      sme_originated_ack = 0;
      intermediate_notification = 0;
    };
    sm_default_msg_id = 0;
    short_message = [];
  };
  can_be_omitted = false;
  is_response = false;
  command_id_of = λ p. CommandId.replace_sm;
  make-values = λ p. refl;
  values-make = λ args vs. refl;
  omitted_fits = λ args. omega arith;
  smart_last = tt;
  writes = λ h. cc;
}
