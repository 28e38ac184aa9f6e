-- ===== src/Smpp/Pdu/Requests/Delivering.antt =====
-- Delivering a short message.
use smppgw.Base.{arith, ℕ, refl, false, [], ◌∷◌}
use smppgw.Smpp.Byte.{Bytes}
use smppgw.Smpp.Oparam.{Oparam}
use smppgw.Smpp.EsmClass.{EsmClass}
use smppgw.Smpp.RegisteredDelivery.{RegisteredDelivery}
use smppgw.Smpp.CommandId
use smppgw.Smpp.CommandId.{BindType, bind_command, bind_command_resp}
use smppgw.Smpp.Wire.{
  enum_u8, u8, flag_esm_class, flag_registered_delivery, smart, c_octet_str, u8_octet_str,
}
use smppgw.Smpp.Pdu.{Pdu}

-- libs/smpp/pdu/deliver_sm.hpp
pub record DeliverSm : Type 0 where
  pub service_type : Bytes
  pub source_addr_ton : ℕ
  pub source_addr_npi : ℕ
  pub source_addr : Bytes
  pub dest_addr_ton : ℕ
  pub dest_addr_npi : ℕ
  pub dest_addr : Bytes
  pub esm_class : EsmClass
  pub protocol_id : ℕ
  pub priority_flag : ℕ
  pub schedule_delivery_time : Bytes
  pub validity_period : Bytes
  pub registered_delivery : RegisteredDelivery
  pub replace_if_present_flag : ℕ
  pub data_coding : ℕ
  pub sm_default_msg_id : ℕ
  pub short_message : Bytes
  pub oparam : Oparam

unfoldable pub deliver_sm_pdu : Pdu (Unit {0}) DeliverSm
deliver_sm_pdu = record {
  members =
      c_octet_str 6
      ∷ enum_u8
      ∷ enum_u8
      ∷ c_octet_str 21
      ∷ enum_u8
      ∷ enum_u8
      ∷ c_octet_str 21
      ∷ flag_esm_class
      ∷ u8
      ∷ enum_u8
      ∷ c_octet_str 1
      ∷ c_octet_str 1
      ∷ flag_registered_delivery
      ∷ enum_u8
      ∷ enum_u8
      ∷ u8
      ∷ u8_octet_str 254
      ∷ smart
      ∷ [];
  values = λ p. (
    p.service_type,
    (
      p.source_addr_ton,
      (
        p.source_addr_npi,
        (
          p.source_addr,
          (
            p.dest_addr_ton,
            (
              p.dest_addr_npi,
              (
                p.dest_addr,
                (
                  p.esm_class,
                  (
                    p.protocol_id,
                    (
                      p.priority_flag,
                      (
                        p.schedule_delivery_time,
                        (
                          p.validity_period,
                          (
                            p.registered_delivery,
                            (
                              p.replace_if_present_flag,
                              (
                                p.data_coding,
                                (p.sm_default_msg_id, (p.short_message, (p.oparam, tt))),
                              ),
                            ),
                          ),
                        ),
                      ),
                    ),
                  ),
                ),
              ),
            ),
          ),
        ),
      ),
    ),
  );
  args = λ p. tt;
  make = λ args vs. record {
    service_type = vs.0;
    source_addr_ton = vs.1.0;
    source_addr_npi = vs.1.1.0;
    source_addr = vs.1.1.1.0;
    dest_addr_ton = vs.1.1.1.1.0;
    dest_addr_npi = vs.1.1.1.1.1.0;
    dest_addr = vs.1.1.1.1.1.1.0;
    esm_class = vs.1.1.1.1.1.1.1.0;
    protocol_id = vs.1.1.1.1.1.1.1.1.0;
    priority_flag = vs.1.1.1.1.1.1.1.1.1.0;
    schedule_delivery_time = vs.1.1.1.1.1.1.1.1.1.1.0;
    validity_period = vs.1.1.1.1.1.1.1.1.1.1.1.0;
    registered_delivery = vs.1.1.1.1.1.1.1.1.1.1.1.1.0;
    replace_if_present_flag = vs.1.1.1.1.1.1.1.1.1.1.1.1.1.0;
    data_coding = vs.1.1.1.1.1.1.1.1.1.1.1.1.1.1.0;
    sm_default_msg_id = vs.1.1.1.1.1.1.1.1.1.1.1.1.1.1.1.0;
    short_message = vs.1.1.1.1.1.1.1.1.1.1.1.1.1.1.1.1.0;
    oparam = vs.1.1.1.1.1.1.1.1.1.1.1.1.1.1.1.1.1.0;
  };
  omitted = λ args. record {
    service_type = [];
    source_addr_ton = 0;
    source_addr_npi = 0;
    source_addr = [];
    dest_addr_ton = 0;
    dest_addr_npi = 0;
    dest_addr = [];
    esm_class = record { messaging_mode = 0; message_type = 0; gsm_network_features = 0 };
    protocol_id = 0;
    priority_flag = 0;
    schedule_delivery_time = [];
    validity_period = [];
    registered_delivery = record {
      smsc_delivery_receipt = 0;
      sme_originated_ack = 0;
      intermediate_notification = 0;
    };
    replace_if_present_flag = 0;
    data_coding = 0;
    sm_default_msg_id = 0;
    short_message = [];
    oparam = [];
  };
  can_be_omitted = false;
  is_response = false;
  command_id_of = λ p. CommandId.deliver_sm;
  make-values = λ p. refl;
  values-make = λ args vs. refl;
  omitted_fits = λ args. omega arith;
  smart_last = refl;
  writes = λ h. cc;
}
