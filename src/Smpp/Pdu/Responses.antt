-- ===== src/Smpp/Pdu/Responses.antt =====
-- The responses of libs/smpp/pdu, a record for each struct and what `detail` says of it.
use smppgw.Base.{arith, ℕ, ◌≡◌, refl, true, false, [], ◌∷◌}
use smppgw.Smpp.Byte.{Bytes}
use smppgw.Smpp.Oparam.{Oparam}
use smppgw.Smpp.CommandId
use smppgw.Smpp.CommandId.{BindType, bind_command, bind_command_resp}
use smppgw.Smpp.Wire.{enum_u8, u8, smart, c_octet_str}
use smppgw.Smpp.Pdu.{Pdu}

-- libs/smpp/pdu/bind_resp.hpp
pub record BindResp : Type 0 where
  pub bind_type : BindType
  pub system_id : Bytes
  pub oparam : Oparam

unfoldable pub bind_resp_pdu : Pdu BindType BindResp
bind_resp_pdu = record {
  members = c_octet_str 31 ∷ smart ∷ [];
  values = λ p. (p.system_id, (p.oparam, tt));
  args = λ p. p.bind_type;
  make = λ args vs. record { bind_type = args; system_id = vs.0; oparam = vs.1.0 };
  omitted = λ args. record { bind_type = args; system_id = []; oparam = [] };
  can_be_omitted = true;
  is_response = true;
  command_id_of = λ p. bind_command_resp p.bind_type;
  make-values = λ p. refl;
  values-make = λ args vs. refl;
  omitted_fits = λ args. omega arith;
  smart_last = refl;
  writes = λ h. tt;
}

-- libs/smpp/pdu/cancel_sm_resp.hpp
pub data CancelSmResp : Type 0 where
  cancel_sm_resp : CancelSmResp

pub cancel_sm_resp_lem : (p : CancelSmResp) → CancelSmResp.cancel_sm_resp ≡ p
cancel_sm_resp_lem CancelSmResp.cancel_sm_resp = refl

unfoldable pub cancel_sm_resp_pdu : Pdu (Unit {0}) CancelSmResp
cancel_sm_resp_pdu = record {
  members = [];
  values = λ p. tt;
  args = λ p. tt;
  make = λ args vs. CancelSmResp.cancel_sm_resp;
  omitted = λ args. CancelSmResp.cancel_sm_resp;
  can_be_omitted = false;
  is_response = true;
  command_id_of = λ p. CommandId.cancel_sm_resp;
  make-values = cancel_sm_resp_lem;
  values-make = λ args vs. refl;
  omitted_fits = λ args. omega arith;
  smart_last = tt;
  writes = λ h. cc;
}

-- libs/smpp/pdu/data_sm_resp.hpp
pub record DataSmResp : Type 0 where
  pub message_id : Bytes
  pub oparam : Oparam

unfoldable pub data_sm_resp_pdu : Pdu (Unit {0}) DataSmResp
data_sm_resp_pdu = record {
  members = c_octet_str 65 ∷ smart ∷ [];
  values = λ p. (p.message_id, (p.oparam, tt));
  args = λ p. tt;
  make = λ args vs. record { message_id = vs.0; oparam = vs.1.0 };
  omitted = λ args. record { message_id = []; oparam = [] };
  can_be_omitted = false;
  is_response = true;
  command_id_of = λ p. CommandId.data_sm_resp;
  make-values = λ p. refl;
  values-make = λ args vs. refl;
  omitted_fits = λ args. omega arith;
  smart_last = refl;
  writes = λ h. cc;
}

-- libs/smpp/pdu/deliver_sm_resp.hpp
pub record DeliverSmResp : Type 0 where
  pub message_id : Bytes

unfoldable pub deliver_sm_resp_pdu : Pdu (Unit {0}) DeliverSmResp
deliver_sm_resp_pdu = record {
  members = c_octet_str 1 ∷ [];
  values = λ p. (p.message_id, tt);
  args = λ p. tt;
  make = λ args vs. record { message_id = vs.0 };
  omitted = λ args. record { message_id = [] };
  can_be_omitted = true;
  is_response = true;
  command_id_of = λ p. CommandId.deliver_sm_resp;
  make-values = λ p. refl;
  values-make = λ args vs. refl;
  omitted_fits = λ args. omega arith;
  smart_last = tt;
  writes = λ h. tt;
}

-- libs/smpp/pdu/generic_nack.hpp
pub data GenericNack : Type 0 where
  generic_nack : GenericNack

pub generic_nack_lem : (p : GenericNack) → GenericNack.generic_nack ≡ p
generic_nack_lem GenericNack.generic_nack = refl

unfoldable pub generic_nack_pdu : Pdu (Unit {0}) GenericNack
generic_nack_pdu = record {
  members = [];
  values = λ p. tt;
  args = λ p. tt;
  make = λ args vs. GenericNack.generic_nack;
  omitted = λ args. GenericNack.generic_nack;
  can_be_omitted = false;
  is_response = true;
  command_id_of = λ p. CommandId.generic_nack;
  make-values = generic_nack_lem;
  values-make = λ args vs. refl;
  omitted_fits = λ args. omega arith;
  smart_last = tt;
  writes = λ h. cc;
}

-- libs/smpp/pdu/query_sm_resp.hpp
pub record QuerySmResp : Type 0 where
  pub message_id : Bytes
  pub final_date : Bytes
  pub message_state : ℕ
  pub error_code : ℕ

unfoldable pub query_sm_resp_pdu : Pdu (Unit {0}) QuerySmResp
query_sm_resp_pdu = record {
  members = c_octet_str 65 ∷ c_octet_str 17 ∷ enum_u8 ∷ u8 ∷ [];
  values = λ p. (p.message_id, (p.final_date, (p.message_state, (p.error_code, tt))));
  args = λ p. tt;
  make = λ args vs. record {
    message_id = vs.0;
    final_date = vs.1.0;
    message_state = vs.1.1.0;
    error_code = vs.1.1.1.0;
  };
  omitted = λ args. record { message_id = []; final_date = []; message_state = 7; error_code = 0 };
  can_be_omitted = false;
  is_response = true;
  command_id_of = λ p. CommandId.query_sm_resp;
  make-values = λ p. refl;
  values-make = λ args vs. refl;
  omitted_fits = λ args. omega arith;
  smart_last = tt;
  writes = λ h. cc;
}

-- libs/smpp/pdu/replace_sm_resp.hpp
pub data ReplaceSmResp : Type 0 where
  replace_sm_resp : ReplaceSmResp

pub replace_sm_resp_lem : (p : ReplaceSmResp) → ReplaceSmResp.replace_sm_resp ≡ p
replace_sm_resp_lem ReplaceSmResp.replace_sm_resp = refl

unfoldable pub replace_sm_resp_pdu : Pdu (Unit {0}) ReplaceSmResp
replace_sm_resp_pdu = record {
  members = [];
  values = λ p. tt;
  args = λ p. tt;
  make = λ args vs. ReplaceSmResp.replace_sm_resp;
  omitted = λ args. ReplaceSmResp.replace_sm_resp;
  can_be_omitted = false;
  is_response = true;
  command_id_of = λ p. CommandId.replace_sm_resp;
  make-values = replace_sm_resp_lem;
  values-make = λ args vs. refl;
  omitted_fits = λ args. omega arith;
  smart_last = tt;
  writes = λ h. cc;
}

-- libs/smpp/pdu/submit_sm_resp.hpp
pub record SubmitSmResp : Type 0 where
  pub message_id : Bytes

unfoldable pub submit_sm_resp_pdu : Pdu (Unit {0}) SubmitSmResp
submit_sm_resp_pdu = record {
  members = c_octet_str 65 ∷ [];
  values = λ p. (p.message_id, tt);
  args = λ p. tt;
  make = λ args vs. record { message_id = vs.0 };
  omitted = λ args. record { message_id = [] };
  can_be_omitted = true;
  is_response = true;
  command_id_of = λ p. CommandId.submit_sm_resp;
  make-values = λ p. refl;
  values-make = λ args vs. refl;
  omitted_fits = λ args. omega arith;
  smart_last = tt;
  writes = λ h. tt;
}
