-- ===== src/Smpp/Tests.antt =====
-- The codec's theorems at concrete messages.
use smppgw.Base.{true, length, ◌++◌, ◌⊎◌, ◌≡◌, refl, [], ◌∷◌, arith}
use smppgw.Base.Results.{ok, throw, runtime_error}
use smppgw.Smpp.Byte.{Bytes}
use smppgw.Smpp.Oparam
use smppgw.Smpp.Oparam.{Oparam, IsMap}
use smppgw.Smpp.Oparam.RoundTrip
use smppgw.Smpp.Oparam.Reading
use smppgw.Smpp.Wire
use smppgw.Smpp.EsmClass.{EsmClass}
use smppgw.Smpp.Wire.{AllFit}
use smppgw.Smpp.Pdu.{serialize_to, deserialize}
use smppgw.Smpp.Pdu.Requests.{SubmitSm, submit_sm_pdu}
use smppgw.Smpp.Pdu.Responses.{SubmitSmResp, submit_sm_resp_pdu}
use smppgw.Smpp.Pdu.RoundTrip.{
  AllWithin, Outcome, deserialize-serialize_to, serialize_to-deserialize, serialize_to-Outcome,
}
use smppgw.Smpp.ShortMessage
use smppgw.Smpp.ShortMessage.{
  UserDataHeader, MultiPartData, get_multi_part_data, set_multi_part_data, too_long, packed_header,
  pack_short_message, unpack_short_message,
}
use smppgw.Smpp.ShortMessage.Header.{get_multi_part_data-set, read_back}
use smppgw.Smpp.ShortMessage.Packing.{unpack_short_message-pack}
use smppgw.Smpp.ShortMessage.Sound.{Read, read_header-Read}

abbrev sample_oparam : Oparam
sample_oparam = (0x0204, 1 ∷ 2 ∷ []) ∷ (0x020c, 7 ∷ []) ∷ []

deserialize-serialize_example :
    Oparam.deserialize (Oparam.serialize sample_oparam) ≡ ok (sample_oparam, [])
deserialize-serialize_example = RoundTrip.deserialize-serialize sample_oparam (omega arith)

abbrev pub greeting : SubmitSm
greeting = record {
  service_type = [];
  source_addr_ton = 1;
  source_addr_npi = 1;
  source_addr = 57 ∷ 56 ∷ [];
  dest_addr_ton = 1;
  dest_addr_npi = 1;
  dest_addr = 57 ∷ 55 ∷ [];
  esm_class = record { messaging_mode = 3; message_type = 4; gsm_network_features = 64 };
  protocol_id = 0;
  priority_flag = 0;
  schedule_delivery_time = [];
  validity_period = [];
  registered_delivery = record {
    smsc_delivery_receipt = 1;
    sme_originated_ack = 0;
    intermediate_notification = 16;
  };
  replace_if_present_flag = 0;
  data_coding = 0;
  sm_default_msg_id = 0;
  short_message = 104 ∷ 105 ∷ [];
  oparam = sample_oparam;
}

deserialize-serialize_to_example :
    (body : Bytes) × (serialize_to submit_sm_pdu (9 ∷ []) greeting ≡ ok (9 ∷ body))
    × (deserialize submit_sm_pdu body tt ≡ ok greeting)
unfolding submit_sm_pdu
deserialize-serialize_to_example =
    deserialize-serialize_to submit_sm_pdu (9 ∷ []) greeting (omega arith)

abbrev plain_response : SubmitSmResp
plain_response = record { message_id = 55 ∷ 49 ∷ [] }

received : deserialize submit_sm_resp_pdu (55 ∷ 49 ∷ 0 ∷ []) tt ≡ ok plain_response
unfolding deserialize submit_sm_resp_pdu Wire.deserialize_members Wire.read_c_octet_str
received = refl

serialize_to-deserialize_example :
    (body : Bytes) × (serialize_to submit_sm_resp_pdu [] plain_response ≡ ok body)
    × (deserialize submit_sm_resp_pdu body tt ≡ ok plain_response)
unfolding submit_sm_resp_pdu
serialize_to-deserialize_example =
    serialize_to-deserialize submit_sm_resp_pdu (55 ∷ 49 ∷ 0 ∷ []) [] tt plain_response
      (omega arith) received

serialize_to-Outcome_example :
    Outcome
      (AllWithin submit_sm_resp_pdu.members (submit_sm_resp_pdu.values plain_response))
      []
      (serialize_to submit_sm_resp_pdu [] plain_response)
serialize_to-Outcome_example = serialize_to-Outcome submit_sm_resp_pdu [] plain_response

-- Two parameters of one tag, of which the first counts, and one byte more.
abbrev repeated : Bytes
repeated = 2 ∷ 4 ∷ 0 ∷ 2 ∷ 1 ∷ 2 ∷ 2 ∷ 4 ∷ 0 ∷ 1 ∷ 7 ∷ 9 ∷ []

deserialize-Reading_example : Reading.Reading [] repeated (Oparam.deserialize repeated)
deserialize-Reading_example = Reading.deserialize-Reading repeated (omega arith)

abbrev class : EsmClass
class = record { messaging_mode = 2; message_type = 8; gsm_network_features = 192 }

abbrev second_part : MultiPartData
second_part = record { concat_sm_ref_num = 200; number_of_parts = 3; sequence_number = 2 }

get_multi_part_data-set_example :
    get_multi_part_data (set_multi_part_data second_part []) ≡ read_back second_part
get_multi_part_data-set_example = get_multi_part_data-set second_part (omega arith)

-- A reference number of 200 is read back as 65480.
two_hundred : (read_back second_part).concat_sm_ref_num ≡ 65480
two_hundred = refl

abbrev two_headers : UserDataHeader
two_headers = (0, 5 ∷ 2 ∷ 1 ∷ []) ∷ (0x24, 1 ∷ []) ∷ []

unpack_short_message-pack_example :
    ((too_long 0 (length (packed_header two_headers ++ 104 ∷ 105 ∷ [])) ≡ true)
      × (pack_short_message two_headers (104 ∷ 105 ∷ []) 0 ≡ throw runtime_error))
    ⊎ ((short_message : Bytes) × (pack_short_message two_headers (104 ∷ 105 ∷ []) 0
          ≡ ok short_message)
        × (unpack_short_message class 0 short_message ≡ ok (two_headers, 104 ∷ 105 ∷ [])))
unpack_short_message-pack_example =
    unpack_short_message-pack class 0 two_headers (104 ∷ 105 ∷ [])
      (omega arith, omega arith, refl, (omega arith, omega arith, refl, tt)) refl

read_header-Read_example : Read (0 ∷ 3 ∷ 5 ∷ 2 ∷ 1 ∷ 9 ∷ []) ((0, 5 ∷ 2 ∷ 1 ∷ []) ∷ [])
read_header-Read_example =
    read_header-Read (0 ∷ 3 ∷ 5 ∷ 2 ∷ 1 ∷ 9 ∷ []) ((0, 5 ∷ 2 ∷ 1 ∷ []) ∷ []) (omega arith)
      (unfold ShortMessage.read_header in unfold ShortMessage.header_loop in refl)
