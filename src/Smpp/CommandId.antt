-- ===== src/Smpp/CommandId.antt =====
-- libs/smpp/common/command_id.hpp and bind_type.hpp.
use smppgw.Base.{ℕ}

abbrev pub generic_nack : ℕ
generic_nack = 0x80000000

abbrev pub bind_receiver : ℕ
bind_receiver = 0x00000001

abbrev pub bind_receiver_resp : ℕ
bind_receiver_resp = 0x80000001

abbrev pub bind_transmitter : ℕ
bind_transmitter = 0x00000002

abbrev pub bind_transmitter_resp : ℕ
bind_transmitter_resp = 0x80000002

abbrev pub query_sm : ℕ
query_sm = 0x00000003

abbrev pub query_sm_resp : ℕ
query_sm_resp = 0x80000003

abbrev pub submit_sm : ℕ
submit_sm = 0x00000004

abbrev pub submit_sm_resp : ℕ
submit_sm_resp = 0x80000004

abbrev pub deliver_sm : ℕ
deliver_sm = 0x00000005

abbrev pub deliver_sm_resp : ℕ
deliver_sm_resp = 0x80000005

abbrev pub unbind : ℕ
unbind = 0x00000006

abbrev pub unbind_resp : ℕ
unbind_resp = 0x80000006

abbrev pub replace_sm : ℕ
replace_sm = 0x00000007

abbrev pub replace_sm_resp : ℕ
replace_sm_resp = 0x80000007

abbrev pub cancel_sm : ℕ
cancel_sm = 0x00000008

abbrev pub cancel_sm_resp : ℕ
cancel_sm_resp = 0x80000008

abbrev pub bind_transceiver : ℕ
bind_transceiver = 0x00000009

abbrev pub bind_transceiver_resp : ℕ
bind_transceiver_resp = 0x80000009

abbrev pub outbind : ℕ
outbind = 0x0000000b

abbrev pub enquire_link : ℕ
enquire_link = 0x00000015

abbrev pub enquire_link_resp : ℕ
enquire_link_resp = 0x80000015

abbrev pub submit_multi : ℕ
submit_multi = 0x00000021

abbrev pub submit_multi_resp : ℕ
submit_multi_resp = 0x80000021

abbrev pub alert_notification : ℕ
alert_notification = 0x00000102

abbrev pub data_sm : ℕ
data_sm = 0x00000103

abbrev pub data_sm_resp : ℕ
data_sm_resp = 0x80000103

pub data BindType : Type 0 where
  receiver transmitter transceiver : BindType

-- `command_id_of` at a `bind_request` and at a `bind_resp`.
abbrev pub bind_command : BindType → ℕ
bind_command BindType.transmitter = bind_transmitter
bind_command BindType.receiver = bind_receiver
bind_command BindType.transceiver = bind_transceiver

abbrev pub bind_command_resp : BindType → ℕ
bind_command_resp BindType.transmitter = bind_transmitter_resp
bind_command_resp BindType.receiver = bind_receiver_resp
bind_command_resp BindType.transceiver = bind_transceiver_resp
