-- ===== src/Smpp/Pdu/Requests.antt =====
-- The requests of libs/smpp/pdu, a record for each struct and what `detail` says of it.
mod Binding
mod Submitting
mod Delivering
mod Transferring
mod Asking
pub use Binding.{BindRequest, AlertNotification}
unfoldable pub use Binding.{bind_request_pdu, alert_notification_pdu}
pub use Submitting.{SubmitSm}
unfoldable pub use Submitting.{submit_sm_pdu}
pub use Delivering.{DeliverSm}
unfoldable pub use Delivering.{deliver_sm_pdu}
pub use Transferring.{DataSm, ReplaceSm}
unfoldable pub use Transferring.{data_sm_pdu, replace_sm_pdu}
pub use Asking.{QuerySm, CancelSm}
unfoldable pub use Asking.{query_sm_pdu, cancel_sm_pdu}
