-- ===== src/Smpp.antt =====
-- libs/smpp: the SMPP codec. Each child says which headers it is about.
pub mod Byte
pub mod Oparam
pub mod EsmClass
pub mod RegisteredDelivery
pub mod CommandId
pub mod Wire
pub mod Pdu
pub mod ShortMessage
pub mod FlatBuffer
pub mod Session
pub mod Tests
