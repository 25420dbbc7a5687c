-- ===== src/ImMessage.antt =====
-- The message service: the connect nodes it knows and the delivery of messages to them.
pub mod NodeLoad
pub mod Delivery
pub mod NodeWatch
mod Tests
