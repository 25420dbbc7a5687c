-- ===== src/ImConnect.antt =====
-- The connect service: the channels of its clients and what it tells the message service of them.
pub mod Hub
pub mod Sessions
pub mod History
pub mod Opens
pub mod Closes
pub mod Refines
pub mod Broadcast
pub mod Messages
pub mod Notices
pub mod Cleanup
pub mod Authorize
mod Tests
