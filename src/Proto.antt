-- ===== src/Proto.antt =====
-- load-test/packet_pb.js, the code that protoc made of load-test/packet.proto.
pub mod Enums
pub mod Reading
pub mod Schema
pub mod Message
pub mod Event
pub mod Data
pub mod Packet
pub mod Classes
mod Tests
