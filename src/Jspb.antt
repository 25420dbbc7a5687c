-- ===== src/Jspb.antt =====
-- The interface of load-test/google-protobuf.js, a copy of another project's library, to the code of
-- load-test/packet_pb.js: what that code calls, and the documented behaviour it relies on.
pub mod Runtime
pub mod Laws
pub mod Format
pub mod Sample
