-- ===== src/Proto/Schema.antt =====
-- load-test/packet.proto: the messages as it declares them, and what a declaration means. This is
-- the description that load-test/packet_pb.js is held against.
pub mod Plain
pub mod Merge
pub mod Frame
pub mod Encode
pub mod Objects
pub mod Distinct
pub mod RoundTrip
use im_single.Base.{ℕ}

mutual
  pub data FieldType : Type 0 where
    enum int64 string : FieldType
    nested : Schema → FieldType

  -- The fields of a message with their numbers, in the order of the declaration.
  pub data Schema : Type 0 where
    end : Schema
    field : ℕ → FieldType → Schema → Schema

-- `message Message { MessageType type = 1; string content = 2; int64 timestamp = 3; }`
abbrev pub message_schema : Schema
message_schema = field 1 enum (field 2 string (field 3 int64 end))

-- `message Event { string channelId = 1; string userId = 2; EventType type = 3;
-- int64 timestamp = 4; }`
abbrev pub event_schema : Schema
event_schema = field 1 string (field 2 string (field 3 enum (field 4 int64 end)))

-- `message Data { string channelId = 1; string content = 2; string messageId = 3;
-- int64 timestamp = 4; }`
abbrev pub data_schema : Schema
data_schema = field 1 string (field 2 string (field 3 string (field 4 int64 end)))

-- `message Packet { DataType dataType = 1; int64 timestamp = 2; Message message = 3;
-- Event event = 4; }`
abbrev pub packet_schema : Schema
packet_schema =
    field 1 enum
      (field 2 int64 (field 3 (nested message_schema) (field 4 (nested event_schema) end)))
