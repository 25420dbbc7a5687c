-- ===== src/Proto/Enums.antt =====
-- The enumerations of load-test/packet_pb.js: `proto.DataType`, `proto.EventType` and
-- `proto.MessageType`, each an object from names to numbers.
use im_single.Base.{ℤ, pos}

pub data DataType : Type 0 where
  message notion : DataType

pub data EventType : Type 0 where
  online offline join leave mute un_mute kick : EventType

pub data MessageType : Type 0 where
  text image voice video file location command : MessageType

unfoldable pub data_type : DataType → ℤ
data_type DataType.message = pos 0
data_type notion = pos 1

unfoldable pub event_type : EventType → ℤ
event_type online = pos 0
event_type offline = pos 1
event_type join = pos 2
event_type leave = pos 3
event_type mute = pos 4
event_type un_mute = pos 5
event_type kick = pos 6

unfoldable pub message_type : MessageType → ℤ
message_type text = pos 0
message_type image = pos 1
message_type voice = pos 2
message_type video = pos 3
message_type file = pos 4
message_type location = pos 5
message_type command = pos 6
