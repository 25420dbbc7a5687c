-- ===== src/Proto/Tests/MessageTests.antt =====
-- A field of `proto.Message` that cannot be read, and the method `toObject` of the four classes.
use im_single.Base.{[], ◌∷◌, ◌≡◌, refl, thrown, pos, negsuc, some, none, true, false}
use im_single.Jspb.Format.{fixed}
use im_single.Jspb.Sample.{sample, fields, of_list}
use im_single.Proto.Reading.{read_fields}
use im_single.Proto.Message
use im_single.Proto.Message.{MessageObject}
use im_single.Proto.Event
use im_single.Proto.Data
use im_single.Proto.Packet
use im_single.Proto.Tests.{hi, room, hello, joined, record_of, packet}

-- A field with the wire type of another is refused: the read throws.
wrong_wire_type : Message.deserialize_binary sample 5 (fields (of_list (fixed 1 ∷ []))) ≡ thrown
unfolding Message.deserialize_binary Message.deserialize_binary_from_reader Message.read_field
    read_fields
wrong_wire_type = refl

message_shown : Message.instance_to_object sample hello true ≡ record {
  type = pos 1;
  content = hi;
  timestamp = pos 1700000000000;
  jspb_message_instance = some hello;
}
unfolding Message.instance_to_object Message.to_object
message_shown = refl

event_shown : Event.instance_to_object sample joined false ≡ record {
  channelid = room;
  userid = hi;
  type = pos 2;
  timestamp = negsuc 4;
  jspb_message_instance = none;
}
unfolding Event.instance_to_object Event.to_object
event_shown = refl

data_shown : Data.instance_to_object sample record_of false ≡ record {
  channelid = room;
  content = [];
  messageid = hi;
  timestamp = pos 7;
  jspb_message_instance = none;
}
unfolding Data.instance_to_object Data.to_object
data_shown = refl

packet_shown : Packet.instance_to_object sample packet false ≡ record {
  datatype = pos 0;
  timestamp = pos 5;
  message = some (Message.to_object sample false hello);
  event = none;
  jspb_message_instance = none;
}
unfolding Packet.instance_to_object Packet.to_object Packet.get_message Packet.get_event
packet_shown = refl
