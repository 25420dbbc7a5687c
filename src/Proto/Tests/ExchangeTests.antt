-- ===== src/Proto/Tests/ExchangeTests.antt =====
-- A packet that goes from one side to the other, over the sample of the interface.
use im_single.Base.{ℕ, suc, ◌+◌, pos, negsuc, none, some, ◌≡◌, refl, returned}
use im_single.Jspb.Sample.{Slots, Packed, sample, sample_meaning}
use im_single.Jspb.Sample.Laws.{sample_objects, sample_writing, sample_reading}
use im_single.Proto.Enums.{DataType, MessageType, EventType, data_type, message_type, event_type}
use im_single.Proto.Message
use im_single.Proto.Event
use im_single.Proto.Packet
use im_single.Proto.Packet.Exchange.{new_message, new_packet, packet_exchange}
use im_single.Proto.Packet.EventExchange
use im_single.Proto.Packet.EventExchange.{new_event, event_exchange}
use im_single.Proto.Tests.{hi, room}

packet_exchange_example :
    (bytes : Packed) × (o : Slots) × (i : Slots) × (Packet.serialize_binary sample (
        new_packet sample DataType.notion
          (pos 1700000000000)
          (new_message sample MessageType.image hi (negsuc 4)))
      ≡ returned bytes)
    × ((extra : ℕ)
        → Packet.deserialize_binary sample (suc (sample.byte_length bytes + extra)) bytes
          ≡ returned o)
    × (Packet.get_datatype sample o ≡ pos 1)
    × (Packet.get_timestamp sample o ≡ pos 1700000000000)
    × (Packet.get_message sample o ≡ some i)
    × (Packet.get_event sample o ≡ none)
    × (Message.get_type sample i ≡ pos 1)
    × (Message.get_content sample i ≡ hi)
    × (Message.get_timestamp sample i ≡ negsuc 4)
unfolding data_type message_type
packet_exchange_example =
    packet_exchange sample sample_meaning sample_objects sample_writing sample_reading
      DataType.notion MessageType.image hi (negsuc 4) (pos 1700000000000) refl refl refl

event_exchange_example :
    (bytes : Packed) × (o : Slots) × (i : Slots) × (Packet.serialize_binary sample (
        EventExchange.new_packet sample DataType.message
          (pos 9)
          (new_event sample EventType.kick room hi (pos 0)))
      ≡ returned bytes)
    × ((extra : ℕ)
        → Packet.deserialize_binary sample (suc (sample.byte_length bytes + extra)) bytes
          ≡ returned o)
    × (Packet.get_datatype sample o ≡ pos 0)
    × (Packet.get_timestamp sample o ≡ pos 9)
    × (Packet.get_message sample o ≡ none)
    × (Packet.get_event sample o ≡ some i)
    × (Event.get_channelid sample i ≡ room)
    × (Event.get_userid sample i ≡ hi)
    × (Event.get_type sample i ≡ pos 6)
    × (Event.get_timestamp sample i ≡ pos 0)
unfolding data_type event_type
event_exchange_example =
    event_exchange sample sample_meaning sample_objects sample_writing sample_reading
      DataType.message EventType.kick room hi (pos 0) (pos 9) refl refl refl refl
