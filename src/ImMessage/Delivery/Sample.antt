-- ===== src/ImMessage/Delivery/Sample.antt =====
-- Generated classes for the tests of the services.
use im_single.Base.{ℕ, Option, none, some}
use im_single.Maps.{String}
use im_single.ImMessage.Delivery.{Protobuf, KafkaMessage, DataType, EventType}

-- Bytes that keep what they are made of.
pub data SampleBytes : Type 0 where
  no_bytes : SampleBytes
  of_message : String → SampleBytes
  of_event : EventType → String → SampleBytes
  of_record : DataType → SampleBytes → String → String → ℕ → String → SampleBytes

abbrev message_in : SampleBytes → Option String
message_in (of_message text) = some text
message_in other = none

abbrev event_in : SampleBytes → Option (EventType × String)
event_in (of_event type channel) = some (type, channel)
event_in other = none

abbrev record_in : SampleBytes → Option (KafkaMessage SampleBytes)
record_in (of_record type inner from to now id) = some (record {
  data_type = type;
  data_bytes = inner;
  sender = from;
  to = to;
  timestamp = now;
  node_id = id;
})
record_in other = none

abbrev pub sample : Protobuf
sample = record {
  Bytes = SampleBytes;
  Message = String;
  Event = EventType × String;
  parse_message = message_in;
  message_bytes = of_message;
  parse_event = event_in;
  event_bytes = λ ev. of_event ev.0 ev.1;
  get_type = λ ev. ev.0;
  get_channel_id = λ ev. ev.1;
  parse_record = record_in;
  record_bytes = λ r. of_record r.data_type r.data_bytes r.sender r.to r.timestamp r.node_id;
}
