-- ===== src/Proto/Tests/ClassesTests.antt =====
-- The theorems on all four classes at concrete messages.
use im_single.Base.{
  ℕ, suc, ◌+◌, arith, false, pos, negsuc, none, some, [], ◌∷◌, ◌≡◌, refl, returned,
}
use im_single.Jspb.Format.{varint, delimited, fixed}
use im_single.Jspb.Sample.{
  byte_length, Slots, Packed, sample, sample_meaning, decode, empty, put, numeral, text, object,
  fields, of_list,
}
use im_single.Jspb.Sample.Laws.{sample_objects, sample_reading, sample_writing}
use im_single.Proto.Schema.Distinct.{not_in}
use im_single.Proto.Packet
use im_single.Proto.Message
use im_single.Proto.Event
use im_single.Proto.Data
use im_single.Proto.Classes.{
  unknown_field, packet_class, message_class, event_class, data_class, serialize_binary,
  deserialize_binary, to_object, accessors, unknown_field, round_trip, deserialize-merge_all,
  serialize-wires,
}
use im_single.Proto.Schema.{packet_schema}
use im_single.Proto.Schema.Plain.{plain, valid, wires}
use im_single.Proto.Schema.Merge.{merge, merge_field}
use im_single.Proto.Tests.{joined, record_of, hi, room, hello, packet, hello_bytes}

accessors_example :
    Packet.Accessors.Accessors sample packet (pos 1) (negsuc 0) (some hello) none
    × Message.Accessors.Accessors sample packet (pos 1) hi (negsuc 0)
    × Event.Accessors.Accessors sample packet hi room (pos 1) (negsuc 0)
    × Data.Accessors.Accessors sample packet hi room hi (negsuc 0)
accessors_example =
    accessors sample sample_objects packet (pos 1) (negsuc 0) hi room hi (some hello) none

round_trip_example :
    (bytes : Packed) × (o' : Slots) × (Packet.serialize_binary sample packet ≡ returned bytes)
    × ((extra : ℕ)
        → Packet.deserialize_binary sample (suc (sample.byte_length bytes + extra)) bytes
          ≡ returned o')
    × (Packet.to_object sample false o' ≡ Packet.to_object sample false packet)
unfolding plain valid
round_trip_example =
    round_trip sample sample_meaning sample_objects sample_writing sample_reading packet_class
      packet refl

-- The same of the other classes.
message_round_trip :
    (bytes : Packed) × (o' : Slots) × (serialize_binary sample message_class hello ≡ returned bytes)
    × ((extra : ℕ)
        → deserialize_binary sample message_class (suc (sample.byte_length bytes + extra)) bytes
          ≡ returned o')
    × (to_object sample message_class false o' ≡ to_object sample message_class false hello)
unfolding plain valid
message_round_trip =
    round_trip sample sample_meaning sample_objects sample_writing sample_reading message_class
      hello refl

event_round_trip :
    (bytes : Packed) × (o' : Slots) × (serialize_binary sample event_class joined ≡ returned bytes)
    × ((extra : ℕ)
        → deserialize_binary sample event_class (suc (sample.byte_length bytes + extra)) bytes
          ≡ returned o')
    × (to_object sample event_class false o' ≡ to_object sample event_class false joined)
unfolding plain valid
event_round_trip =
    round_trip sample sample_meaning sample_objects sample_writing sample_reading event_class joined
      refl

data_round_trip :
    (bytes : Packed) × (o' : Slots) × (serialize_binary sample data_class record_of
      ≡ returned bytes)
    × ((extra : ℕ)
        → deserialize_binary sample data_class (suc (sample.byte_length bytes + extra)) bytes
          ≡ returned o')
    × (to_object sample data_class false o' ≡ to_object sample data_class false record_of)
unfolding plain valid
data_round_trip =
    round_trip sample sample_meaning sample_objects sample_writing sample_reading data_class
      record_of refl

deserialize-merge_all_example :
    Packet.deserialize_binary sample 20
      (fields (of_list (varint 1 (pos 1) ∷ delimited 3 hello_bytes ∷ [])))
    ≡ returned (
        put 3
          (object (put 2 (text hi) (put 1 (numeral (pos 1)) empty)))
          (put 1 (numeral (pos 1)) empty))
unfolding merge merge_field byte_length
deserialize-merge_all_example =
    deserialize-merge_all sample sample_meaning sample_reading packet_class 20
      (fields (of_list (varint 1 (pos 1) ∷ delimited 3 hello_bytes ∷ [])))
      (varint 1 (pos 1) ∷ delimited 3 hello_bytes ∷ [])
      (put 3 (object (put 2 (text hi) (put 1 (numeral (pos 1)) empty)))
        (put 1 (numeral (pos 1)) empty))
      (omega arith) refl refl

unknown_field_example :
    Event.deserialize_binary sample 20
      (fields (of_list (varint 3 (pos 1) ∷ fixed 9 ∷ varint 4 (pos 5) ∷ [])))
    ≡ returned (put 4 (numeral (pos 5)) (put 3 (numeral (pos 1)) empty))
unfolding not_in merge merge_field byte_length
unknown_field_example =
    unknown_field sample sample_meaning sample_reading event_class 20
      (fields (of_list (varint 3 (pos 1) ∷ fixed 9 ∷ varint 4 (pos 5) ∷ [])))
      (varint 3 (pos 1) ∷ []) (varint 4 (pos 5) ∷ []) (fixed 9)
      (put 4 (numeral (pos 5)) (put 3 (numeral (pos 1)) empty)) (omega arith) refl refl refl

serialize-wires_example :
    (bytes : Packed) × (Packet.serialize_binary sample packet ≡ returned bytes)
    × (decode bytes ≡ some (wires sample sample_meaning (plain sample packet_schema packet)))
unfolding plain valid
serialize-wires_example =
    serialize-wires sample sample_meaning sample_writing packet_class packet refl
