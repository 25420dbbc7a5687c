-- ===== src/Proto/Tests/PacketTests.antt =====
-- The theorems on `proto.Packet` at concrete messages.
use im_single.Base.{arith, pos, true, false, none, some, [], ◌∷◌, ◌≡◌, refl, returned}
use im_single.Jspb.Format.{varint, delimited}
use im_single.Jspb.Sample.{
  byte_length, Slots, sample, sample_meaning, empty, put, numeral, text, object, chars, fields,
  of_list,
}
use im_single.Jspb.Sample.Laws.{sample_objects, sample_reading}
use im_single.Proto.Schema.Merge.{merge, merge_field}
use im_single.Proto.Packet
use im_single.Proto.Packet.{PacketObject}
use im_single.Proto.Tests.{hi, hello, packet, hello_bytes}

packet_presence_example :
    (Packet.has_message sample (Packet.set_message sample packet (some hello)) ≡ true)
    × (Packet.has_event sample (Packet.set_message sample packet (some hello))
        ≡ Packet.has_event sample packet)
    × (Packet.has_event sample (Packet.set_event sample packet (some hello)) ≡ true)
    × (Packet.has_message sample (Packet.set_event sample packet (some hello))
        ≡ Packet.has_message sample packet)
    × (Packet.has_message sample (Packet.construct sample none) ≡ false)
    × (Packet.has_event sample (Packet.construct sample none) ≡ false)
    × (Packet.has_message sample (Packet.clear_message sample packet) ≡ false)
    × (Packet.has_event sample (Packet.clear_message sample packet)
        ≡ Packet.has_event sample packet)
    × (Packet.get_message sample (Packet.clear_message sample packet) ≡ none)
    × (Packet.get_event sample (Packet.clear_message sample packet)
        ≡ Packet.get_event sample packet)
    × (Packet.get_timestamp sample (Packet.clear_message sample packet)
        ≡ Packet.get_timestamp sample packet)
    × (Packet.get_datatype sample (Packet.clear_message sample packet)
        ≡ Packet.get_datatype sample packet)
    × (Packet.has_event sample (Packet.clear_event sample packet) ≡ false)
    × (Packet.has_message sample (Packet.clear_event sample packet)
        ≡ Packet.has_message sample packet)
    × (Packet.get_event sample (Packet.clear_event sample packet) ≡ none)
    × (Packet.get_message sample (Packet.clear_event sample packet)
        ≡ Packet.get_message sample packet)
    × (Packet.get_timestamp sample (Packet.clear_event sample packet)
        ≡ Packet.get_timestamp sample packet)
    × (Packet.get_datatype sample (Packet.clear_event sample packet)
        ≡ Packet.get_datatype sample packet)
packet_presence_example = Packet.Accessors.packet_presence sample sample_objects packet hello

-- An earlier nested message with a timestamp, then one without.
abbrev earlier : Slots
earlier = put 3 (object (put 3 (numeral (pos 8)) empty)) empty

packet_last_message_example :
    (msg : Slots) × (Packet.deserialize_binary sample 20 (
        fields (
          of_list (
            delimited 3 (fields (of_list (varint 3 (pos 8) ∷ []))) ∷ delimited 3 hello_bytes ∷ [])))
      ≡ returned msg)
    × (Packet.get_message sample msg ≡ some (put 2 (text hi) (put 1 (numeral (pos 1)) empty)))
    × (Packet.get_event sample msg ≡ Packet.get_event sample earlier)
    × (Packet.get_datatype sample msg ≡ Packet.get_datatype sample earlier)
    × (Packet.get_timestamp sample msg ≡ Packet.get_timestamp sample earlier)
unfolding merge merge_field byte_length
packet_last_message_example =
    Packet.Evolution.packet_last_message sample sample_meaning sample_reading sample_objects 20
      (fields (
        of_list
          (delimited 3 (fields (of_list (varint 3 (pos 8) ∷ []))) ∷ delimited 3 hello_bytes ∷ [])))
      hello_bytes (delimited 3 (fields (of_list (varint 3 (pos 8) ∷ []))) ∷ [])
      (varint 1 (pos 1) ∷ delimited 2 (chars hi) ∷ []) earlier
      (put 2 (text hi) (put 1 (numeral (pos 1)) empty)) (omega arith) refl refl refl refl
