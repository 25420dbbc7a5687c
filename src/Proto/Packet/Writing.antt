-- ===== src/Proto/Packet/Writing.antt =====
-- `proto.Packet.serializeBinary` against the declaration of the message, and the round trip.
use im_single.Base.{ℕ, suc, ◌+◌, arith, true, false, ◌&&◌, and_true, some, ◌≡◌, refl, returned}
use im_single.Jspb.Runtime.{Runtime}
use im_single.Jspb.Laws.{ObjectLaws}
use im_single.Jspb.Format.{Meaning, Writes, WriterLaws, ReaderLaws}
use im_single.Proto.Schema.{enum, int64, nested, packet_schema, message_schema, event_schema}
use im_single.Proto.Schema.Plain.{plain, value, valid, valid_value, wire, wires}
use im_single.Proto.Schema.Distinct.{distinct, not_in}
use im_single.Proto.Schema.Encode.{
  write_value, write_value-Writes, Writes-bind, Writes-last, Writes-present, Writes-buffer,
}
use im_single.Proto.Schema.RoundTrip.{merge_all-wires}
use im_single.Proto.Packet.Reading.{packet_deserialize-merge_all}
use im_single.Proto.Schema.Objects.{map-wrap}
use im_single.Proto.Message
use im_single.Proto.Event
use im_single.Proto.Packet.{
  emit_datatype, emit_timestamp, get_message, emit_message, get_event, emit_event, to_object,
  serialize_binary_to_writer, serialize_binary, deserialize_binary,
}

module _ (j : Runtime) (m : Meaning j) where
  open j use {Obj, Bytes, Writer, get_wrapper_field, initialize}
  open m use {decode}

  module _ (writing : WriterLaws j m) where
    -- The tests of a valid object, one for each field.
    valid_fields :
        (o : Obj)
        → valid j m (plain j packet_schema o) ≡ true
        → (valid_value j m (value j enum o 1) ≡ true)
          × (valid_value j m (value j int64 o 2) ≡ true)
          × (valid_value j m (value j (nested message_schema) o 3) ≡ true)
          × (valid_value j m (value j (nested event_schema) o 4) ≡ true)
    unfolding valid plain
    valid_fields o h =
        let (v1, h1) =
          and_true (valid_value j m (value j enum o 1))
            (valid_value j m (value j int64 o 2)
              && (valid_value j m (value j (nested message_schema) o 3)
                  && (valid_value j m (value j (nested event_schema) o 4) && true)))
            h in
        let (v2, h2) =
          and_true (valid_value j m (value j int64 o 2))
            (valid_value j m (value j (nested message_schema) o 3)
              && (valid_value j m (value j (nested event_schema) o 4) && true))
            h1 in
        let (v3, h3) =
          and_true (valid_value j m (value j (nested message_schema) o 3))
            (valid_value j m (value j (nested event_schema) o 4) && true) h2 in
        let (v4, h4) = and_true (valid_value j m (value j (nested event_schema) o 4)) true h3 in
        (v1, v2, v3, v4)

    emit_datatype-Writes :
        (o : Obj)
        → valid_value j m (value j enum o 1) ≡ true
        → Writes j m (emit_datatype j o) (wire j m 1 (value j enum o 1))
    unfolding emit_datatype value write_value
    emit_datatype-Writes o h = write_value-Writes j m writing 1 (value j enum o 1) refl h

    emit_timestamp-Writes :
        (o : Obj)
        → valid_value j m (value j int64 o 2) ≡ true
        → Writes j m (emit_timestamp j o) (wire j m 2 (value j int64 o 2))
    unfolding emit_timestamp value write_value
    emit_timestamp-Writes o h = write_value-Writes j m writing 2 (value j int64 o 2) refl h

    emit_message-Writes :
        (o : Obj)
        → valid_value j m (value j (nested message_schema) o 3) ≡ true
        → Writes j m (emit_message j o) (wire j m 3 (value j (nested message_schema) o 3))
    unfolding emit_message value Message.construct
    emit_message-Writes o h =
        Writes-present j m writing message_schema 3 (get_wrapper_field o initialize 3) _ refl
          (Message.Writing.message_serialize-Writes j m writing) h

    emit_event-Writes :
        (o : Obj)
        → valid_value j m (value j (nested event_schema) o 4) ≡ true
        → Writes j m (emit_event j o) (wire j m 4 (value j (nested event_schema) o 4))
    unfolding emit_event value Event.construct
    emit_event-Writes o h =
        Writes-present j m writing event_schema 4 (get_wrapper_field o initialize 4) _ refl
          (Event.Writing.event_serialize-Writes j m writing) h

    pub packet_serialize-Writes :
        (o : Obj)
        → valid j m (plain j packet_schema o) ≡ true
        → Writes j m (serialize_binary_to_writer j o) (wires j m (plain j packet_schema o))
    unfolding serialize_binary_to_writer wires plain
    packet_serialize-Writes o h =
        let (v1, v2, v3, v4) = valid_fields o h in
        Writes-bind j m (emit_datatype j o) _ _ _ (emit_datatype-Writes o v1) (
          Writes-bind j m (emit_timestamp j o) _ _ _ (emit_timestamp-Writes o v2) (
            Writes-bind j m (emit_message j o) _ _ _ (emit_message-Writes o v3)
              (Writes-last j m (emit_event j o) _ (emit_event-Writes o v4))))

    -- `serializeBinary` of a message whose numbers are in range and whose strings are well formed
    -- returns bytes that stand for its fields in the order of packet.proto, each with the number and
    -- the wire type of its declaration, the fields that hold their default left out.
    pub packet_serialize-wires :
        (o : Obj)
        → valid j m (plain j packet_schema o) ≡ true
        → (bytes : Bytes) × (serialize_binary j o ≡ returned bytes)
          × (decode bytes ≡ some (wires j m (plain j packet_schema o)))
    unfolding serialize_binary
    packet_serialize-wires o h =
        let (w, e, d) =
          Writes-buffer j m writing (serialize_binary_to_writer j o) (plain j packet_schema o) h
            (packet_serialize-Writes o h) in
        (j.get_result_buffer w, rw e, d)

  -- Two messages with the same values look the same.
  pub packet_to_object-plain :
      (a b : Obj)
      → plain j packet_schema a ≡ plain j packet_schema b
      → to_object j false a ≡ to_object j false b
  unfolding to_object plain value get_message Message.construct get_event Event.construct
  packet_to_object-plain a b h =
      let same_message : value j (nested message_schema) a 3 ≡ value j (nested message_schema) b 3 =
        cc in
      let same_event : value j (nested event_schema) a 4 ≡ value j (nested event_schema) b 4 = cc in
      cc (
        map-wrap (Message.to_object j false) (plain j message_schema) (get_message j a)
            (get_message j b) (Message.Writing.message_to_object-plain j m) same_message,
        map-wrap (Event.to_object j false) (plain j event_schema) (get_event j a) (get_event j b)
            (Event.Writing.event_to_object-plain j m) same_event,
      )

  module _ (objects : ObjectLaws j) (writing : WriterLaws j m) (reading : ReaderLaws j m) where
    -- A message whose numbers are in range and whose strings are well formed goes through
    -- `serializeBinary` and, given a round for each byte and one more, `deserializeBinary`: both
    -- return, and the result has the same `toObject()` as the message.
    pub packet_round_trip :
        (o : Obj)
        → valid j m (plain j packet_schema o) ≡ true
        → (bytes : Bytes) × (o' : Obj) × (serialize_binary j o ≡ returned bytes)
          × ((extra : ℕ)
              → deserialize_binary j (suc (j.byte_length bytes + extra)) bytes ≡ returned o')
          × (to_object j false o' ≡ to_object j false o)
    unfolding distinct not_in
    packet_round_trip o h =
        let (bytes, e, d) = packet_serialize-wires writing o h in
        let (o', em, same) = merge_all-wires j m objects writing reading packet_schema o refl h in
        (
          bytes,
          o',
          e,
          λ extra.
              packet_deserialize-merge_all j m reading (suc (j.byte_length bytes + extra)) bytes _
                o' (omega arith) d em,
          packet_to_object-plain o' o same,
        )
