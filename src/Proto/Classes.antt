-- ===== src/Proto/Classes.antt =====
-- What the four classes of load-test/packet_pb.js have in common.
use im_single.Base.{
  ℕ, suc, ◌+◌, ◌<◌, ◌∷◌, ◌++◌, ◌∙◌, ℤ, Bool, true, false, Option, none, some, ◌≡◌, Outcome,
  returned,
}
use im_single.Jspb.Runtime.{Runtime, JsString}
use im_single.Jspb.Laws.{ObjectLaws}
use im_single.Jspb.Format.{Wires, Meaning, WriterLaws, ReaderLaws, Wire, number}
use im_single.Proto.Schema.{Schema, packet_schema, message_schema, event_schema, data_schema}
use im_single.Proto.Schema.Plain.{plain, valid, wires}
use im_single.Proto.Schema.Merge.{merge_all, merge}
use im_single.Proto.Schema.Distinct.{not_in}
use im_single.Proto.Packet.Evolution.{merge_all-not_in}
use im_single.Proto.Packet
use im_single.Proto.Packet.{PacketObject}
use im_single.Proto.Message
use im_single.Proto.Message.{MessageObject}
use im_single.Proto.Event
use im_single.Proto.Event.{EventObject}
use im_single.Proto.Data
use im_single.Proto.Data.{DataObject}

-- The messages of load-test/packet.proto.
pub data MessageClass : Type 0 where
  packet_class message_class event_class data_class : MessageClass

abbrev pub schema_of : MessageClass → Schema
schema_of packet_class = packet_schema
schema_of message_class = message_schema
schema_of event_class = event_schema
schema_of data_class = data_schema

module _ (j : Runtime) where
  open j use {Obj, Bytes, byte_length, initialize}

  abbrev pub serialize_binary : MessageClass → Obj → Outcome Bytes
  serialize_binary packet_class = Packet.serialize_binary j
  serialize_binary message_class = Message.serialize_binary j
  serialize_binary event_class = Event.serialize_binary j
  serialize_binary data_class = Data.serialize_binary j

  abbrev pub deserialize_binary : MessageClass → ℕ → Bytes → Outcome Obj
  deserialize_binary packet_class = Packet.deserialize_binary j
  deserialize_binary message_class = Message.deserialize_binary j
  deserialize_binary event_class = Event.deserialize_binary j
  deserialize_binary data_class = Data.deserialize_binary j

  abbrev pub ObjectOf : MessageClass → Type 0
  ObjectOf packet_class = PacketObject Obj
  ObjectOf message_class = MessageObject Obj
  ObjectOf event_class = EventObject Obj
  ObjectOf data_class = DataObject Obj

  abbrev pub to_object : (c : MessageClass) → Bool → Obj → ObjectOf c
  to_object packet_class = Packet.to_object j
  to_object message_class = Message.to_object j
  to_object event_class = Event.to_object j
  to_object data_class = Data.to_object j

  -- A message of any of the four classes whose numbers are in range and whose strings are well formed
  -- goes through `serializeBinary` and, given a round for each byte and one more, `deserializeBinary`:
  -- both return, and the result has the same `toObject()` as the message.
  pub round_trip :
      (m : Meaning j)
      → ObjectLaws j
      → WriterLaws j m
      → ReaderLaws j m
      → (c : MessageClass) (o : Obj) → valid j m (plain j (schema_of c) o) ≡ true
      → (bytes : Bytes) × (o' : Obj) × (serialize_binary c o ≡ returned bytes)
        × ((extra : ℕ) → deserialize_binary c (suc (byte_length bytes + extra)) bytes ≡ returned o')
        × (to_object c false o' ≡ to_object c false o)
  round_trip m objects writing reading packet_class =
      Packet.Writing.packet_round_trip j m objects writing reading
  round_trip m objects writing reading message_class =
      Message.Writing.message_round_trip j m objects writing reading
  round_trip m objects writing reading event_class =
      Event.Writing.event_round_trip j m objects writing reading
  round_trip m objects writing reading data_class =
      Data.Writing.data_round_trip j m objects writing reading

  -- In each of the four classes a getter returns what the setter of its field stored, and a setter
  -- leaves the other fields of the message as they were, for any message and any values.
  pub accessors :
      ObjectLaws j
      → (o : Obj) (number time : ℤ) (text text' text'' : JsString) (part part' : Option Obj)
      → Packet.Accessors.Accessors j o number time part part'
        × Message.Accessors.Accessors j o number text time
        × Event.Accessors.Accessors j o text text' number time
        × Data.Accessors.Accessors j o text text' text'' time
  accessors laws o number time text text' text'' part part' = (
    Packet.Accessors.packet-Accessors j laws o number time part part',
    Message.Accessors.message-Accessors j laws o number text time,
    Event.Accessors.event-Accessors j laws o text text' number time,
    Data.Accessors.data-Accessors j laws o text text' text'' time,
  )

  -- If the bytes are a sequence of fields, each of the type that packet.proto declares for its number
  -- or with a number that it does not declare, the numbers are in the range of their types and the
  -- strings are UTF-8, then `deserializeBinary` of each of the four classes, given a round for each byte
  -- and one more, returns the message that results from setting each field in turn: a later field
  -- replaces an earlier one, and undeclared fields are passed over.
  pub deserialize-merge_all :
      (m : Meaning j)
      → ReaderLaws j m
      → (c : MessageClass) (rounds : ℕ) (bytes : Bytes) (xs : Wires j) (msg : Obj)
      → byte_length bytes < rounds
      → m.decode bytes ≡ some xs
      → merge_all (merge j m (schema_of c)) (initialize none) xs ≡ some msg
      → deserialize_binary c rounds bytes ≡ returned msg
  deserialize-merge_all m laws packet_class = Packet.Reading.packet_deserialize-merge_all j m laws
  deserialize-merge_all m laws message_class =
      Message.Reading.message_deserialize-merge_all j m laws
  deserialize-merge_all m laws event_class = Event.Reading.event_deserialize-merge_all j m laws
  deserialize-merge_all m laws data_class = Data.Reading.data_deserialize-merge_all j m laws

  pub unknown_field :
      (m : Meaning j)
      → ReaderLaws j m
      → (c : MessageClass) (rounds : ℕ) (bytes : Bytes) (xs ys : Wires j) (x : Wire Bytes)
        (msg : Obj)
      → byte_length bytes < rounds
      → m.decode bytes ≡ some (xs ++ x ∷ ys)
      → not_in (number x) (schema_of c) ≡ true
      → merge_all (merge j m (schema_of c)) (initialize none) (xs ++ ys) ≡ some msg
      → deserialize_binary c rounds bytes ≡ returned msg
  unknown_field m laws c rounds bytes xs ys x msg enough hd hx hm =
      deserialize-merge_all m laws c rounds bytes (xs ++ x ∷ ys) msg enough hd
        (merge_all-not_in j m (schema_of c) (initialize none) xs ys x hx ∙ hm)

  -- `serializeBinary` of each of the four classes, of a message whose numbers are in range and whose
  -- strings are well formed, returns bytes that stand for its fields in the order of packet.proto, each
  -- with the number and the wire type of its declaration, the fields that hold their default left out.
  pub serialize-wires :
      (m : Meaning j)
      → WriterLaws j m
      → (c : MessageClass) (o : Obj) → valid j m (plain j (schema_of c) o) ≡ true
      → (bytes : Bytes) × (serialize_binary c o ≡ returned bytes)
        × (m.decode bytes ≡ some (wires j m (plain j (schema_of c) o)))
  serialize-wires m laws packet_class = Packet.Writing.packet_serialize-wires j m laws
  serialize-wires m laws message_class = Message.Writing.message_serialize-wires j m laws
  serialize-wires m laws event_class = Event.Writing.event_serialize-wires j m laws
  serialize-wires m laws data_class = Data.Writing.data_serialize-wires j m laws
