-- ===== src/Proto/Packet/Exchange.antt =====
-- A packet that one side makes with the setters, and what the getters of the other side find in it.
use mathlib.Core.Option
use im_single.Base.{
  ℕ, suc, ℤ, ◌+◌, true, false, Option, none, some, ◌≡◌, refl, ap, ◌∙◌, in_int32, in_safe, returned,
}
use im_single.Jspb.Runtime.{Runtime, JsString}
use im_single.Jspb.Laws.{ObjectLaws}
use im_single.Jspb.Format.{Meaning, WriterLaws, ReaderLaws}
use im_single.Proto.Enums.{MessageType, DataType, message_type, data_type}
use im_single.Proto.Schema.{message_schema, packet_schema}
use im_single.Proto.Schema.Plain.{plain, value, valid, valid_value}
use im_single.Proto.Message
use im_single.Proto.Event
use im_single.Proto.Packet.{
  construct, get_datatype, set_datatype, get_timestamp, set_timestamp, get_message, set_message,
  get_event, serialize_binary, deserialize_binary, to_object,
}
use im_single.Proto.Packet.Writing.{packet_round_trip}

module _ {A B : Type 0} (f : A → B) where
  pub map-some :
      (o : Option A) (b : B) → Option.map f o ≡ some b → (a : A) × (o ≡ some a) × (f a ≡ b)
  map-some none b h = cc
  map-some (some a) b h = (a, refl, cc)

  pub map-none : (o : Option A) → Option.map f o ≡ none → o ≡ none
  map-none none h = refl
  map-none (some a) h = cc

message_type_fits : (t : MessageType) → in_int32 (message_type t) ≡ true
unfolding message_type
message_type_fits MessageType.text = refl
message_type_fits MessageType.image = refl
message_type_fits MessageType.voice = refl
message_type_fits MessageType.video = refl
message_type_fits MessageType.file = refl
message_type_fits MessageType.location = refl
message_type_fits MessageType.command = refl

pub data_type_fits : (t : DataType) → in_int32 (data_type t) ≡ true
unfolding data_type
data_type_fits DataType.message = refl
data_type_fits DataType.notion = refl

module _ (j : Runtime) where
  open j use {Obj, Bytes, byte_length, initialize, get_number_with_default, get_wrapper_field}

  abbrev pub new_message : MessageType → JsString → ℤ → Obj
  new_message t content sent =
      Message.set_timestamp j
        (Message.set_content j (Message.set_type j (Message.construct j none) (message_type t))
          content)
        sent

  -- The nested message last, as a sender makes it.
  abbrev pub new_packet : DataType → ℤ → Obj → Obj
  new_packet t time inner =
      set_message j (set_timestamp j (set_datatype j (construct j none) (data_type t)) time)
        (some inner)

  module _ (objects : ObjectLaws j) where
    message_values :
        (t : MessageType) (content : JsString) (sent : ℤ)
        → (Message.get_type j (new_message t content sent) ≡ message_type t)
          × (Message.get_content j (new_message t content sent) ≡ content)
          × (Message.get_timestamp j (new_message t content sent) ≡ sent)
    unfolding Message.get_type Message.get_content Message.get_timestamp Message.set_type
        Message.set_content Message.set_timestamp
    message_values t content sent = (
      objects.number-set_int _ 3 1 sent
          ∙ (objects.number-set_string _ 2 1 content refl ∙ objects.number-set_enum _ 1 1 _),
      objects.string-set_int _ 3 2 sent refl ∙ objects.string-set_string _ 2 2 content,
      objects.number-set_int _ 3 3 sent,
    )

    packet_values :
        (t : DataType) (time : ℤ) (inner : Obj)
        → (get_datatype j (new_packet t time inner) ≡ data_type t)
          × (get_timestamp j (new_packet t time inner) ≡ time)
          × (get_message j (new_packet t time inner) ≡ some inner)
          × (get_event j (new_packet t time inner) ≡ none)
    unfolding get_datatype get_timestamp get_message get_event set_datatype set_timestamp
        set_message construct Message.construct Event.construct
    packet_values t time inner = (
      objects.number-set_wrapper _ 3 1 _ refl
          ∙ (objects.number-set_int _ 2 1 time ∙ objects.number-set_enum _ 1 1 _),
      objects.number-set_wrapper _ 3 2 _ refl ∙ objects.number-set_int _ 2 2 time,
      objects.wrapper-set_wrapper _ _ 3 3 _,
      objects.wrapper-set_wrapper _ _ 3 4 _
          ∙ (objects.wrapper-set_int _ _ 2 4 time refl
              ∙ (objects.wrapper-set_enum _ _ 1 4 _ refl ∙ objects.wrapper-new _ 4)),
    )

  module _ (m : Meaning j) (objects : ObjectLaws j) where
    open m use {well_formed}

    valid-new_message :
        (t : MessageType) (content : JsString) (sent : ℤ)
        → well_formed content ≡ true
        → in_safe sent ≡ true
        → valid j m (plain j message_schema (new_message t content sent)) ≡ true
    unfolding valid valid_value plain value Message.get_type Message.get_content
        Message.get_timestamp
    valid-new_message t content sent hc hs =
        let (v1, v2, v3) = message_values objects t content sent in
        rw (v1, v2, v3, message_type_fits t, hc, hs)

    valid-new_packet :
        (t : DataType) (time : ℤ) (inner : Obj)
        → in_safe time ≡ true
        → valid j m (plain j message_schema inner) ≡ true
        → valid j m (plain j packet_schema (new_packet t time inner)) ≡ true
    unfolding valid valid_value plain value get_datatype get_timestamp get_message get_event
        Message.construct Event.construct
    valid-new_packet t time inner ht hi =
        let (v1, v2, v3, v4) = packet_values objects t time inner in
        rw (v1, v2, v3, v4, data_type_fits t, ht, hi)

    -- A packet with a message of any type and any well formed content, both with a time in range, set on
    -- new objects, is serialized; who reads the bytes, given a round for each byte and one more, finds with
    -- the getters the type of the packet, the two times, the type and the content of the message, and no
    -- event.
    pub packet_exchange :
        WriterLaws j m
        → ReaderLaws j m
        → (d : DataType) (t : MessageType) (content : JsString) (sent time : ℤ)
        → well_formed content ≡ true
        → in_safe sent ≡ true
        → in_safe time ≡ true
        → (bytes : Bytes) × (o : Obj) × (i : Obj) × (serialize_binary j
              (new_packet d time (new_message t content sent))
            ≡ returned bytes)
          × ((extra : ℕ)
              → deserialize_binary j (suc (byte_length bytes + extra)) bytes ≡ returned o)
          × (get_datatype j o ≡ data_type d)
          × (get_timestamp j o ≡ time)
          × (get_message j o ≡ some i)
          × (get_event j o ≡ none)
          × (Message.get_type j i ≡ message_type t)
          × (Message.get_content j i ≡ content)
          × (Message.get_timestamp j i ≡ sent)
    unfolding to_object get_datatype get_timestamp Message.to_object Message.get_type
        Message.get_content Message.get_timestamp
    packet_exchange writing reading d t content sent time hc hs ht =
        let inner = new_message t content sent in
        let (v1, v2, v3, v4) = packet_values objects d time inner in
        let (i1, i2, i3) = message_values objects t content sent in
        let (bytes, o, written, reads, same) =
          packet_round_trip j m objects writing reading (new_packet d time inner)
            (valid-new_packet d time inner ht (valid-new_message t content sent hc hs)) in
        let (i, found, like) =
          map-some (Message.to_object j false) (get_message j o) (Message.to_object j false inner)
            (ap (λ r. r.message) same ∙ ap (Option.map (Message.to_object j false)) v3) in
        let no_event =
          map-none (Event.to_object j false) (get_event j o)
            (ap (λ r. r.event) same ∙ ap (Option.map (Event.to_object j false)) v4) in
        (
          bytes,
          o,
          i,
          written,
          reads,
          ap (λ r. r.datatype) same ∙ v1,
          ap (λ r. r.timestamp) same ∙ v2,
          found,
          no_event,
          ap (λ r. r.type) like ∙ i1,
          ap (λ r. r.content) like ∙ i2,
          ap (λ r. r.timestamp) like ∙ i3,
        )
