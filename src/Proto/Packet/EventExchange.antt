-- ===== src/Proto/Packet/EventExchange.antt =====
-- A packet with an event that one side makes with the setters, and what the getters of the other side
-- find in it.
use mathlib.Core.Option
use im_single.Base.{
  ℕ, suc, ℤ, ◌+◌, true, false, none, some, ◌≡◌, refl, ap, ◌∙◌, in_int32, in_safe, returned,
}
use im_single.Jspb.Runtime.{Runtime, JsString}
use im_single.Jspb.Laws.{ObjectLaws}
use im_single.Jspb.Format.{Meaning, WriterLaws, ReaderLaws}
use im_single.Proto.Enums.{EventType, DataType, event_type, data_type}
use im_single.Proto.Schema.{event_schema, packet_schema}
use im_single.Proto.Schema.Plain.{plain, value, valid, valid_value}
use im_single.Proto.Message
use im_single.Proto.Event
use im_single.Proto.Packet.{
  construct, get_datatype, set_datatype, get_timestamp, set_timestamp, get_message, set_event,
  get_event, serialize_binary, deserialize_binary, to_object,
}
use im_single.Proto.Packet.Writing.{packet_round_trip}
use im_single.Proto.Packet.Exchange.{map-some, map-none, data_type_fits}

event_type_fits : (t : EventType) → in_int32 (event_type t) ≡ true
unfolding event_type
event_type_fits EventType.online = refl
event_type_fits EventType.offline = refl
event_type_fits EventType.join = refl
event_type_fits EventType.leave = refl
event_type_fits EventType.mute = refl
event_type_fits EventType.un_mute = refl
event_type_fits EventType.kick = refl

module _ (j : Runtime) where
  open j use {Obj, Bytes, byte_length, initialize, get_number_with_default, get_wrapper_field}

  abbrev pub new_event : EventType → JsString → JsString → ℤ → Obj
  new_event t channel user sent =
      Event.set_timestamp j
        (Event.set_type j
          (Event.set_userid j (Event.set_channelid j (Event.construct j none) channel) user)
          (event_type t))
        sent

  abbrev pub new_packet : DataType → ℤ → Obj → Obj
  new_packet t time inner =
      set_event j (set_timestamp j (set_datatype j (construct j none) (data_type t)) time)
        (some inner)

  module _ (objects : ObjectLaws j) where
    event_values :
        (t : EventType) (channel user : JsString) (sent : ℤ)
        → (Event.get_channelid j (new_event t channel user sent) ≡ channel)
          × (Event.get_userid j (new_event t channel user sent) ≡ user)
          × (Event.get_type j (new_event t channel user sent) ≡ event_type t)
          × (Event.get_timestamp j (new_event t channel user sent) ≡ sent)
    unfolding Event.get_type Event.get_channelid Event.get_userid Event.get_timestamp Event.set_type
        Event.set_channelid Event.set_userid Event.set_timestamp
    event_values t channel user sent = (
      objects.string-set_int _ 4 1 sent refl
          ∙ (objects.string-set_enum _ 3 1 _ refl
              ∙ (objects.string-set_string _ 2 1 user ∙ objects.string-set_string _ 1 1 channel)),
      objects.string-set_int _ 4 2 sent refl
          ∙ (objects.string-set_enum _ 3 2 _ refl ∙ objects.string-set_string _ 2 2 user),
      objects.number-set_int _ 4 3 sent ∙ objects.number-set_enum _ 3 3 _,
      objects.number-set_int _ 4 4 sent,
    )

    packet_values :
        (t : DataType) (time : ℤ) (inner : Obj)
        → (get_datatype j (new_packet t time inner) ≡ data_type t)
          × (get_timestamp j (new_packet t time inner) ≡ time)
          × (get_message j (new_packet t time inner) ≡ none)
          × (get_event j (new_packet t time inner) ≡ some inner)
    unfolding get_datatype get_timestamp get_message get_event set_datatype set_timestamp set_event
        construct Message.construct Event.construct
    packet_values t time inner = (
      objects.number-set_wrapper _ 4 1 _ refl
          ∙ (objects.number-set_int _ 2 1 time ∙ objects.number-set_enum _ 1 1 _),
      objects.number-set_wrapper _ 4 2 _ refl ∙ objects.number-set_int _ 2 2 time,
      objects.wrapper-set_wrapper _ _ 4 3 _
          ∙ (objects.wrapper-set_int _ _ 2 3 time refl
              ∙ (objects.wrapper-set_enum _ _ 1 3 _ refl ∙ objects.wrapper-new _ 3)),
      objects.wrapper-set_wrapper _ _ 4 4 _,
    )

  module _ (m : Meaning j) (objects : ObjectLaws j) where
    open m use {well_formed}

    valid-new_event :
        (t : EventType) (channel user : JsString) (sent : ℤ)
        → well_formed channel ≡ true
        → well_formed user ≡ true
        → in_safe sent ≡ true
        → valid j m (plain j event_schema (new_event t channel user sent)) ≡ true
    unfolding valid valid_value plain value Event.get_type Event.get_channelid Event.get_userid
        Event.get_timestamp
    valid-new_event t channel user sent hc hu hs =
        let (v1, v2, v3, v4) = event_values objects t channel user sent in
        rw (v1, v2, v3, v4, event_type_fits t, hc, hu, hs)

    valid-new_packet :
        (t : DataType) (time : ℤ) (inner : Obj)
        → in_safe time ≡ true
        → valid j m (plain j event_schema inner) ≡ true
        → valid j m (plain j packet_schema (new_packet t time inner)) ≡ true
    unfolding valid valid_value plain value get_datatype get_timestamp get_message get_event
        Message.construct Event.construct
    valid-new_packet t time inner ht hi =
        let (v1, v2, v3, v4) = packet_values objects t time inner in
        rw (v1, v2, v3, v4, data_type_fits t, ht, hi)

    -- A packet with an event of any type, whose channel and user are well formed, both with a time in range,
    -- set on new objects, is serialized; who reads the bytes, given a round for each byte and one more, finds
    -- with the getters the type of the packet, the two times, the type, the channel and the user of the
    -- event, and no message.
    pub event_exchange :
        WriterLaws j m
        → ReaderLaws j m
        → (d : DataType) (t : EventType) (channel user : JsString) (sent time : ℤ)
        → well_formed channel ≡ true
        → well_formed user ≡ true
        → in_safe sent ≡ true
        → in_safe time ≡ true
        → (bytes : Bytes) × (o : Obj) × (i : Obj) × (serialize_binary j
              (new_packet d time (new_event t channel user sent))
            ≡ returned bytes)
          × ((extra : ℕ)
              → deserialize_binary j (suc (byte_length bytes + extra)) bytes ≡ returned o)
          × (get_datatype j o ≡ data_type d)
          × (get_timestamp j o ≡ time)
          × (get_message j o ≡ none)
          × (get_event j o ≡ some i)
          × (Event.get_channelid j i ≡ channel)
          × (Event.get_userid j i ≡ user)
          × (Event.get_type j i ≡ event_type t)
          × (Event.get_timestamp j i ≡ sent)
    unfolding to_object get_datatype get_timestamp Event.to_object Event.get_type
        Event.get_channelid Event.get_userid Event.get_timestamp
    event_exchange writing reading d t channel user sent time hc hu hs ht =
        let inner = new_event t channel user sent in
        let (v1, v2, v3, v4) = packet_values objects d time inner in
        let (i1, i2, i3, i4) = event_values objects t channel user sent in
        let (bytes, o, written, reads, same) =
          packet_round_trip j m objects writing reading (new_packet d time inner)
            (valid-new_packet d time inner ht (valid-new_event t channel user sent hc hu hs)) in
        let (i, found, like) =
          map-some (Event.to_object j false) (get_event j o) (Event.to_object j false inner)
            (ap (λ r. r.event) same ∙ ap (Option.map (Event.to_object j false)) v4) in
        let no_message =
          map-none (Message.to_object j false) (get_message j o)
            (ap (λ r. r.message) same ∙ ap (Option.map (Message.to_object j false)) v3) in
        (
          bytes,
          o,
          i,
          written,
          reads,
          ap (λ r. r.datatype) same ∙ v1,
          ap (λ r. r.timestamp) same ∙ v2,
          no_message,
          found,
          ap (λ r. r.channelid) like ∙ i1,
          ap (λ r. r.userid) like ∙ i2,
          ap (λ r. r.type) like ∙ i3,
          ap (λ r. r.timestamp) like ∙ i4,
        )
