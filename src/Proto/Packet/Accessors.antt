-- ===== src/Proto/Packet/Accessors.antt =====
-- The getters, setters and `toObject` of `proto.Packet`.
use im_single.Base.{ℤ, true, false, Option, none, some, ◌≡◌, refl}
use im_single.Jspb.Runtime.{Runtime}
use im_single.Jspb.Laws.{ObjectLaws}
use im_single.Proto.Message
use im_single.Proto.Event
use im_single.Proto.Packet.{
  construct, get_datatype, set_datatype, get_timestamp, set_timestamp, get_message, set_message,
  get_event, set_event, clear_message, has_message, clear_event, has_event,
}

module _ (j : Runtime) where
  open j use {Obj, RawArray, initialize}

  -- What the getters return after each setter.
  abbrev pub Accessors : Obj → ℤ → ℤ → Option Obj → Option Obj → Type 0
  Accessors o new_datatype new_timestamp new_message new_event =
      (get_datatype j (set_datatype j o new_datatype) ≡ new_datatype)
      × (get_timestamp j (set_datatype j o new_datatype) ≡ get_timestamp j o)
      × (get_message j (set_datatype j o new_datatype) ≡ get_message j o)
      × (get_event j (set_datatype j o new_datatype) ≡ get_event j o)
      × (get_datatype j (set_timestamp j o new_timestamp) ≡ get_datatype j o)
      × (get_timestamp j (set_timestamp j o new_timestamp) ≡ new_timestamp)
      × (get_message j (set_timestamp j o new_timestamp) ≡ get_message j o)
      × (get_event j (set_timestamp j o new_timestamp) ≡ get_event j o)
      × (get_datatype j (set_message j o new_message) ≡ get_datatype j o)
      × (get_timestamp j (set_message j o new_message) ≡ get_timestamp j o)
      × (get_message j (set_message j o new_message) ≡ new_message)
      × (get_event j (set_message j o new_message) ≡ get_event j o)
      × (get_datatype j (set_event j o new_event) ≡ get_datatype j o)
      × (get_timestamp j (set_event j o new_event) ≡ get_timestamp j o)
      × (get_message j (set_event j o new_event) ≡ get_message j o)
      × (get_event j (set_event j o new_event) ≡ new_event)

  -- Each getter returns what the setter of its field stored, and each setter leaves the other
  -- fields of the message as they were.
  pub packet-Accessors :
      ObjectLaws j
      → (o : Obj) (new_datatype : ℤ) (new_timestamp : ℤ) (new_message : Option Obj)
        (new_event : Option Obj)
      → Accessors o new_datatype new_timestamp new_message new_event
  unfolding get_datatype set_datatype get_timestamp set_timestamp get_message set_message get_event
      set_event Message.construct Event.construct
  packet-Accessors laws o new_datatype new_timestamp new_message new_event = (
    laws.number-set_enum o 1 1 new_datatype,
    laws.number-set_enum o 1 2 new_datatype,
    laws.wrapper-set_enum initialize o 1 3 new_datatype refl,
    laws.wrapper-set_enum initialize o 1 4 new_datatype refl,
    laws.number-set_int o 2 1 new_timestamp,
    laws.number-set_int o 2 2 new_timestamp,
    laws.wrapper-set_int initialize o 2 3 new_timestamp refl,
    laws.wrapper-set_int initialize o 2 4 new_timestamp refl,
    laws.number-set_wrapper o 3 1 new_message refl,
    laws.number-set_wrapper o 3 2 new_message refl,
    laws.wrapper-set_wrapper initialize o 3 3 new_message,
    laws.wrapper-set_wrapper initialize o 3 4 new_message,
    laws.number-set_wrapper o 4 1 new_event refl,
    laws.number-set_wrapper o 4 2 new_event refl,
    laws.wrapper-set_wrapper initialize o 4 3 new_event,
    laws.wrapper-set_wrapper initialize o 4 4 new_event,
  )

  -- `hasMessage` and `hasEvent` tell whether the nested message is set: they hold after a setter with a
  -- message, fail after a clear and on a new packet, and a setter or a clear of the one part leaves what
  -- they tell of the other. A clear takes the nested message out, and leaves the other nested message,
  -- the timestamp and the type.
  pub packet_presence :
      ObjectLaws j
      → (o i : Obj)
      → (has_message j (set_message j o (some i)) ≡ true)
        × (has_event j (set_message j o (some i)) ≡ has_event j o)
        × (has_event j (set_event j o (some i)) ≡ true)
        × (has_message j (set_event j o (some i)) ≡ has_message j o)
        × (has_message j (construct j none) ≡ false)
        × (has_event j (construct j none) ≡ false)
        × (has_message j (clear_message j o) ≡ false)
        × (has_event j (clear_message j o) ≡ has_event j o)
        × (get_message j (clear_message j o) ≡ none)
        × (get_event j (clear_message j o) ≡ get_event j o)
        × (get_timestamp j (clear_message j o) ≡ get_timestamp j o)
        × (get_datatype j (clear_message j o) ≡ get_datatype j o)
        × (has_event j (clear_event j o) ≡ false)
        × (has_message j (clear_event j o) ≡ has_message j o)
        × (get_event j (clear_event j o) ≡ none)
        × (get_message j (clear_event j o) ≡ get_message j o)
        × (get_timestamp j (clear_event j o) ≡ get_timestamp j o)
        × (get_datatype j (clear_event j o) ≡ get_datatype j o)
  unfolding has_message has_event set_message set_event clear_message clear_event construct
      get_message get_event get_timestamp get_datatype Message.construct Event.construct
  packet_presence laws o i = (
    laws.present-set_wrapper o 3 3 (some i),
    laws.present-set_wrapper o 3 4 (some i),
    laws.present-set_wrapper o 4 4 (some i),
    laws.present-set_wrapper o 4 3 (some i),
    laws.present-new 3,
    laws.present-new 4,
    laws.present-set_wrapper o 3 3 none,
    laws.present-set_wrapper o 3 4 none,
    laws.wrapper-set_wrapper initialize o 3 3 none,
    laws.wrapper-set_wrapper initialize o 3 4 none,
    laws.number-set_wrapper o 3 2 none refl,
    laws.number-set_wrapper o 3 1 none refl,
    laws.present-set_wrapper o 4 4 none,
    laws.present-set_wrapper o 4 3 none,
    laws.wrapper-set_wrapper initialize o 4 4 none,
    laws.wrapper-set_wrapper initialize o 4 3 none,
    laws.number-set_wrapper o 4 2 none refl,
    laws.number-set_wrapper o 4 1 none refl,
  )
