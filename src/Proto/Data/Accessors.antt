-- ===== src/Proto/Data/Accessors.antt =====
-- The getters, setters and `toObject` of `proto.Data`.
use im_single.Base.{ℤ, ◌≡◌, refl}
use im_single.Jspb.Runtime.{Runtime, JsString}
use im_single.Jspb.Laws.{ObjectLaws}
use im_single.Proto.Data.{
  get_channelid, set_channelid, get_content, set_content, get_messageid, set_messageid,
  get_timestamp, set_timestamp,
}

module _ (j : Runtime) where
  open j use {Obj, RawArray, initialize}

  -- What the getters return after each setter.
  abbrev pub Accessors : Obj → JsString → JsString → JsString → ℤ → Type 0
  Accessors o new_channelid new_content new_messageid new_timestamp =
      (get_channelid j (set_channelid j o new_channelid) ≡ new_channelid)
      × (get_content j (set_channelid j o new_channelid) ≡ get_content j o)
      × (get_messageid j (set_channelid j o new_channelid) ≡ get_messageid j o)
      × (get_timestamp j (set_channelid j o new_channelid) ≡ get_timestamp j o)
      × (get_channelid j (set_content j o new_content) ≡ get_channelid j o)
      × (get_content j (set_content j o new_content) ≡ new_content)
      × (get_messageid j (set_content j o new_content) ≡ get_messageid j o)
      × (get_timestamp j (set_content j o new_content) ≡ get_timestamp j o)
      × (get_channelid j (set_messageid j o new_messageid) ≡ get_channelid j o)
      × (get_content j (set_messageid j o new_messageid) ≡ get_content j o)
      × (get_messageid j (set_messageid j o new_messageid) ≡ new_messageid)
      × (get_timestamp j (set_messageid j o new_messageid) ≡ get_timestamp j o)
      × (get_channelid j (set_timestamp j o new_timestamp) ≡ get_channelid j o)
      × (get_content j (set_timestamp j o new_timestamp) ≡ get_content j o)
      × (get_messageid j (set_timestamp j o new_timestamp) ≡ get_messageid j o)
      × (get_timestamp j (set_timestamp j o new_timestamp) ≡ new_timestamp)

  -- Each getter returns what the setter of its field stored, and each setter leaves the other
  -- fields of the message as they were.
  pub data-Accessors :
      ObjectLaws j
      → (o : Obj) (new_channelid : JsString) (new_content : JsString) (new_messageid : JsString)
        (new_timestamp : ℤ)
      → Accessors o new_channelid new_content new_messageid new_timestamp
  unfolding get_channelid set_channelid get_content set_content get_messageid set_messageid
      get_timestamp set_timestamp
  data-Accessors laws o new_channelid new_content new_messageid new_timestamp = (
    laws.string-set_string o 1 1 new_channelid,
    laws.string-set_string o 1 2 new_channelid,
    laws.string-set_string o 1 3 new_channelid,
    laws.number-set_string o 1 4 new_channelid refl,
    laws.string-set_string o 2 1 new_content,
    laws.string-set_string o 2 2 new_content,
    laws.string-set_string o 2 3 new_content,
    laws.number-set_string o 2 4 new_content refl,
    laws.string-set_string o 3 1 new_messageid,
    laws.string-set_string o 3 2 new_messageid,
    laws.string-set_string o 3 3 new_messageid,
    laws.number-set_string o 3 4 new_messageid refl,
    laws.string-set_int o 4 1 new_timestamp refl,
    laws.string-set_int o 4 2 new_timestamp refl,
    laws.string-set_int o 4 3 new_timestamp refl,
    laws.number-set_int o 4 4 new_timestamp,
  )
