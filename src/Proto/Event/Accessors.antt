-- ===== src/Proto/Event/Accessors.antt =====
-- The getters, setters and `toObject` of `proto.Event`.
use im_single.Base.{ℤ, ◌≡◌, refl}
use im_single.Jspb.Runtime.{Runtime, JsString}
use im_single.Jspb.Laws.{ObjectLaws}
use im_single.Proto.Event.{
  get_channelid, set_channelid, get_userid, set_userid, get_type, set_type, get_timestamp,
  set_timestamp,
}

module _ (j : Runtime) where
  open j use {Obj, RawArray, initialize}

  -- What the getters return after each setter.
  abbrev pub Accessors : Obj → JsString → JsString → ℤ → ℤ → Type 0
  Accessors o new_channelid new_userid new_type new_timestamp =
      (get_channelid j (set_channelid j o new_channelid) ≡ new_channelid)
      × (get_userid j (set_channelid j o new_channelid) ≡ get_userid j o)
      × (get_type j (set_channelid j o new_channelid) ≡ get_type j o)
      × (get_timestamp j (set_channelid j o new_channelid) ≡ get_timestamp j o)
      × (get_channelid j (set_userid j o new_userid) ≡ get_channelid j o)
      × (get_userid j (set_userid j o new_userid) ≡ new_userid)
      × (get_type j (set_userid j o new_userid) ≡ get_type j o)
      × (get_timestamp j (set_userid j o new_userid) ≡ get_timestamp j o)
      × (get_channelid j (set_type j o new_type) ≡ get_channelid j o)
      × (get_userid j (set_type j o new_type) ≡ get_userid j o)
      × (get_type j (set_type j o new_type) ≡ new_type)
      × (get_timestamp j (set_type j o new_type) ≡ get_timestamp j o)
      × (get_channelid j (set_timestamp j o new_timestamp) ≡ get_channelid j o)
      × (get_userid j (set_timestamp j o new_timestamp) ≡ get_userid j o)
      × (get_type j (set_timestamp j o new_timestamp) ≡ get_type j o)
      × (get_timestamp j (set_timestamp j o new_timestamp) ≡ new_timestamp)

  -- Each getter returns what the setter of its field stored, and each setter leaves the other
  -- fields of the message as they were.
  pub event-Accessors :
      ObjectLaws j
      → (o : Obj) (new_channelid : JsString) (new_userid : JsString) (new_type : ℤ)
        (new_timestamp : ℤ)
      → Accessors o new_channelid new_userid new_type new_timestamp
  unfolding get_channelid set_channelid get_userid set_userid get_type set_type get_timestamp
      set_timestamp
  event-Accessors laws o new_channelid new_userid new_type new_timestamp = (
    laws.string-set_string o 1 1 new_channelid,
    laws.string-set_string o 1 2 new_channelid,
    laws.number-set_string o 1 3 new_channelid refl,
    laws.number-set_string o 1 4 new_channelid refl,
    laws.string-set_string o 2 1 new_userid,
    laws.string-set_string o 2 2 new_userid,
    laws.number-set_string o 2 3 new_userid refl,
    laws.number-set_string o 2 4 new_userid refl,
    laws.string-set_enum o 3 1 new_type refl,
    laws.string-set_enum o 3 2 new_type refl,
    laws.number-set_enum o 3 3 new_type,
    laws.number-set_enum o 3 4 new_type,
    laws.string-set_int o 4 1 new_timestamp refl,
    laws.string-set_int o 4 2 new_timestamp refl,
    laws.number-set_int o 4 3 new_timestamp,
    laws.number-set_int o 4 4 new_timestamp,
  )
