-- ===== src/Proto/Message/Accessors.antt =====
-- The getters, setters and `toObject` of `proto.Message`.
use im_single.Base.{ℤ, ◌≡◌, refl}
use im_single.Jspb.Runtime.{Runtime, JsString}
use im_single.Jspb.Laws.{ObjectLaws}
use im_single.Proto.Message.{
  get_type, set_type, get_content, set_content, get_timestamp, set_timestamp,
}

module _ (j : Runtime) where
  open j use {Obj, RawArray, initialize}

  -- What the getters return after each setter.
  abbrev pub Accessors : Obj → ℤ → JsString → ℤ → Type 0
  Accessors o new_type new_content new_timestamp =
      (get_type j (set_type j o new_type) ≡ new_type)
      × (get_content j (set_type j o new_type) ≡ get_content j o)
      × (get_timestamp j (set_type j o new_type) ≡ get_timestamp j o)
      × (get_type j (set_content j o new_content) ≡ get_type j o)
      × (get_content j (set_content j o new_content) ≡ new_content)
      × (get_timestamp j (set_content j o new_content) ≡ get_timestamp j o)
      × (get_type j (set_timestamp j o new_timestamp) ≡ get_type j o)
      × (get_content j (set_timestamp j o new_timestamp) ≡ get_content j o)
      × (get_timestamp j (set_timestamp j o new_timestamp) ≡ new_timestamp)

  -- Each getter returns what the setter of its field stored, and each setter leaves the other
  -- fields of the message as they were.
  pub message-Accessors :
      ObjectLaws j
      → (o : Obj) (new_type : ℤ) (new_content : JsString) (new_timestamp : ℤ)
      → Accessors o new_type new_content new_timestamp
  unfolding get_type set_type get_content set_content get_timestamp set_timestamp
  message-Accessors laws o new_type new_content new_timestamp = (
    laws.number-set_enum o 1 1 new_type,
    laws.string-set_enum o 1 2 new_type refl,
    laws.number-set_enum o 1 3 new_type,
    laws.number-set_string o 2 1 new_content refl,
    laws.string-set_string o 2 2 new_content,
    laws.number-set_string o 2 3 new_content refl,
    laws.number-set_int o 3 1 new_timestamp,
    laws.string-set_int o 3 2 new_timestamp refl,
    laws.number-set_int o 3 3 new_timestamp,
  )
