-- ===== src/Proto/Schema/Plain.antt =====
-- The values that a message object holds, and the fields that stand for them on the wire.
use im_single.Base.{
  ℕ, ℤ, pos, Bool, true, ◌&&◌, Option, none, some, [], ◌∷◌, ◌++◌, is_zero, in_int32, in_safe, ltb,
  length, if◌then◌else◌,
}
use im_single.Jspb.Runtime.{Runtime, JsString}
use im_single.Jspb.Format.{is_field_number, varint, delimited, Wires, Meaning}
use im_single.Proto.Schema.{FieldType, Schema, enum, int64, string, nested, end, field}

mutual
  pub data Value : Type 0 where
    enum_value : ℤ → Value
    int64_value : ℤ → Value
    string_value : JsString → Value
    absent : Value
    object : Plain → Value

  pub data Plain : Type 0 where
    nil : Plain
    entry : ℕ → Value → Plain → Plain

-- What a field of a new message holds.
abbrev pub blank : FieldType → Value
blank enum = enum_value (pos 0)
blank int64 = int64_value (pos 0)
blank string = string_value []
blank (nested s) = absent

abbrev pub wrap : {O : Type 0} → (O → Plain) → Option O → Value
wrap f none = absent
wrap f (some o) = object (f o)

module _ (j : Runtime) where
  open j use {Obj, initialize, get_number_with_default, get_string_with_default, get_wrapper_field}

  unfoldable mutual
    pub value : FieldType → Obj → ℕ → Value
    value enum o n = enum_value (get_number_with_default o n (pos 0))
    value int64 o n = int64_value (get_number_with_default o n (pos 0))
    value string o n = string_value (get_string_with_default o n [])
    value (nested s) o n = wrap (plain s) (get_wrapper_field o initialize n)

    pub plain : Schema → Obj → Plain
    plain end o = nil
    plain (field n t s) o = entry n (value t o n) (plain s o)

  module _ (m : Meaning j) where
    open m use {encode, utf8, well_formed}

    -- Every number is in the range of its type, and every string is well formed.
    unfoldable mutual
      pub valid_value : Value → Bool
      valid_value (enum_value v) = in_int32 v
      valid_value (int64_value v) = in_safe v
      valid_value (string_value s) = well_formed s
      valid_value absent = true
      valid_value (object p) = valid p

      pub valid : Plain → Bool
      valid nil = true
      valid (entry n v p) = is_field_number n && (valid_value v && valid p)

    -- A field that holds the default of its type is left out.
    unfoldable mutual
      pub wire : ℕ → Value → Wires j
      wire n (enum_value v) = if is_zero v then [] else varint n v ∷ []
      wire n (int64_value v) = if is_zero v then [] else varint n v ∷ []
      wire n (string_value s) = if ltb 0 (length s) then delimited n (utf8 s) ∷ [] else []
      wire n absent = []
      wire n (object p) = delimited n (encode (wires p)) ∷ []

      pub wires : Plain → Wires j
      wires nil = []
      wires (entry n v p) = wire n v ++ wires p
