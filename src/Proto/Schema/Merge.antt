-- ===== src/Proto/Schema/Merge.antt =====
-- What a field of the wire does to a message, by the declaration of the message.
use im_single.Base.{
  ◌==◌, and_then, Option, none, some, List, [], ◌∷◌, in_int32, in_safe, if◌then◌else◌,
}
use im_single.Jspb.Runtime.{Runtime}
use im_single.Jspb.Format.{Wire, varint, delimited, number, Meaning}
use im_single.Proto.Schema.{FieldType, Schema, enum, int64, string, nested, end, field}

-- The object after all fields of a list, from the first to the last; `none` at a field that has
-- another wire type than the message declares, a value out of range, or a text that is not UTF-8.
abbrev pub merge_all {ℓ κ} : {O : Type ℓ} {X : Type κ} → (O → X → Option O) → O → List X → Option O
merge_all merge msg [] = some msg
merge_all merge msg (x ∷ xs) = and_then (merge msg x) λ msg'. merge_all merge msg' xs

module _ (j : Runtime) (m : Meaning j) where
  open j use {
    Obj, Bytes, initialize, set_proto3_enum_field, set_proto3_int_field, set_proto3_string_field,
    set_wrapper_field,
  }
  open m use {decode, from_utf8}

  -- A later field takes the place of an earlier one with its number; a field with a number that is
  -- not declared is passed over.
  unfoldable mutual
    pub merge_field : FieldType → Obj → Wire Bytes → Option Obj
    merge_field enum msg (varint n v) =
        if in_int32 v then some (set_proto3_enum_field msg n v) else none
    merge_field int64 msg (varint n v) =
        if in_safe v then some (set_proto3_int_field msg n v) else none
    merge_field string msg (delimited n b) =
        and_then (from_utf8 b) λ s. some (set_proto3_string_field msg n s)
    merge_field (nested s) msg (delimited n b) = and_then (decode b) λ xs.
        and_then (merge_all (merge s) (initialize none) xs)
          λ o. some (set_wrapper_field msg n (some o))
    merge_field _ msg x = none

    pub merge : Schema → Obj → Wire Bytes → Option Obj
    merge end msg x = some msg
    merge (field n t s) msg x = if number x == n then merge_field t msg x else merge s msg x
