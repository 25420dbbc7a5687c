-- ===== src/Proto/Packet/Evolution.antt =====
-- Packets with fields that packet.proto does not declare, or with one field more than once.
use im_single.Base.{
  ℕ, ◌<◌, true, none, some, [], ◌∷◌, ◌++◌, ◌≡◌, refl, ap, ◌∙◌, ◌==◌, not, and_true, eq_false_of_not,
  ==_sym, and_then, returned,
}
use mathlib.Core.Path.{fun_ext}
use im_single.Jspb.Runtime.{Runtime}
use im_single.Jspb.Laws.{ObjectLaws}
use im_single.Jspb.Format.{Wire, delimited, number, Wires, Meaning, ReaderLaws}
use im_single.Proto.Schema.{Schema, end, field, message_schema, packet_schema}
use im_single.Proto.Schema.Merge.{merge_all, merge, merge_field}
use im_single.Proto.Schema.Distinct.{not_in, merge_all-append}
use im_single.Proto.Packet.{get_message, get_event, get_datatype, get_timestamp, deserialize_binary}
use im_single.Proto.Packet.Reading.{packet_deserialize-merge_all}

module _ (j : Runtime) (m : Meaning j) where
  open j use {Obj, Bytes, byte_length, initialize, set_wrapper_field}
  open m use {decode}

  -- A field with a number that a schema does not have changes nothing.
  merge-not_in :
      (s : Schema) (o : Obj) (x : Wire Bytes)
      → not_in (number x) s ≡ true
      → merge j m s o x ≡ some o
  unfolding merge not_in
  merge-not_in end o x h = refl
  merge-not_in (field n t s) o x h =
      let (hn, hs) = and_true (not (n == number x)) (not_in (number x) s) h in
      rw (==_sym (number x) n (eq_false_of_not (n == number x) hn)) (merge-not_in s o x hs)

  pub merge_all-not_in :
      (s : Schema) (o : Obj) (xs ys : Wires j) (x : Wire Bytes)
      → not_in (number x) s ≡ true
      → merge_all (merge j m s) o (xs ++ x ∷ ys) ≡ merge_all (merge j m s) o (xs ++ ys)
  merge_all-not_in s o [] ys x h = rw (merge-not_in s o x h)
  merge_all-not_in s o (y ∷ xs) ys x h =
      ap (and_then (merge j m s o y)) (fun_ext λ o'. merge_all-not_in s o' xs ys x h)

  module _ (reading : ReaderLaws j m) where
    -- Where the field of the nested message comes last in the bytes, after fields that make up
    -- `before`, `deserializeBinary`, given a round for each byte and one more, returns `before` with the
    -- whole nested message replaced by the one that this field alone stands for: nothing of an earlier
    -- nested message is kept, and the other fields are.
    pub packet_last_message :
        ObjectLaws j
        → (rounds : ℕ) (bytes inner_bytes : Bytes) (xs inner : Wires j) (before inner_msg : Obj)
        → byte_length bytes < rounds
        → decode bytes ≡ some (xs ++ delimited 3 inner_bytes ∷ [])
        → merge_all (merge j m packet_schema) (initialize none) xs ≡ some before
        → decode inner_bytes ≡ some inner
        → merge_all (merge j m message_schema) (initialize none) inner ≡ some inner_msg
        → (msg : Obj) × (deserialize_binary j rounds bytes ≡ returned msg)
          × (get_message j msg ≡ some inner_msg)
          × (get_event j msg ≡ get_event j before)
          × (get_datatype j msg ≡ get_datatype j before)
          × (get_timestamp j msg ≡ get_timestamp j before)
    unfolding merge merge_field get_message get_event get_datatype get_timestamp
    packet_last_message objects rounds bytes inner_bytes xs inner before inner_msg enough hd hx hi
          hn =
        (
          set_wrapper_field before 3 (some inner_msg),
          packet_deserialize-merge_all j m reading rounds bytes (xs ++ delimited 3 inner_bytes ∷ [])
              _ enough hd
              (merge_all-append (merge j m packet_schema) xs _ (initialize none) before hx
                ∙ rw (hi, hn)),
          objects.wrapper-set_wrapper _ before 3 3 (some inner_msg),
          objects.wrapper-set_wrapper _ before 3 4 (some inner_msg),
          objects.number-set_wrapper before 3 1 (some inner_msg) refl,
          objects.number-set_wrapper before 3 2 (some inner_msg) refl,
        )
