-- ===== src/Jspb/Runtime.antt =====
-- The calls that load-test/packet_pb.js makes of load-test/google-protobuf.js, as parameters.
use im_single.Base.{ℕ, ℤ, Bool, Option, List, Outcome}

-- A JavaScript string is the list of its UTF-16 code units, which `.length` counts.
abbrev pub JsString : Type 0
JsString = List ℕ

pub record Runtime : Type 1 where
  -- A `jspb.Message` object, and the array that a constructor may be handed as `opt_data`.
  pub Obj : Type 0
  pub RawArray : Type 0
  -- `jspb.Message.initialize(this, opt_data, 0, -1, null, null)`, the object that it leaves.
  pub initialize : Option RawArray → Obj
  -- `jspb.Message.getFieldWithDefault`, with a number and with a string for a default.
  pub get_number_with_default : Obj → ℕ → ℤ → ℤ
  pub get_string_with_default : Obj → ℕ → JsString → JsString
  -- The setters return the object that they change.
  pub set_proto3_enum_field : Obj → ℕ → ℤ → Obj
  pub set_proto3_int_field : Obj → ℕ → ℤ → Obj
  pub set_proto3_string_field : Obj → ℕ → JsString → Obj
  -- `none` stands for `null` and `undefined`. The constructor argument wraps raw arrays.
  pub get_wrapper_field : Obj → (Option RawArray → Obj) → ℕ → Option Obj
  pub set_wrapper_field : Obj → ℕ → Option Obj → Obj
  -- `jspb.Message.getField(msg, n) != null`
  pub get_field_present : Obj → ℕ → Bool
  -- `jspb.ByteSource` and the buffer of a writer.
  pub Bytes : Type 0
  pub byte_length : Bytes → ℕ
  -- `jspb.BinaryWriter`. Each `write` may throw, on a value out of the range of its type.
  pub Writer : Type 0
  pub new_writer : Writer
  pub write_enum : ℕ → ℤ → Writer → Outcome Writer
  pub write_int64 : ℕ → ℤ → Writer → Outcome Writer
  pub write_string : ℕ → JsString → Writer → Outcome Writer
  pub write_message : ℕ → Obj → (Obj → Writer → Outcome Writer) → Writer → Outcome Writer
  pub get_result_buffer : Writer → Bytes
  -- `jspb.BinaryReader`. A read returns its value and the reader after it, or throws.
  pub Reader : Type 0
  pub new_reader : Bytes → Reader
  pub next_field : Reader → Outcome (Bool × Reader)
  pub is_end_group : Reader → Bool
  pub get_field_number : Reader → ℕ
  pub read_enum : Reader → Outcome (ℤ × Reader)
  pub read_int64 : Reader → Outcome (ℤ × Reader)
  pub read_string : Reader → Outcome (JsString × Reader)
  pub read_message : Obj → (Obj → Reader → Outcome (Obj × Reader)) → Reader → Outcome (Obj × Reader)
  pub skip_field : Reader → Outcome Reader
