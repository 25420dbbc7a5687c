-- ===== src/Proto/Event.antt =====
-- load-test/packet_pb.js, `proto.Event`: the constructor, the accessors, `toObject`, and the binary
-- format. A method returns the object that it changes; `none` stands for `undefined`.
pub mod Accessors
pub mod Reading
pub mod Writing
use im_single.Base.{
  ℕ, suc, ℤ, pos, Option, none, some, Outcome, returned, ◌>>=◌, ◌==◌, if◌then◌else◌, Bool, is_zero,
  [], ltb, length,
}
use im_single.Jspb.Runtime.{Runtime, JsString}
use im_single.Proto.Reading.{read_fields}

-- The plain object of `toObject`.
pub record EventObject (Obj : Type 0) : Type 0 where
  pub channelid : JsString
  pub userid : JsString
  pub type : ℤ
  pub timestamp : ℤ
  pub jspb_message_instance : Option Obj

module _ (j : Runtime) where
  open j use {
    Obj, RawArray, initialize, Bytes, byte_length, Writer, new_writer, get_result_buffer, Reader,
    new_reader, skip_field, get_number_with_default, set_proto3_enum_field, write_enum, read_enum,
    set_proto3_int_field, write_int64, read_int64, get_string_with_default, set_proto3_string_field,
    write_string, read_string,
  }

  unfoldable pub construct : Option RawArray → Obj
  construct opt_data = initialize opt_data

  unfoldable pub get_channelid : Obj → JsString
  get_channelid msg = get_string_with_default msg 1 []

  unfoldable pub set_channelid : Obj → JsString → Obj
  set_channelid msg value = set_proto3_string_field msg 1 value

  unfoldable pub get_userid : Obj → JsString
  get_userid msg = get_string_with_default msg 2 []

  unfoldable pub set_userid : Obj → JsString → Obj
  set_userid msg value = set_proto3_string_field msg 2 value

  unfoldable pub get_type : Obj → ℤ
  get_type msg = get_number_with_default msg 3 (pos 0)

  unfoldable pub set_type : Obj → ℤ → Obj
  set_type msg value = set_proto3_enum_field msg 3 value

  unfoldable pub get_timestamp : Obj → ℤ
  get_timestamp msg = get_number_with_default msg 4 (pos 0)

  unfoldable pub set_timestamp : Obj → ℤ → Obj
  set_timestamp msg value = set_proto3_int_field msg 4 value

  -- The static `toObject(includeInstance, msg)`.
  unfoldable pub to_object : Bool → Obj → EventObject Obj
  to_object include_instance msg = record {
    channelid = get_string_with_default msg 1 [];
    userid = get_string_with_default msg 2 [];
    type = get_number_with_default msg 3 (pos 0);
    timestamp = get_number_with_default msg 4 (pos 0);
    jspb_message_instance = if include_instance then some msg else none;
  }

  -- The method `toObject(opt_includeInstance)`.
  unfoldable pub instance_to_object : Obj → Bool → EventObject Obj
  unfolding to_object
  instance_to_object this opt_include_instance = to_object opt_include_instance this

  -- The `switch` on the number of a field whose header has been read.
  unfoldable pub read_field : ℕ → Obj → Reader → Outcome (Obj × Reader)
  unfolding set_channelid set_userid set_type set_timestamp
  read_field field msg reader =
      if field == 1
      then (do (value, reader') ← read_string reader; returned (set_channelid msg value, reader'))
      else if field == 2
      then (do (value, reader') ← read_string reader; returned (set_userid msg value, reader'))
      else if field == 3
      then (do (value, reader') ← read_enum reader; returned (set_type msg value, reader'))
      else if field == 4
      then (do (value, reader') ← read_int64 reader; returned (set_timestamp msg value, reader'))
      else (do reader' ← skip_field reader; returned (msg, reader'))

  unfoldable pub deserialize_binary_from_reader : ℕ → Obj → Reader → Outcome (Obj × Reader)
  deserialize_binary_from_reader fuel msg reader = read_fields j read_field fuel msg reader

  -- With at most so many rounds of each loop.
  unfoldable pub deserialize_binary : ℕ → Bytes → Outcome Obj
  deserialize_binary rounds bytes = do
    (msg, reader) ← deserialize_binary_from_reader rounds (construct none) (new_reader bytes)
    returned msg

  -- `f = message.getChannelid()`, and the test and call that follow it.
  unfoldable pub emit_channelid : Obj → Writer → Outcome Writer
  unfolding get_channelid
  emit_channelid message writer =
      let f = get_channelid message in
      if ltb 0 (length f) then write_string 1 f writer else returned writer

  -- `f = message.getUserid()`, and the test and call that follow it.
  unfoldable pub emit_userid : Obj → Writer → Outcome Writer
  unfolding get_userid
  emit_userid message writer =
      let f = get_userid message in
      if ltb 0 (length f) then write_string 2 f writer else returned writer

  -- `f = message.getType()`, and the test and call that follow it.
  unfoldable pub emit_type : Obj → Writer → Outcome Writer
  unfolding get_type
  emit_type message writer =
      let f = get_type message in if is_zero f then returned writer else write_enum 3 f writer

  -- `f = message.getTimestamp()`, and the test and call that follow it.
  unfoldable pub emit_timestamp : Obj → Writer → Outcome Writer
  unfolding get_timestamp
  emit_timestamp message writer =
      let f = get_timestamp message in if is_zero f then returned writer else write_int64 4 f writer

  unfoldable pub serialize_binary_to_writer : Obj → Writer → Outcome Writer
  serialize_binary_to_writer message writer = do
    writer1 ← emit_channelid message writer
    writer2 ← emit_userid message writer1
    writer3 ← emit_type message writer2
    emit_timestamp message writer3

  unfoldable pub serialize_binary : Obj → Outcome Bytes
  serialize_binary this = do
    writer ← serialize_binary_to_writer this new_writer
    returned (get_result_buffer writer)
