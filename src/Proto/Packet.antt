-- ===== src/Proto/Packet.antt =====
-- load-test/packet_pb.js, `proto.Packet`: the constructor, the accessors, `toObject`, and the binary
-- format. A method returns the object that it changes; `none` stands for `undefined`.
pub mod Accessors
pub mod Reading
pub mod Writing
pub mod Evolution
pub mod Exchange
pub mod EventExchange
use mathlib.Core.Option
use im_single.Base.{
  if_present, ℕ, suc, ℤ, pos, Option, none, some, Outcome, returned, ◌>>=◌, ◌==◌, if◌then◌else◌,
  Bool, is_zero,
}
use im_single.Jspb.Runtime.{Runtime}
use im_single.Proto.Reading.{read_fields}
use im_single.Proto.Message
use im_single.Proto.Message.{MessageObject}
use im_single.Proto.Event
use im_single.Proto.Event.{EventObject}

-- The plain object of `toObject`.
pub record PacketObject (Obj : Type 0) : Type 0 where
  pub datatype : ℤ
  pub timestamp : ℤ
  pub message : Option (MessageObject Obj)
  pub event : Option (EventObject Obj)
  pub jspb_message_instance : Option Obj

module _ (j : Runtime) where
  open j use {
    Obj, RawArray, initialize, Bytes, byte_length, Writer, new_writer, get_result_buffer, Reader,
    new_reader, skip_field, get_number_with_default, set_proto3_enum_field, write_enum, read_enum,
    set_proto3_int_field, write_int64, read_int64, get_wrapper_field, set_wrapper_field,
    get_field_present, write_message, read_message,
  }

  unfoldable pub construct : Option RawArray → Obj
  construct opt_data = initialize opt_data

  unfoldable pub get_datatype : Obj → ℤ
  get_datatype msg = get_number_with_default msg 1 (pos 0)

  unfoldable pub set_datatype : Obj → ℤ → Obj
  set_datatype msg value = set_proto3_enum_field msg 1 value

  unfoldable pub get_timestamp : Obj → ℤ
  get_timestamp msg = get_number_with_default msg 2 (pos 0)

  unfoldable pub set_timestamp : Obj → ℤ → Obj
  set_timestamp msg value = set_proto3_int_field msg 2 value

  unfoldable pub get_message : Obj → Option Obj
  get_message msg = get_wrapper_field msg (Message.construct j) 3

  unfoldable pub set_message : Obj → Option Obj → Obj
  set_message msg value = set_wrapper_field msg 3 value

  pub clear_message : Obj → Obj
  unfolding set_message
  clear_message msg = set_message msg none

  pub has_message : Obj → Bool
  has_message msg = get_field_present msg 3

  unfoldable pub get_event : Obj → Option Obj
  get_event msg = get_wrapper_field msg (Event.construct j) 4

  unfoldable pub set_event : Obj → Option Obj → Obj
  set_event msg value = set_wrapper_field msg 4 value

  pub clear_event : Obj → Obj
  unfolding set_event
  clear_event msg = set_event msg none

  pub has_event : Obj → Bool
  has_event msg = get_field_present msg 4

  -- The static `toObject(includeInstance, msg)`.
  unfoldable pub to_object : Bool → Obj → PacketObject Obj
  unfolding get_message get_event
  to_object include_instance msg = record {
    datatype = get_number_with_default msg 1 (pos 0);
    timestamp = get_number_with_default msg 2 (pos 0);
    message = Option.map (Message.to_object j include_instance) (get_message msg);
    event = Option.map (Event.to_object j include_instance) (get_event msg);
    jspb_message_instance = if include_instance then some msg else none;
  }

  -- The method `toObject(opt_includeInstance)`.
  unfoldable pub instance_to_object : Obj → Bool → PacketObject Obj
  unfolding to_object
  instance_to_object this opt_include_instance = to_object opt_include_instance this

  -- The `switch` on the number of a field whose header has been read.
  unfoldable pub read_field : ℕ → ℕ → Obj → Reader → Outcome (Obj × Reader)
  unfolding set_datatype set_timestamp set_message set_event
  read_field fuel field msg reader =
      if field == 1
      then (do (value, reader') ← read_enum reader; returned (set_datatype msg value, reader'))
      else if field == 2
      then (do (value, reader') ← read_int64 reader; returned (set_timestamp msg value, reader'))
      else if field == 3
      then (do
        (value, reader') ←
            read_message (Message.construct j none) (Message.deserialize_binary_from_reader j fuel)
              reader
        returned (set_message msg (some value), reader'))
      else if field == 4
      then (do
        (value, reader') ←
            read_message (Event.construct j none) (Event.deserialize_binary_from_reader j fuel)
              reader
        returned (set_event msg (some value), reader'))
      else (do reader' ← skip_field reader; returned (msg, reader'))

  unfoldable pub deserialize_binary_from_reader : ℕ → Obj → Reader → Outcome (Obj × Reader)
  deserialize_binary_from_reader fuel msg reader = read_fields j (read_field fuel) fuel msg reader

  -- With at most so many rounds of each loop.
  unfoldable pub deserialize_binary : ℕ → Bytes → Outcome Obj
  deserialize_binary rounds bytes = do
    (msg, reader) ← deserialize_binary_from_reader rounds (construct none) (new_reader bytes)
    returned msg

  -- `f = message.getDatatype()`, and the test and call that follow it.
  unfoldable pub emit_datatype : Obj → Writer → Outcome Writer
  unfolding get_datatype
  emit_datatype message writer =
      let f = get_datatype message in if is_zero f then returned writer else write_enum 1 f writer

  -- `f = message.getTimestamp()`, and the test and call that follow it.
  unfoldable pub emit_timestamp : Obj → Writer → Outcome Writer
  unfolding get_timestamp
  emit_timestamp message writer =
      let f = get_timestamp message in if is_zero f then returned writer else write_int64 2 f writer

  -- `f = message.getMessage()`, and the test and call that follow it.
  unfoldable pub emit_message : Obj → Writer → Outcome Writer
  unfolding get_message
  emit_message message writer =
      if_present (get_message message)
        (λ f. write_message 3 f (Message.serialize_binary_to_writer j) writer) (returned writer)

  -- `f = message.getEvent()`, and the test and call that follow it.
  unfoldable pub emit_event : Obj → Writer → Outcome Writer
  unfolding get_event
  emit_event message writer =
      if_present (get_event message)
        (λ f. write_message 4 f (Event.serialize_binary_to_writer j) writer) (returned writer)

  unfoldable pub serialize_binary_to_writer : Obj → Writer → Outcome Writer
  serialize_binary_to_writer message writer = do
    writer1 ← emit_datatype message writer
    writer2 ← emit_timestamp message writer1
    writer3 ← emit_message message writer2
    emit_event message writer3

  unfoldable pub serialize_binary : Obj → Outcome Bytes
  serialize_binary this = do
    writer ← serialize_binary_to_writer this new_writer
    returned (get_result_buffer writer)
