-- ===== src/Proto/Tests.antt =====
-- Messages for the tests of the theorems, over the sample of the interface.
mod PacketTests
mod MessageTests
mod ClassesTests
mod ExchangeTests
use im_single.Base.{
  ℕ, pos, negsuc, true, false, none, some, List, [], ◌∷◌, ◌≡◌, ◌≢◌, refl, returned, thrown,
  out_of_fuel,
}
use mathlib.Core.Option
use im_single.Jspb.Format.{varint, delimited, fixed}
use im_single.Jspb.Sample.{
  Slots, Packed, Wires, sample, sample_meaning, decode, empty, put, numeral, text, object, chars,
  fields, of_list,
}
use im_single.Jspb.Sample.Laws.{sample_objects, sample_writing, sample_reading}
use im_single.Proto.Schema.{message_schema, event_schema, data_schema, packet_schema}
use im_single.Proto.Schema.Plain.{plain, valid, wires}
use im_single.Proto.Schema.Merge.{merge, merge_field}
use im_single.Proto.Schema.Distinct.{not_in}
use im_single.Proto.Reading.{read_fields}
use im_single.Proto.Message
use im_single.Proto.Event
use im_single.Proto.Data
use im_single.Proto.Packet
use im_single.Proto.Packet.{PacketObject}
use im_single.Proto.Message.{MessageObject}
use im_single.Proto.Event.{EventObject}
use im_single.Proto.Data.{DataObject}

-- "hi" and "ch1"
abbrev pub hi : List ℕ
hi = b'h' ∷ b'i' ∷ []

abbrev pub room : List ℕ
room = b'c' ∷ b'h' ∷ b'1' ∷ []

abbrev pub hello : Slots
hello = put 1 (numeral (pos 1)) (put 2 (text hi) (put 3 (numeral (pos 1700000000000)) empty))

abbrev pub joined : Slots
joined =
    put 1 (text room) (put 2 (text hi) (put 3 (numeral (pos 2)) (put 4 (numeral (negsuc 4)) empty)))

abbrev pub record_of : Slots
record_of = put 1 (text room) (put 3 (text hi) (put 4 (numeral (pos 7)) empty))

abbrev pub packet : Slots
packet = put 3 (object hello) (put 2 (numeral (pos 5)) empty)

-- The fields of a message.
abbrev pub hello_bytes : Packed
hello_bytes = fields (of_list (varint 1 (pos 1) ∷ delimited 2 (chars hi) ∷ []))
