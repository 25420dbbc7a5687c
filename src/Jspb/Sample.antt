-- ===== src/Jspb/Sample.antt =====
-- Values at which the assumptions of this interface hold: objects as lists of slots, and bytes that
-- are the fields they stand for. The library's own bytes are not modelled.
pub mod Laws
use im_single.Base.{
  ℕ, suc, ℤ, Bool, true, false, Option, none, some, List, [], ◌∷◌, ◌++◌, ◌+◌, length, Outcome,
  returned, thrown, ◌>>=◌, in_int32, in_safe, ◌==◌, if◌then◌else◌,
}
use im_single.Jspb.Runtime.{Runtime, JsString}
use im_single.Jspb.Format.{Wire, varint, delimited, fixed, number, Meaning}

mutual
  pub data Slot : Type 0 where
    cleared : Slot
    numeral : ℤ → Slot
    text : JsString → Slot
    object : Slots → Slot

  -- The newest slot of a number comes first.
  pub data Slots : Type 0 where
    empty : Slots
    put : ℕ → Slot → Slots → Slots

abbrev pub find : Slots → ℕ → Slot
find empty n = cleared
find (put k s o) n = if k == n then s else find o n

abbrev pub as_number : Slot → ℤ → ℤ
as_number (numeral v) d = v
as_number _ d = d

abbrev pub as_string : Slot → JsString → JsString
as_string (text s) d = s
as_string _ d = d

abbrev pub as_object : Slot → Option Slots
as_object (object o) = some o
as_object _ = none

abbrev pub slot_of : Option Slots → Slot
slot_of none = cleared
slot_of (some o) = object o

abbrev pub is_set : Slot → Bool
is_set cleared = false
is_set _ = true

mutual
  pub data Packed : Type 0 where
    chars : JsString → Packed
    fields : Fields → Packed

  pub data Fields : Type 0 where
    stop : Fields
    varint_field : ℕ → ℤ → Fields → Fields
    delimited_field : ℕ → Packed → Fields → Fields
    fixed_field : ℕ → Fields → Fields

abbrev pub Wires : Type 0
Wires = List (Wire Packed)

abbrev pub to_list : Fields → Wires
to_list stop = []
to_list (varint_field n v r) = varint n v ∷ to_list r
to_list (delimited_field n b r) = delimited n b ∷ to_list r
to_list (fixed_field n r) = fixed n ∷ to_list r

abbrev pub of_list : Wires → Fields
of_list [] = stop
of_list (varint n v ∷ r) = varint_field n v (of_list r)
of_list (delimited n b ∷ r) = delimited_field n b (of_list r)
of_list (fixed n ∷ r) = fixed_field n (of_list r)

unfoldable mutual
  pub byte_length : Packed → ℕ
  byte_length (chars s) = length s
  byte_length (fields r) = size r

  pub size : Fields → ℕ
  size stop = 0
  size (varint_field n v r) = suc (size r)
  size (delimited_field n b r) = suc (byte_length b + size r)
  size (fixed_field n r) = suc (size r)

-- A reader stands between two fields, behind the header of one, or before bytes it cannot read.
pub data Reader : Type 0 where
  between : Wires → Reader
  behind : Wire Packed → Wires → Reader
  broken : ℕ → Reader

abbrev pub new_reader : Packed → Reader
new_reader (chars s) = broken (length s)
new_reader (fields r) = between (to_list r)

abbrev pub next_field : Reader → Outcome (Bool × Reader)
next_field (between []) = returned (false, between [])
next_field (between (x ∷ xs)) = returned (true, behind x xs)
next_field _ = thrown

abbrev pub get_field_number : Reader → ℕ
get_field_number (behind x xs) = number x
get_field_number _ = 0

abbrev pub read_varint : (ℤ → Bool) → Reader → Outcome (ℤ × Reader)
read_varint fits (behind (varint n v) xs) = if fits v then returned (v, between xs) else thrown
read_varint fits _ = thrown

abbrev pub from_utf8 : Packed → Option JsString
from_utf8 (chars s) = some s
from_utf8 (fields r) = none

abbrev pub read_text : Option JsString → Wires → Outcome (JsString × Reader)
read_text (some s) xs = returned (s, between xs)
read_text none xs = thrown

abbrev pub read_string : Reader → Outcome (JsString × Reader)
read_string (behind (delimited n b) xs) = read_text (from_utf8 b) xs
read_string _ = thrown

abbrev pub read_message :
    Slots → (Slots → Reader → Outcome (Slots × Reader)) → Reader → Outcome (Slots × Reader)
read_message o callback (behind (delimited n b) xs) =
    callback o (new_reader b) >>= λ (o', r). returned (o', between xs)
read_message o callback _ = thrown

abbrev pub skip_field : Reader → Outcome Reader
skip_field (behind x xs) = returned (between xs)
skip_field _ = thrown

abbrev pub sample : Runtime
sample = record {
  Obj = Slots;
  RawArray = Slots;
  initialize = λ raw. elim raw [ none ↦ empty | some o ↦ o ];
  get_number_with_default = λ o n d. as_number (find o n) d;
  get_string_with_default = λ o n d. as_string (find o n) d;
  set_proto3_enum_field = λ o n v. put n (numeral v) o;
  set_proto3_int_field = λ o n v. put n (numeral v) o;
  set_proto3_string_field = λ o n s. put n (text s) o;
  get_wrapper_field = λ o construct n. as_object (find o n);
  set_wrapper_field = λ o n value. put n (slot_of value) o;
  get_field_present = λ o n. is_set (find o n);
  Bytes = Packed;
  byte_length = byte_length;
  Writer = Wires;
  new_writer = [];
  write_enum = λ n v w. if in_int32 v then returned (w ++ varint n v ∷ []) else thrown;
  write_int64 = λ n v w. if in_safe v then returned (w ++ varint n v ∷ []) else thrown;
  write_string = λ n s w. returned (w ++ delimited n (chars s) ∷ []);
  write_message = λ n o callback w.
      callback o [] >>= λ inner. returned (w ++ delimited n (fields (of_list inner)) ∷ []);
  get_result_buffer = λ w. fields (of_list w);
  Reader = Reader;
  new_reader = new_reader;
  next_field = next_field;
  is_end_group = λ r. false;
  get_field_number = get_field_number;
  read_enum = read_varint in_int32;
  read_int64 = read_varint in_safe;
  read_string = read_string;
  read_message = read_message;
  skip_field = skip_field;
}

abbrev pub decode : Packed → Option Wires
decode (chars s) = none
decode (fields r) = some (to_list r)

abbrev pub pending : Reader → Option Wires
pending (between xs) = some xs
pending _ = none

abbrev pub current : Reader → Option (Wire Packed × Wires)
current (behind x xs) = some (x, xs)
current _ = none

abbrev pub sample_meaning : Meaning sample
sample_meaning = record {
  encode = λ xs. fields (of_list xs);
  decode = decode;
  utf8 = chars;
  from_utf8 = from_utf8;
  well_formed = λ s. true;
  written = λ w. w;
  pending = pending;
  current = current;
}
