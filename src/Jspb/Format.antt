-- ===== src/Jspb/Format.antt =====
-- What load-test/packet_pb.js relies on of the readers and writers of load-test/google-protobuf.js.
use im_single.Base.{
  ℕ, suc, ◌+◌, ℤ, true, false, Option, some, List, [], ◌∷◌, ◌++◌, ◌≡◌, ◌≤◌, ◌^◌, leb, ltb, ◌&&◌,
  Outcome, returned, in_int32, in_safe, Bool,
}
use im_single.Jspb.Runtime.{Runtime, JsString}

-- One field of the protobuf wire format: its number and its payload. A group is none of these.
pub data Wire (Bytes : Type 0) : Type 0 where
  varint : ℕ → ℤ → Wire Bytes
  delimited : ℕ → Bytes → Wire Bytes
  -- 32 or 64 bits, which no field of packet.proto uses
  fixed : ℕ → Wire Bytes

abbrev pub number : {Bytes : Type 0} → Wire Bytes → ℕ
number (varint n v) = n
number (delimited n b) = n
number (fixed n) = n

-- The field numbers of the wire format.
abbrev pub is_field_number : ℕ → Bool
is_field_number n = leb 1 n && ltb n (2 ^ 29)

module _ (j : Runtime) where
  open j use {
    Obj, Bytes, byte_length, Writer, new_writer, write_enum, write_int64, write_string,
    write_message, get_result_buffer, Reader, new_reader, next_field, is_end_group,
    get_field_number, read_enum, read_int64, read_string, read_message, skip_field,
  }

  abbrev pub Wires : Type 0
  Wires = List (Wire Bytes)

  -- What bytes mean, and how far a reader or a writer has come. The program computes none of these:
  -- they are the words in which the documentation says what the operations do.
  pub record Meaning : Type 0 where
    pub encode : Wires → Bytes
    -- `none` if the bytes are no sequence of such fields
    pub decode : Bytes → Option Wires
    pub utf8 : JsString → Bytes
    -- `none` if the bytes are not UTF-8
    pub from_utf8 : Bytes → Option JsString
    -- no lone surrogate, and code units of 16 bits
    pub well_formed : JsString → Bool
    pub written : Writer → Wires
    -- what a reader has before it, between two fields
    pub pending : Reader → Option Wires
    -- the field whose header a reader has just read, and what follows that field
    pub current : Reader → Option (Wire Bytes × Wires)

  -- How many bytes the payload of a field has, where that is a sequence of bytes, and at least how many
  -- a sequence of fields has: one for the header of each.
  abbrev pub payload : Wire Bytes → ℕ
  payload (delimited n b) = byte_length b
  payload other = 0

  abbrev pub least_length : Wires → ℕ
  least_length [] = 0
  least_length (x ∷ xs) = suc (payload x + least_length xs)

  module _ (m : Meaning) where
    open m use {encode, decode, utf8, from_utf8, well_formed, written, pending, current}

    -- `act` adds the fields `ws` to what the writer has written.
    abbrev pub Writes : (Writer → Outcome Writer) → Wires → Type 0
    Writes act ws =
        (w : Writer) → (w' : Writer) × (act w ≡ returned w') × (written w' ≡ written w ++ ws)

    pub record WriterLaws : Type 0 where
      pub written-new : written new_writer ≡ []
      pub result-written : (w : Writer) → get_result_buffer w ≡ encode (written w)
      -- What a writer can write is well formed.
      pub decode-encode :
          (act : Writer → Outcome Writer) (ws : Wires)
          → Writes act ws
          → decode (encode ws) ≡ some ws
      pub write_enum-Writes :
          (n : ℕ) (v : ℤ)
          → is_field_number n ≡ true
          → in_int32 v ≡ true
          → Writes (write_enum n v) (varint n v ∷ [])
      pub write_int64-Writes :
          (n : ℕ) (v : ℤ)
          → is_field_number n ≡ true
          → in_safe v ≡ true
          → Writes (write_int64 n v) (varint n v ∷ [])
      pub write_string-Writes :
          (n : ℕ) (s : JsString)
          → is_field_number n ≡ true
          → well_formed s ≡ true
          → Writes (write_string n s) (delimited n (utf8 s) ∷ [])
      -- The bytes of a nested message stand in the field as a whole.
      pub write_message-Writes :
          (n : ℕ) (o : Obj) (callback : Obj → Writer → Outcome Writer) (ws : Wires)
          → is_field_number n ≡ true
          → Writes (callback o) ws
          → Writes (write_message n o callback) (delimited n (encode ws) ∷ [])

    pub record ReaderLaws : Type 0 where
      pub from_utf8-utf8 : (s : JsString) → well_formed s ≡ true → from_utf8 (utf8 s) ≡ some s
      -- The fields stand one behind the other in the bytes.
      pub decode-fits :
          (b : Bytes) (xs : Wires) → decode b ≡ some xs → least_length xs ≤ byte_length b
      pub pending-new : (b : Bytes) → pending (new_reader b) ≡ decode b
      pub next_field-end :
          (r : Reader)
          → pending r ≡ some []
          → (r' : Reader) × (next_field r ≡ returned (false, r')) × (pending r' ≡ some [])
      pub next_field-more :
          (r : Reader) (x : Wire Bytes) (xs : Wires)
          → pending r ≡ some (x ∷ xs)
          → (r' : Reader) × (next_field r ≡ returned (true, r')) × (current r' ≡ some (x, xs))
      pub is_end_group-current :
          (r : Reader) (x : Wire Bytes) (xs : Wires)
          → current r ≡ some (x, xs)
          → is_end_group r ≡ false
      pub get_field_number-current :
          (r : Reader) (x : Wire Bytes) (xs : Wires)
          → current r ≡ some (x, xs)
          → get_field_number r ≡ number x
      pub read_enum-current :
          (r : Reader) (n : ℕ) (v : ℤ) (xs : Wires)
          → current r ≡ some (varint n v, xs)
          → in_int32 v ≡ true
          → (r' : Reader) × (read_enum r ≡ returned (v, r')) × (pending r' ≡ some xs)
      pub read_int64-current :
          (r : Reader) (n : ℕ) (v : ℤ) (xs : Wires)
          → current r ≡ some (varint n v, xs)
          → in_safe v ≡ true
          → (r' : Reader) × (read_int64 r ≡ returned (v, r')) × (pending r' ≡ some xs)
      pub read_string-current :
          (r : Reader) (n : ℕ) (b : Bytes) (s : JsString) (xs : Wires)
          → current r ≡ some (delimited n b, xs)
          → from_utf8 b ≡ some s
          → (r' : Reader) × (read_string r ≡ returned (s, r')) × (pending r' ≡ some xs)
      -- The callback reads within the bytes of the field. If it comes to their end, the reader goes on
      -- behind them.
      pub read_message-current :
          (r : Reader) (n : ℕ) (b : Bytes) (xs : Wires)
          → current r ≡ some (delimited n b, xs)
          → (inner : Reader) × (pending inner ≡ decode b)
            × ((o o' : Obj) (callback : Obj → Reader → Outcome (Obj × Reader)) (end : Reader)
                → callback o inner ≡ returned (o', end)
                → pending end ≡ some []
                → (r' : Reader) × (read_message o callback r ≡ returned (o', r'))
                  × (pending r' ≡ some xs))
      pub skip_field-current :
          (r : Reader) (x : Wire Bytes) (xs : Wires)
          → current r ≡ some (x, xs)
          → (r' : Reader) × (skip_field r ≡ returned r') × (pending r' ≡ some xs)
