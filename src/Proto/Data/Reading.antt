-- ===== src/Proto/Data/Reading.antt =====
-- `proto.Data.deserializeBinary` against the declaration of the message.
use im_single.Base.{ℕ, none, some, [], ◌≡◌, ◌<◌, returned, ◌==◌, ◌∙◌, arith}
use im_single.Jspb.Runtime.{Runtime}
use im_single.Jspb.Format.{Wires, number, Meaning, ReaderLaws, least_length}
use im_single.Proto.Schema.{data_schema}
use im_single.Proto.Schema.Merge.{merge_all, merge}
use im_single.Proto.Reading.Merge.{Handles, read_fields-merge_all}
use im_single.Proto.Reading.Fields.{Does, Does-if, Does-skip, Does-int64, Does-string}
use im_single.Proto.Data.{construct, read_field, deserialize_binary_from_reader, deserialize_binary}

module _ (j : Runtime) (m : Meaning j) where
  open j use {
    Obj, Bytes, Reader, new_reader, initialize, byte_length, read_enum, read_int64, read_string,
  }
  open m use {pending, decode}

  module _ (laws : ReaderLaws j m) where
    pub read_field-Handles : (bound : ℕ) → Handles j m bound (read_field j) (merge j m data_schema)
    unfolding read_field merge
    read_field-Handles bound msg msg' r x xs c e hb = go msg' e
      where
        go : Does j m xs (read_field j (number x) msg r) (merge j m data_schema msg x)
        go = Does-if j m xs (number x == 1) _ _ _ _ (Does-string j m laws msg r xs x 1 c) (λ _.
            Does-if j m xs (number x == 2) _ _ _ _ (Does-string j m laws msg r xs x 2 c) (λ _.
              Does-if j m xs (number x == 3) _ _ _ _ (Does-string j m laws msg r xs x 3 c) (λ _.
                Does-if j m xs (number x == 4) _ _ _ _ (Does-int64 j m laws msg r xs x 4 c)
                  (λ _. Does-skip j m laws msg r xs x c))))

    pub data_from_reader-merge_all :
        (xs : Wires j) (fuel : ℕ) (msg msg' : Obj) (r : Reader)
        → pending r ≡ some xs
        → merge_all (merge j m data_schema) msg xs ≡ some msg'
        → least_length j xs < fuel
        → (r' : Reader) × (deserialize_binary_from_reader j fuel msg r ≡ returned (msg', r'))
          × (pending r' ≡ some [])
    unfolding deserialize_binary_from_reader
    data_from_reader-merge_all xs fuel msg msg' r hp hm hf =
        read_fields-merge_all j m laws fuel (read_field j) (merge j m data_schema)
          (read_field-Handles fuel) xs fuel msg msg' r hp hm hf hf

    -- If the bytes are a sequence of fields, each of the type that packet.proto declares for its number
    -- or with a number that it does not declare, the numbers are in the range of their types and the
    -- strings are UTF-8, then `deserializeBinary`, given a round for each byte and one more, returns the
    -- message that results from setting each field in turn: a later field replaces an earlier one, and
    -- undeclared fields are passed over.
    pub data_deserialize-merge_all :
        (rounds : ℕ) (bytes : Bytes) (xs : Wires j) (msg : Obj)
        → byte_length bytes < rounds
        → decode bytes ≡ some xs
        → merge_all (merge j m data_schema) (initialize none) xs ≡ some msg
        → deserialize_binary j rounds bytes ≡ returned msg
    unfolding deserialize_binary construct
    data_deserialize-merge_all rounds bytes xs msg enough hd hm =
        let (r, e, p) =
          data_from_reader-merge_all xs rounds (initialize none) msg (new_reader bytes)
            (laws.pending-new bytes ∙ hd) hm
            (omega (arith, laws.decode-fits bytes xs hd, enough)) in
        rw e
