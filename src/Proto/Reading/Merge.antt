-- ===== src/Proto/Reading/Merge.antt =====
-- The loop of `deserializeBinaryFromReader` against a fold over the fields of the input.
use im_single.Base.{
  and_then-eq-some, ℕ, zero, suc, Option, some, [], ◌∷◌, ◌≡◌, ◌<◌, Outcome, returned, arith,
}
use im_single.Jspb.Runtime.{Runtime}
use im_single.Jspb.Format.{Wire, number, Wires, Meaning, ReaderLaws, payload, least_length}
use im_single.Proto.Schema.Merge.{merge_all}
use im_single.Proto.Reading.{read_fields}

module _ (j : Runtime) (m : Meaning j) where
  open j use {Obj, Bytes, Reader}
  open m use {pending, current}

  -- `read_field` does to a message what `merge` says, for a field with a payload of fewer than `bound`
  -- bytes.
  abbrev pub Handles :
      ℕ → (ℕ → Obj → Reader → Outcome (Obj × Reader)) → (Obj → Wire Bytes → Option Obj) → Type 0
  Handles bound read_field merge =
      (msg msg' : Obj) (r : Reader) (x : Wire Bytes) (xs : Wires j)
      → current r ≡ some (x, xs)
      → merge msg x ≡ some msg'
      → payload j x < bound
      → (r' : Reader) × (read_field (number x) msg r ≡ returned (msg', r')) × (pending r' ≡ some xs)

  module _ (laws : ReaderLaws j m) (bound : ℕ)
      (read_field : ℕ → Obj → Reader → Outcome (Obj × Reader))
      (merge : Obj → Wire Bytes → Option Obj) (handles : Handles bound read_field merge) where
    pub read_fields-merge_all :
        (xs : Wires j) (fuel : ℕ) (msg msg' : Obj) (r : Reader)
        → pending r ≡ some xs
        → merge_all merge msg xs ≡ some msg'
        → least_length j xs < fuel
        → least_length j xs < bound
        → (r' : Reader) × (read_fields j read_field fuel msg r ≡ returned (msg', r'))
          × (pending r' ≡ some [])
    unfolding read_fields
    read_fields-merge_all xs zero msg msg' r hp hm hf hb = absurd (omega arith)
    read_fields-merge_all [] (suc fuel) msg msg' r hp hm hf hb =
        let (r1, e1, p1) = laws.next_field-end r hp in (r1, rw e1 (cc), p1)
    read_fields-merge_all (x ∷ xs) (suc fuel) msg msg' r hp hm hf hb =
        let (r1, e1, c1) = laws.next_field-more r x xs hp in
        let (msg1, em, hm1) = and_then-eq-some (merge msg x) (λ o. merge_all merge o xs) hm in
        let (r2, e2, p2) = handles msg msg1 r1 x xs c1 em (omega (arith, hb)) in
        rw (e1, laws.is_end_group-current r1 x xs c1, laws.get_field_number-current r1 x xs c1, e2)
          (read_fields-merge_all xs fuel msg1 msg' r2 p2 hm1 (omega (arith, hf))
            (omega (arith, hb)))
