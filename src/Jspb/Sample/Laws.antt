-- ===== src/Jspb/Sample/Laws.antt =====
-- The assumptions of the interface hold of the sample.
use im_single.Base.{
  ℕ, suc, true, false, Option, none, some, [], ◌∷◌, ◌++◌, ◌+◌, ◌≡◌, ◌≤◌, refl, ap, Outcome,
  returned, arith,
}
use im_single.Jspb.Laws.{ObjectLaws}
use im_single.Jspb.Format.{
  Wire, varint, delimited, fixed, Writes, WriterLaws, ReaderLaws, least_length,
}
use im_single.Jspb.Sample.{
  Slots, Packed, Fields, Wires, Reader, sample, sample_meaning, stop, varint_field, delimited_field,
  fixed_field, to_list, of_list, byte_length, size, decode, between, behind, broken, chars, fields,
  next_field, current, pending, as_object, slot_of,
}

as_object-slot_of : (v : Option Slots) → as_object (slot_of v) ≡ v
as_object-slot_of none = refl
as_object-slot_of (some o) = refl

pub sample_objects : ObjectLaws sample
sample_objects = record {
  number-new = λ k. refl;
  number-set_enum = λ o n k v. ground arith;
  number-set_int = λ o n k v. ground arith;
  number-set_string = λ o n k v h. rw h;
  number-set_wrapper = λ o n k v h. rw h;
  string-new = λ k. refl;
  string-set_enum = λ o n k v h. rw h;
  string-set_int = λ o n k v h. rw h;
  string-set_string = λ o n k v. ground arith;
  string-set_wrapper = λ o n k v h. rw h;
  wrapper-new = λ c k. refl;
  wrapper-set_enum = λ c o n k v h. rw h;
  wrapper-set_int = λ c o n k v h. rw h;
  wrapper-set_string = λ c o n k v h. rw h;
  wrapper-set_wrapper = λ c o n k v. ground arith;
  present-new = λ k. refl;
  present-set_enum = λ o n k v h. rw h;
  present-set_int = λ o n k v h. rw h;
  present-set_string = λ o n k v h. rw h;
  present-set_wrapper = λ o n k v. ground arith;
}

to_list-of_list : (xs : Wires) → to_list (of_list xs) ≡ xs
to_list-of_list [] = refl
to_list-of_list (varint n v ∷ r) = ap (λ t. varint n v ∷ t) (to_list-of_list r)
to_list-of_list (delimited n b ∷ r) = ap (λ t. delimited n b ∷ t) (to_list-of_list r)
to_list-of_list (fixed n ∷ r) = ap (λ t. fixed n ∷ t) (to_list-of_list r)

write_message-sample :
    (n : ℕ) (o : Slots) (callback : Slots → Wires → Outcome Wires) (ws : Wires)
    → Writes sample sample_meaning (callback o) ws
    → Writes sample sample_meaning
        (sample.write_message n o callback)
        (delimited n (fields (of_list ws)) ∷ [])
write_message-sample n o callback ws h w =
    let (inner, e, p) = h [] in (w ++ delimited n (fields (of_list ws)) ∷ [], rw (e, p), refl)

pub sample_writing : WriterLaws sample sample_meaning
sample_writing = record {
  written-new = refl;
  result-written = λ w. refl;
  decode-encode = λ act ws h. ap some (to_list-of_list ws);
  write_enum-Writes = λ n v hn hv w. (w ++ varint n v ∷ [], rw hv, refl);
  write_int64-Writes = λ n v hn hv w. (w ++ varint n v ∷ [], rw hv, refl);
  write_string-Writes = λ n s hn hs w. (w ++ delimited n (chars s) ∷ [], refl, refl);
  write_message-Writes = λ n o callback ws hn h. write_message-sample n o callback ws h;
}

least_length-to_list : (r : Fields) → least_length sample (to_list r) ≡ size r
unfolding size
least_length-to_list stop = refl
least_length-to_list (varint_field n v r) = omega (arith, least_length-to_list r)
least_length-to_list (delimited_field n b r) =
    ap (λ t. suc (byte_length b + t)) (least_length-to_list r)
least_length-to_list (fixed_field n r) = omega (arith, least_length-to_list r)

decode-fits :
    (b : Packed) (xs : Wires) → decode b ≡ some xs → least_length sample xs ≤ byte_length b
unfolding byte_length
decode-fits (chars s) xs h = cc
decode-fits (fields r) xs h =
    let same : to_list r ≡ xs = cc in
    omega (arith, ap (least_length sample) same, least_length-to_list r)

pending-new_reader : (b : Packed) → pending (sample.new_reader b) ≡ sample_meaning.decode b
pending-new_reader (chars s) = refl
pending-new_reader (fields r) = refl

next_field-end : (r : Reader) → pending r ≡ some [] → next_field r ≡ returned (false, between [])
next_field-end (between []) h = refl
next_field-end (between (x ∷ xs)) h = cc
next_field-end (behind x xs) h = cc
next_field-end (broken n) h = cc

next_field-more :
    (r : Reader) (x : Wire Packed) (xs : Wires)
    → pending r ≡ some (x ∷ xs)
    → next_field r ≡ returned (true, behind x xs)
next_field-more (between []) x xs h = cc
next_field-more (between (y ∷ ys)) x xs h = cc
next_field-more (behind y ys) x xs h = cc
next_field-more (broken n) x xs h = cc

-- A reader with a current field stands behind the header of that field.
behind-current :
    (r : Reader) (x : Wire Packed) (xs : Wires) → current r ≡ some (x, xs) → r ≡ behind x xs
behind-current (between ys) x xs h = cc
behind-current (behind y ys) x xs h = cc
behind-current (broken n) x xs h = cc

pub sample_reading : ReaderLaws sample sample_meaning
sample_reading = record {
  from_utf8-utf8 = λ s h. refl;
  decode-fits = decode-fits;
  pending-new = pending-new_reader;
  next_field-end = λ r h. (between [], next_field-end r h, refl);
  next_field-more = λ r x xs h. (behind x xs, next_field-more r x xs h, refl);
  is_end_group-current = λ r x xs h. refl;
  get_field_number-current = λ r x xs h. rw (behind-current r x xs h);
  read_enum-current = λ r n v xs h hv. (between xs, rw (behind-current r _ xs h, hv), refl);
  read_int64-current = λ r n v xs h hv. (between xs, rw (behind-current r _ xs h, hv), refl);
  read_string-current = λ r n b s xs h e. (between xs, rw (behind-current r _ xs h, e), refl);
  read_message-current = λ r n b xs h. (
    sample.new_reader b,
    pending-new_reader b,
    λ o o' callback end e at_end. (between xs, rw (behind-current r _ xs h, e), refl),
  );
  skip_field-current = λ r x xs h. (between xs, rw (behind-current r x xs h), refl);
}
