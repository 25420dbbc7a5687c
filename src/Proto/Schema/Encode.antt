-- ===== src/Proto/Schema/Encode.antt =====
-- A writer for any plain object, and what it writes.
use im_single.Base.{
  ℕ, true, Bool, none, some, [], ◌++◌, ◌≡◌, refl, sym, Outcome, returned, ◌>>=◌, is_zero,
  if_present, Option, some, ltb, length, if◌then◌else◌, arith, false,
}
use mathlib.Core.List.{append-nil, append_assoc}
use im_single.Jspb.Runtime.{Runtime}
use im_single.Jspb.Format.{Wires, Meaning, Writes, WriterLaws, is_field_number}
use im_single.Proto.Schema.{Schema}
use im_single.Proto.Schema.Plain.{
  plain, wrap, Value, Plain, enum_value, int64_value, string_value, absent, object, nil, entry,
  valid, valid_value, wire, wires,
}

module _ (j : Runtime) (m : Meaning j) where
  open j use {
    Obj, Writer, new_writer, get_result_buffer, initialize, write_enum, write_int64, write_string,
    write_message,
  }
  open m use {written, encode, decode}

  pub Writes-returned : Writes j m returned []
  Writes-returned w = (w, refl, sym (append-nil (written w)))

  pub Writes-bind :
      (a b : Writer → Outcome Writer) (xs ys : Wires j)
      → Writes j m a xs
      → Writes j m b ys
      → Writes j m (λ w. a w >>= b) (xs ++ ys)
  Writes-bind a b xs ys ha hb w =
      let (w1, e1, p1) = ha w in
      let (w2, e2, p2) = hb w1 in (w2, rw (e1, e2), rw (p2, p1) (append_assoc (written w) xs ys))

  pub Writes-last :
      (a : Writer → Outcome Writer) (xs : Wires j) → Writes j m a xs → Writes j m a (xs ++ [])
  Writes-last a xs h = rw (append-nil) h

  pub Writes-if :
      (t : Bool) (a b : Writer → Outcome Writer) (xs ys : Wires j)
      → (t ≡ true → Writes j m a xs)
      → (t ≡ false → Writes j m b ys)
      → Writes j m (λ w. if t then a w else b w) (if t then xs else ys)
  Writes-if true a b xs ys ha hb = ha refl
  Writes-if false a b xs ys ha hb = hb refl

  unfoldable mutual
    pub write_value : ℕ → Value → Writer → Outcome Writer
    write_value n (enum_value v) w = if is_zero v then returned w else write_enum n v w
    write_value n (int64_value v) w = if is_zero v then returned w else write_int64 n v w
    write_value n (string_value s) w = if ltb 0 (length s) then write_string n s w else returned w
    write_value n absent w = returned w
    write_value n (object p) w = write_message n (initialize none) (λ _. write_plain p) w

    pub write_plain : Plain → Writer → Outcome Writer
    write_plain nil w = returned w
    write_plain (entry n v p) w = write_value n v w >>= write_plain p

  module _ (laws : WriterLaws j m) where
    mutual
      unfolding write_value write_plain valid wires

      pub write_value-Writes :
          (n : ℕ) (v : Value)
          → is_field_number n ≡ true
          → valid_value j m v ≡ true
          → Writes j m (write_value n v) (wire j m n v)
      write_value-Writes n (enum_value v) hn hv =
          Writes-if (is_zero v) returned (write_enum n v) [] _ (λ _. Writes-returned)
            (λ _. laws.write_enum-Writes n v hn hv)
      write_value-Writes n (int64_value v) hn hv =
          Writes-if (is_zero v) returned (write_int64 n v) [] _ (λ _. Writes-returned)
            (λ _. laws.write_int64-Writes n v hn hv)
      write_value-Writes n (string_value s) hn hv =
          Writes-if (ltb 0 (length s)) (write_string n s) returned _ []
            (λ _. laws.write_string-Writes n s hn hv) (λ _. Writes-returned)
      write_value-Writes n absent hn hv = Writes-returned
      write_value-Writes n (object p) hn hv =
          laws.write_message-Writes n (initialize none) (λ _. write_plain p) (wires j m p) hn
            (write_plain-Writes p hv)

      pub write_plain-Writes :
          (p : Plain) → valid j m p ≡ true → Writes j m (write_plain p) (wires j m p)
      write_plain-Writes nil h = Writes-returned
      write_plain-Writes (entry n v p) h =
          Writes-bind (write_value n v) (write_plain p) (wire j m n v) (wires j m p)
            (write_value-Writes n v (ground arith) (ground arith))
            (write_plain-Writes p (ground arith))

    -- The bytes of a valid object decode to its fields.
    pub decode-wires :
        (p : Plain) → valid j m p ≡ true → decode (encode (wires j m p)) ≡ some (wires j m p)
    decode-wires p h = laws.decode-encode (write_plain p) (wires j m p) (write_plain-Writes p h)

    -- An optional message, written by a callback that writes the fields of its object.
    pub Writes-present :
        (s : Schema) (n : ℕ) (w : Option Obj) (callback : Obj → Writer → Outcome Writer)
        → is_field_number n ≡ true
        → ((i : Obj)
            → valid j m (plain j s i) ≡ true
            → Writes j m (callback i) (wires j m (plain j s i)))
        → valid_value j m (wrap (plain j s) w) ≡ true
        → Writes j m
            (λ writer. if_present w (λ f. write_message n f callback writer) (returned writer))
            (wire j m n (wrap (plain j s) w))
    unfolding valid_value wire
    Writes-present s n none callback hn h hv = Writes-returned
    Writes-present s n (some i) callback hn h hv =
        laws.write_message-Writes n i callback (wires j m (plain j s i)) hn (h i hv)

    -- The buffer of a new writer, after a valid object has been written into it.
    pub Writes-buffer :
        (act : Writer → Outcome Writer) (p : Plain)
        → valid j m p ≡ true
        → Writes j m act (wires j m p)
        → (w : Writer) × (act new_writer ≡ returned w)
          × (decode (get_result_buffer w) ≡ some (wires j m p))
    Writes-buffer act p h ha =
        let (w, e, q) = ha new_writer in
        let all : written w ≡ wires j m p = rw (q, laws.written-new) in
        (w, e, rw (laws.result-written w, all) (decode-wires p h))
