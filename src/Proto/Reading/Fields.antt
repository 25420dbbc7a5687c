-- ===== src/Proto/Reading/Fields.antt =====
-- One round of a `switch`: the call that reads a field, against what the field means.
use im_single.Base.{
  ℕ, true, false, Bool, Option, none, some, [], ◌≡◌, ◌<◌, arith, refl, Outcome, returned, ◌>>=◌,
  if◌then◌else◌, ◌==◌, ==_iff, and_then-eq-some, if-eq-some, ◌∙◌, in_int32, in_safe,
}
use im_single.Jspb.Runtime.{Runtime}
use im_single.Jspb.Format.{
  Wire, varint, delimited, fixed, number, Wires, Meaning, ReaderLaws, payload, least_length,
}
use im_single.Proto.Schema.{Schema, enum, int64, string, nested}
use im_single.Proto.Schema.Merge.{merge_all, merge, merge_field}

module _ (j : Runtime) (m : Meaning j) where
  open j use {
    Obj, Bytes, Reader, initialize, read_enum, read_int64, read_string, read_message, skip_field,
    set_proto3_enum_field, set_proto3_int_field, set_proto3_string_field, set_wrapper_field,
  }
  open m use {pending, current, from_utf8, decode}

  -- If the field means the object, the call returns it, and goes on at `xs`.
  abbrev pub Does : Wires j → Outcome (Obj × Reader) → Option Obj → Type 0
  Does xs act meaning =
      (msg' : Obj)
      → meaning ≡ some msg'
      → (r' : Reader) × (act ≡ returned (msg', r')) × (pending r' ≡ some xs)

  pub Does-if :
      (xs : Wires j) (b : Bool) (act act' : Outcome (Obj × Reader)) (meaning meaning' : Option Obj)
      → (b ≡ true → Does xs act meaning)
      → (b ≡ false → Does xs act' meaning')
      → Does xs (if b then act else act') (if b then meaning else meaning')
  Does-if xs true act act' meaning meaning' h k = h refl
  Does-if xs false act act' meaning meaning' h k = k refl

  module _ (laws : ReaderLaws j m) (msg : Obj) (r : Reader) (xs : Wires j) where
    pub Does-skip :
        (x : Wire Bytes)
        → current r ≡ some (x, xs)
        → Does xs (skip_field r >>= λ r'. returned (msg, r')) (some msg)
    Does-skip x c msg' e = let (r', p, q) = laws.skip_field-current r x xs c in (r', rw p (cc), q)

    pub Does-enum :
        (x : Wire Bytes) (n : ℕ)
        → current r ≡ some (x, xs)
        → (number x == n) ≡ true
        → Does xs
            (read_enum r >>= λ (v, r'). returned (set_proto3_enum_field msg n v, r'))
            (merge_field j m enum msg x)
    unfolding merge_field
    Does-enum (varint k v) n c t msg' e =
        let (fits, same) = if-eq-some (in_int32 v) (set_proto3_enum_field msg k v) e in
        let (r', p, q) = laws.read_enum-current r k v xs c fits in
        (r', rw p (cc (same, (==_iff k n).0 t)), q)
    Does-enum (delimited k b) n c t msg' e = cc
    Does-enum (fixed k) n c t msg' e = cc

    pub Does-int64 :
        (x : Wire Bytes) (n : ℕ)
        → current r ≡ some (x, xs)
        → (number x == n) ≡ true
        → Does xs
            (read_int64 r >>= λ (v, r'). returned (set_proto3_int_field msg n v, r'))
            (merge_field j m int64 msg x)
    unfolding merge_field
    Does-int64 (varint k v) n c t msg' e =
        let (fits, same) = if-eq-some (in_safe v) (set_proto3_int_field msg k v) e in
        let (r', p, q) = laws.read_int64-current r k v xs c fits in
        (r', rw p (cc (same, (==_iff k n).0 t)), q)
    Does-int64 (delimited k b) n c t msg' e = cc
    Does-int64 (fixed k) n c t msg' e = cc

    pub Does-string :
        (x : Wire Bytes) (n : ℕ)
        → current r ≡ some (x, xs)
        → (number x == n) ≡ true
        → Does xs
            (read_string r >>= λ (v, r'). returned (set_proto3_string_field msg n v, r'))
            (merge_field j m string msg x)
    unfolding merge_field
    Does-string (varint k v) n c t msg' e = cc
    Does-string (delimited k b) n c t msg' e =
        let (s, text, set) = and_then-eq-some (from_utf8 b) _ e in
        let (r', p, q) = laws.read_string-current r k b s xs c text in
        (r', rw p (cc (set, (==_iff k n).0 t)), q)
    Does-string (fixed k) n c t msg' e = cc

    -- The callback reads a message of schema `s` from the bytes of a field.
    abbrev pub Reads : Schema → ℕ → (Obj → Reader → Outcome (Obj × Reader)) → Type 0
    Reads s bound callback =
        (ws : Wires j) (inner : Reader) (o : Obj)
        → pending inner ≡ some ws
        → merge_all (merge j m s) (initialize none) ws ≡ some o
        → least_length j ws < bound
        → (end : Reader) × (callback (initialize none) inner ≡ returned (o, end))
          × (pending end ≡ some [])

    pub Does-nested :
        (s : Schema) (callback : Obj → Reader → Outcome (Obj × Reader)) (x : Wire Bytes)
        (n bound : ℕ)
        → Reads s bound callback
        → payload j x < bound
        → current r ≡ some (x, xs)
        → (number x == n) ≡ true
        → Does xs
            (read_message (initialize none) callback r >>= λ (o, r').
              returned (set_wrapper_field msg n (some o), r'))
            (merge_field j m (nested s) msg x)
    unfolding merge_field
    Does-nested s callback (varint k v) n bound h small c t msg' e = cc
    Does-nested s callback (delimited k b) n bound h small c t msg' e =
        let (ws, ed, e1) = and_then-eq-some (decode b) _ e in
        let (o, em, e2) = and_then-eq-some (merge_all (merge j m s) (initialize none) ws) _ e1 in
        let (inner, pi, goes_on) = laws.read_message-current r k b xs c in
        let (end, called, behind) =
          h ws inner o (pi ∙ ed) em (omega (arith, laws.decode-fits b ws ed, small)) in
        let (r', p, q) = goes_on (initialize none) o callback end called behind in
        (r', rw p (cc (e2, (==_iff k n).0 t)), q)
    Does-nested s callback (fixed k) n bound h small c t msg' e = cc
