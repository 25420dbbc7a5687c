-- ===== src/Proto/Schema/RoundTrip.antt =====
-- Reading back, by the declaration of a message, the fields that stand for an object.
use im_single.Base.{
  ℕ, ℤ, Bool, true, false, ◌&&◌, Option, none, some, List, [], ◌∷◌, ◌≡◌, refl, sym, ap, ◌∙◌, arith,
  if◌then◌else◌, Bool-cases, inl, inr, eq_of_is_zero, is_zero, ltb, length, in_int32, in_safe,
  and_true, eq_false_of_not, not, ◌==◌,
}
use mathlib.Core.Path.{ap₂}
use im_single.Jspb.Runtime.{Runtime, JsString}
use im_single.Jspb.Laws.{ObjectLaws}
use im_single.Jspb.Format.{
  Wire, Wires, Meaning, WriterLaws, ReaderLaws, is_field_number, number, varint, delimited,
}
use im_single.Proto.Schema.{FieldType, Schema, enum, int64, string, nested, end, field}
use im_single.Proto.Schema.Plain.{
  Value, enum_value, int64_value, string_value, absent, object, entry, valid, valid_value, wire,
  wires, value, plain, blank, wrap,
}
use im_single.Proto.Schema.Merge.{merge_all, merge, merge_field}
use im_single.Proto.Schema.Frame.{
  SameBut, set_enum-SameBut, set_int-SameBut, set_string-SameBut, set_wrapper-SameBut,
  value-set_enum, value-set_int, value-set_string, value-set_wrapper,
}
use im_single.Proto.Schema.Encode.{decode-wires}
use im_single.Proto.Schema.Distinct.{
  not_in, distinct, distinct_type, merge_all-append, Blank, Blank-new, Blank-SameBut, Finds, Suffix,
  Suffix-self,
}

nil_of_length {ℓ} : {A : Type ℓ} (s : List A) → ltb 0 (length s) ≡ false → s ≡ []
nil_of_length s h = ground arith

module _ (j : Runtime) (m : Meaning j) (objects : ObjectLaws j) where
  open j use {
    Obj, initialize, Bytes, set_proto3_enum_field, set_proto3_int_field, set_proto3_string_field,
    set_wrapper_field,
  }
  open m use {utf8, from_utf8, encode, decode, well_formed}

  -- What reading the fields `xs` into field `n` of `a` leaves there, and that it leaves all else.
  abbrev Reads : FieldType → ℕ → Obj → Wires j → Value → Type 0
  Reads t n a xs v =
      (a1 : Obj) × (merge_all (merge_field j m t) a xs ≡ some a1)
      × (value j t a1 n ≡ v)
      × SameBut j objects n a a1

  read_enum_value :
      (n : ℕ) (v : ℤ) (a : Obj)
      → value j enum a n ≡ blank enum
      → in_int32 v ≡ true
      → Reads enum n a (if is_zero v then [] else varint n v ∷ []) (enum_value v)
  unfolding merge_field
  read_enum_value n v a b h = elim (Bool-cases (is_zero v)) [
    | inl z ↦ (a, rw z, b ∙ ap enum_value (sym (eq_of_is_zero v z)), λ t k p. refl)
    | inr z ↦ (
      set_proto3_enum_field a n v,
      rw (z, h),
      value-set_enum j objects a n v,
      set_enum-SameBut j objects a n v,
    )
  ]

  read_int64_value :
      (n : ℕ) (v : ℤ) (a : Obj)
      → value j int64 a n ≡ blank int64
      → in_safe v ≡ true
      → Reads int64 n a (if is_zero v then [] else varint n v ∷ []) (int64_value v)
  unfolding merge_field
  read_int64_value n v a b h = elim (Bool-cases (is_zero v)) [
    | inl z ↦ (a, rw z, b ∙ ap int64_value (sym (eq_of_is_zero v z)), λ t k p. refl)
    | inr z ↦ (
      set_proto3_int_field a n v,
      rw (z, h),
      value-set_int j objects a n v,
      set_int-SameBut j objects a n v,
    )
  ]

  module _ (writing : WriterLaws j m) (reading : ReaderLaws j m) where
    read_string_value :
        (n : ℕ) (s : JsString) (a : Obj)
        → value j string a n ≡ blank string
        → well_formed s ≡ true
        → Reads string n a
            (if ltb 0 (length s) then delimited n (utf8 s) ∷ [] else [])
            (string_value s)
    unfolding merge_field
    read_string_value n s a b h = elim (Bool-cases (ltb 0 (length s))) [
      | inl z ↦ (
        set_proto3_string_field a n s,
        rw (z, reading.from_utf8-utf8 s h),
        value-set_string j objects a n s,
        set_string-SameBut j objects a n s,
      )
      | inr z ↦ (a, rw z, b ∙ ap string_value (sym (nil_of_length s z)), λ t k p. refl)
    ]

    read_nested_value :
        (s : Schema) (n : ℕ) (w : Option Obj) (a : Obj)
        → value j (nested s) a n ≡ absent
        → valid_value j m (wrap (plain j s) w) ≡ true
        → ((i : Obj)
            → valid j m (plain j s i) ≡ true
            → (o : Obj) × (merge_all (merge j m s) (initialize none) (wires j m (plain j s i))
                ≡ some o)
              × (plain j s o ≡ plain j s i))
        → Reads (nested s) n a (wire j m n (wrap (plain j s) w)) (wrap (plain j s) w)
    unfolding merge_field wire valid_value
    read_nested_value s n none a b h ih = (a, refl, b, λ t k p. refl)
    read_nested_value s n (some i) a b h ih =
        let (o, e, p) = ih i h in
        (
          set_wrapper_field a n (some o),
          rw (decode-wires j m writing (plain j s i) h, e),
          value-set_wrapper j objects s a n o ∙ ap object p,
          set_wrapper-SameBut j objects a n (some o),
        )

    module _ (s : Schema) (n : ℕ) (t : FieldType) (a : Obj) (f : Finds j m objects s n t) where
      -- The message reads the fields as the one field with their number does.
      abbrev Agree : Wires j → Type 0
      Agree xs = merge_all (merge j m s) a xs ≡ merge_all (merge_field j m t) a xs

      Agree-one : (x : Wire Bytes) → number x ≡ n → Agree (x ∷ [])
      Agree-one x e = rw (f a x e)

      Agree-if : (b : Bool) (xs ys : Wires j) → Agree xs → Agree ys → Agree (if b then xs else ys)
      Agree-if true xs ys hx hy = hx
      Agree-if false xs ys hx hy = hy

      Agree-wire : (v : Value) → Agree (wire j m n v)
      unfolding wire
      Agree-wire (enum_value v) = Agree-if (is_zero v) _ _ refl (Agree-one _ refl)
      Agree-wire (int64_value v) = Agree-if (is_zero v) _ _ refl (Agree-one _ refl)
      Agree-wire (string_value v) = Agree-if (ltb 0 (length v)) _ _ (Agree-one _ refl) refl
      Agree-wire absent = refl
      Agree-wire (object p) = Agree-one _ refl

    -- One field after another reads back, up to the end of the message.
    mutual
      unfolding plain value valid wires distinct distinct_type not_in

      Reads-field :
          (t : FieldType) (n : ℕ) (a o : Obj)
          → distinct_type t ≡ true
          → value j t a n ≡ blank t
          → valid_value j m (value j t o n) ≡ true
          → Reads t n a (wire j m n (value j t o n)) (value j t o n)
      Reads-field enum n a o d b h = read_enum_value n _ a b h
      Reads-field int64 n a o d b h = read_int64_value n _ a b h
      Reads-field string n a o d b h = read_string_value n _ a b h
      Reads-field (nested s) n a o d b h = read_nested_value s n _ a b h λ i hi.
          let (o', e, p, same) =
            Reads-all s s (initialize none) i d (Suffix-self j m objects s d)
              (Blank-new j m objects s) hi in
          (o', e, p)

      Reads-all :
          (fs s : Schema) (a o : Obj)
          → distinct fs ≡ true
          → Suffix j m objects s fs
          → Blank j m objects fs a
          → valid j m (plain j fs o) ≡ true
          → (a' : Obj) × (merge_all (merge j m s) a (wires j m (plain j fs o)) ≡ some a')
            × (plain j fs a' ≡ plain j fs o)
            × ((t : FieldType) (k : ℕ) → not_in k fs ≡ true → value j t a' k ≡ value j t a k)
      Reads-all end s a o d c b h = (a, refl, refl, λ t k p. refl)
      Reads-all (field n t fs) s a o d c b h =
          let v : Value = value j t o n in
          let (hn, hd) = and_true (not_in n fs) (distinct_type t && distinct fs) d in
          let (dt, df) = and_true (distinct_type t) (distinct fs) hd in
          let hv =
            (and_true (is_field_number n) (valid_value j m v && valid j m (plain j fs o)) h).1 in
          let (v1, v2) = and_true (valid_value j m v) (valid j m (plain j fs o)) hv in
          let (a1, e1, p1, same1) = Reads-field t n a o dt b.0 v1 in
          let (a', e, p, same) =
            Reads-all fs s a1 o df c.1 (Blank-SameBut j m objects fs n a a1 hn same1 b.1) v2 in
          (
            a',
            merge_all-append (merge j m s) (wire j m n v) _ a a1 (Agree-wire s n t a c.0 v ∙ e1)
                ∙ e,
            ap₂ (entry n) (same t n hn ∙ p1) p,
            λ u k hk.
                let (apart, rest) = and_true (not (n == k)) (not_in k fs) hk in
                same u k rest ∙ same1 u k (eq_false_of_not (n == k) apart),
          )

    -- A new message that reads the fields of an object holds the values of that object.
    pub merge_all-wires :
        (s : Schema) (o : Obj)
        → distinct s ≡ true
        → valid j m (plain j s o) ≡ true
        → (o' : Obj) × (merge_all (merge j m s) (initialize none) (wires j m (plain j s o))
            ≡ some o')
          × (plain j s o' ≡ plain j s o)
    merge_all-wires s o d h =
        let (o', e, p, same) =
          Reads-all s s (initialize none) o d (Suffix-self j m objects s d)
            (Blank-new j m objects s) h in
        (o', e, p)
