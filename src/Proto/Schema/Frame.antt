-- ===== src/Proto/Schema/Frame.antt =====
-- How the setters of an object change the values of its fields.
use im_single.Base.{ℕ, ℤ, Option, none, some, ◌≡◌, ◌==◌, false, ==_refl}
use im_single.Jspb.Runtime.{Runtime, JsString}
use im_single.Jspb.Laws.{ObjectLaws}
use im_single.Proto.Schema.{FieldType, Schema, enum, int64, string, nested}
use im_single.Proto.Schema.Plain.{
  enum_value, int64_value, string_value, object, blank, value, plain,
}

module _ (j : Runtime) (laws : ObjectLaws j) where
  open j use {
    Obj, initialize, set_proto3_enum_field, set_proto3_int_field, set_proto3_string_field,
    set_wrapper_field,
  }

  -- `o'` differs from `o` in field `n` at most.
  abbrev pub SameBut : ℕ → Obj → Obj → Type 0
  SameBut n o o' = (t : FieldType) (k : ℕ) → (n == k) ≡ false → value j t o' k ≡ value j t o k

  pub set_enum-SameBut : (o : Obj) (n : ℕ) (v : ℤ) → SameBut n o (set_proto3_enum_field o n v)
  unfolding value
  set_enum-SameBut o n v enum k h = rw (laws.number-set_enum o n k v, h)
  set_enum-SameBut o n v int64 k h = rw (laws.number-set_enum o n k v, h)
  set_enum-SameBut o n v string k h = rw (laws.string-set_enum o n k v h)
  set_enum-SameBut o n v (nested s) k h = rw (laws.wrapper-set_enum initialize o n k v h)

  pub set_int-SameBut : (o : Obj) (n : ℕ) (v : ℤ) → SameBut n o (set_proto3_int_field o n v)
  unfolding value
  set_int-SameBut o n v enum k h = rw (laws.number-set_int o n k v, h)
  set_int-SameBut o n v int64 k h = rw (laws.number-set_int o n k v, h)
  set_int-SameBut o n v string k h = rw (laws.string-set_int o n k v h)
  set_int-SameBut o n v (nested s) k h = rw (laws.wrapper-set_int initialize o n k v h)

  pub set_string-SameBut :
      (o : Obj) (n : ℕ) (v : JsString) → SameBut n o (set_proto3_string_field o n v)
  unfolding value
  set_string-SameBut o n v enum k h = rw (laws.number-set_string o n k v h)
  set_string-SameBut o n v int64 k h = rw (laws.number-set_string o n k v h)
  set_string-SameBut o n v string k h = rw (laws.string-set_string o n k v, h)
  set_string-SameBut o n v (nested s) k h = rw (laws.wrapper-set_string initialize o n k v h)

  pub set_wrapper-SameBut :
      (o : Obj) (n : ℕ) (v : Option Obj) → SameBut n o (set_wrapper_field o n v)
  unfolding value
  set_wrapper-SameBut o n v enum k h = rw (laws.number-set_wrapper o n k v h)
  set_wrapper-SameBut o n v int64 k h = rw (laws.number-set_wrapper o n k v h)
  set_wrapper-SameBut o n v string k h = rw (laws.string-set_wrapper o n k v h)
  set_wrapper-SameBut o n v (nested s) k h = rw (laws.wrapper-set_wrapper initialize o n k v, h)

  pub value-set_enum :
      (o : Obj) (n : ℕ) (v : ℤ) → value j enum (set_proto3_enum_field o n v) n ≡ enum_value v
  unfolding value
  value-set_enum o n v = rw (laws.number-set_enum o n n v, ==_refl n)

  pub value-set_int :
      (o : Obj) (n : ℕ) (v : ℤ) → value j int64 (set_proto3_int_field o n v) n ≡ int64_value v
  unfolding value
  value-set_int o n v = rw (laws.number-set_int o n n v, ==_refl n)

  pub value-set_string :
      (o : Obj) (n : ℕ) (v : JsString)
      → value j string (set_proto3_string_field o n v) n ≡ string_value v
  unfolding value
  value-set_string o n v = rw (laws.string-set_string o n n v, ==_refl n)

  pub value-set_wrapper :
      (s : Schema) (o : Obj) (n : ℕ) (i : Obj)
      → value j (nested s) (set_wrapper_field o n (some i)) n ≡ object (plain j s i)
  unfolding value
  value-set_wrapper s o n i = rw (laws.wrapper-set_wrapper initialize o n n (some i), ==_refl n)

  -- Each field of a new object is blank.
  pub value-new : (t : FieldType) (n : ℕ) → value j t (initialize none) n ≡ blank t
  unfolding value
  value-new enum n = rw (laws.number-new n)
  value-new int64 n = rw (laws.number-new n)
  value-new string n = rw (laws.string-new n)
  value-new (nested s) n = rw (laws.wrapper-new initialize n)
