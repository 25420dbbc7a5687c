-- ===== src/Jspb/Laws.antt =====
-- What load-test/packet_pb.js relies on of the message objects of load-test/google-protobuf.js.
use im_single.Base.{ℕ, ℤ, pos, Bool, true, false, Option, none, some, [], ◌≡◌, ◌==◌, if◌then◌else◌}
use im_single.Jspb.Runtime.{Runtime, JsString}

abbrev pub is_some {ℓ} : {A : Type ℓ} → Option A → Bool
is_some none = false
is_some (some a) = true

module _ (j : Runtime) where
  open j use {
    Obj, RawArray, initialize, get_number_with_default, get_string_with_default,
    set_proto3_enum_field, set_proto3_int_field, set_proto3_string_field, get_wrapper_field,
    set_wrapper_field, get_field_present,
  }

  -- A new object has the defaults. A field that is set reads back; setting a proto3 field to the
  -- default of its type clears it, and it reads as that default. Other fields keep their values.
  pub record ObjectLaws : Type 0 where
    pub number-new : (k : ℕ) → get_number_with_default (initialize none) k (pos 0) ≡ pos 0
    pub number-set_enum :
        (o : Obj) (n k : ℕ) (v : ℤ)
        → get_number_with_default (set_proto3_enum_field o n v) k (pos 0)
          ≡ (if n == k then v else get_number_with_default o k (pos 0))
    pub number-set_int :
        (o : Obj) (n k : ℕ) (v : ℤ)
        → get_number_with_default (set_proto3_int_field o n v) k (pos 0)
          ≡ (if n == k then v else get_number_with_default o k (pos 0))
    pub number-set_string :
        (o : Obj) (n k : ℕ) (v : JsString)
        → (n == k) ≡ false
        → get_number_with_default (set_proto3_string_field o n v) k (pos 0)
          ≡ get_number_with_default o k (pos 0)
    pub number-set_wrapper :
        (o : Obj) (n k : ℕ) (v : Option Obj)
        → (n == k) ≡ false
        → get_number_with_default (set_wrapper_field o n v) k (pos 0)
          ≡ get_number_with_default o k (pos 0)
    pub string-new : (k : ℕ) → get_string_with_default (initialize none) k [] ≡ []
    pub string-set_enum :
        (o : Obj) (n k : ℕ) (v : ℤ)
        → (n == k) ≡ false
        → get_string_with_default (set_proto3_enum_field o n v) k []
          ≡ get_string_with_default o k []
    pub string-set_int :
        (o : Obj) (n k : ℕ) (v : ℤ)
        → (n == k) ≡ false
        → get_string_with_default (set_proto3_int_field o n v) k [] ≡ get_string_with_default o k []
    pub string-set_string :
        (o : Obj) (n k : ℕ) (v : JsString)
        → get_string_with_default (set_proto3_string_field o n v) k []
          ≡ (if n == k then v else get_string_with_default o k [])
    pub string-set_wrapper :
        (o : Obj) (n k : ℕ) (v : Option Obj)
        → (n == k) ≡ false
        → get_string_with_default (set_wrapper_field o n v) k [] ≡ get_string_with_default o k []
    pub wrapper-new :
        (ctor : Option RawArray → Obj) (k : ℕ) → get_wrapper_field (initialize none) ctor k ≡ none
    pub wrapper-set_enum :
        (ctor : Option RawArray → Obj) (o : Obj) (n k : ℕ) (v : ℤ)
        → (n == k) ≡ false
        → get_wrapper_field (set_proto3_enum_field o n v) ctor k ≡ get_wrapper_field o ctor k
    pub wrapper-set_int :
        (ctor : Option RawArray → Obj) (o : Obj) (n k : ℕ) (v : ℤ)
        → (n == k) ≡ false
        → get_wrapper_field (set_proto3_int_field o n v) ctor k ≡ get_wrapper_field o ctor k
    pub wrapper-set_string :
        (ctor : Option RawArray → Obj) (o : Obj) (n k : ℕ) (v : JsString)
        → (n == k) ≡ false
        → get_wrapper_field (set_proto3_string_field o n v) ctor k ≡ get_wrapper_field o ctor k
    pub wrapper-set_wrapper :
        (ctor : Option RawArray → Obj) (o : Obj) (n k : ℕ) (v : Option Obj)
        → get_wrapper_field (set_wrapper_field o n v) ctor k
          ≡ (if n == k then v else get_wrapper_field o ctor k)
    pub present-new : (k : ℕ) → get_field_present (initialize none) k ≡ false
    pub present-set_enum :
        (o : Obj) (n k : ℕ) (v : ℤ)
        → (n == k) ≡ false
        → get_field_present (set_proto3_enum_field o n v) k ≡ get_field_present o k
    pub present-set_int :
        (o : Obj) (n k : ℕ) (v : ℤ)
        → (n == k) ≡ false
        → get_field_present (set_proto3_int_field o n v) k ≡ get_field_present o k
    pub present-set_string :
        (o : Obj) (n k : ℕ) (v : JsString)
        → (n == k) ≡ false
        → get_field_present (set_proto3_string_field o n v) k ≡ get_field_present o k
    pub present-set_wrapper :
        (o : Obj) (n k : ℕ) (v : Option Obj)
        → get_field_present (set_wrapper_field o n v) k
          ≡ (if n == k then is_some v else get_field_present o k)
