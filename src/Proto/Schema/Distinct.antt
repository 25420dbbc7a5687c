-- ===== src/Proto/Schema/Distinct.antt =====
-- The numbers of a schema, and how a reader finds a field by its number.
use im_single.Base.{
  and_then-eq-some, ℕ, Bool, true, ◌&&◌, not, Option, none, some, [], ◌∷◌, ◌++◌, List, ◌≡◌, ◌∙◌,
  ◌==◌, ==_refl, ==_sym, and_true, eq_false_of_not,
}
use im_single.Jspb.Runtime.{Runtime}
use im_single.Jspb.Laws.{ObjectLaws}
use im_single.Jspb.Format.{Wire, Meaning, number}
use im_single.Proto.Schema.{FieldType, Schema, nested, end, field}
use im_single.Proto.Schema.Plain.{value, blank}
use im_single.Proto.Schema.Merge.{merge_all, merge, merge_field}
use im_single.Proto.Schema.Frame.{SameBut, value-new}

-- No field of the schema has the number.
unfoldable pub not_in : ℕ → Schema → Bool
not_in k end = true
not_in k (field n t s) = not (n == k) && not_in k s

-- No two fields of a message have one number.
unfoldable mutual
  pub distinct_type : FieldType → Bool
  distinct_type (nested s) = distinct s
  distinct_type _ = true

  pub distinct : Schema → Bool
  distinct end = true
  distinct (field n t s) = not_in n s && (distinct_type t && distinct s)

pub merge_all-append {ℓ κ} :
    {O : Type ℓ} {X : Type κ} (f : O → X → Option O) (xs ys : List X) (a a1 : O)
    → merge_all f a xs ≡ some a1
    → merge_all f a (xs ++ ys) ≡ merge_all f a1 ys
merge_all-append f [] ys a a1 h = cc
merge_all-append f (x ∷ xs) ys a a1 h =
    let (b, e, h') = and_then-eq-some (f a x) (λ o. merge_all f o xs) h in
    rw e (merge_all-append f xs ys b a1 h')

module _ (j : Runtime) (m : Meaning j) (objects : ObjectLaws j) where
  open j use {Obj, initialize, Bytes}

  -- The fields of a schema are blank.
  abbrev pub Blank : Schema → Obj → Type 0
  Blank end o = Unit
  Blank (field n t s) o = (value j t o n ≡ blank t) × Blank s o

  pub Blank-new : (s : Schema) → Blank s (initialize none)
  Blank-new end = tt
  Blank-new (field n t s) = (value-new j objects t n, Blank-new s)

  pub Blank-SameBut :
      (s : Schema) (n : ℕ) (o o' : Obj)
      → not_in n s ≡ true
      → SameBut j objects n o o'
      → Blank s o
      → Blank s o'
  unfolding not_in
  Blank-SameBut end n o o' h same b = tt
  Blank-SameBut (field k t s) n o o' h same b =
      let (hk, hs) = and_true (not (k == n)) (not_in n s) h in
      (
        same t k (==_sym n k (eq_false_of_not (k == n) hk)) ∙ b.0,
        Blank-SameBut s n o o' hs same b.1,
      )

  -- `s` reads a field with number `n` as one of type `t`.
  abbrev pub Finds : Schema → ℕ → FieldType → Type 0
  Finds s n t = (o : Obj) (x : Wire Bytes) → number x ≡ n → merge j m s o x ≡ merge_field j m t o x

  -- Each field of the second schema is found in the first.
  abbrev pub Suffix : Schema → Schema → Type 0
  Suffix s end = Unit
  Suffix s (field n t rest) = Finds s n t × Suffix s rest

  Suffix-field :
      (n : ℕ) (t : FieldType) (s fs : Schema)
      → not_in n fs ≡ true
      → Suffix s fs
      → Suffix (field n t s) fs
  unfolding merge not_in
  Suffix-field n t s end h c = tt
  Suffix-field n t s (field k u fs) h c =
      let (hk, hs) = and_true (not (k == n)) (not_in n fs) h in
      (λ o x e. rw (e, eq_false_of_not (k == n) hk) (c.0 o x e), Suffix-field n t s fs hs c.1)

  pub Suffix-self : (s : Schema) → distinct s ≡ true → Suffix s s
  unfolding merge distinct
  Suffix-self end h = tt
  Suffix-self (field n t s) h =
      let (hn, hs) = and_true (not_in n s) (distinct_type t && distinct s) h in
      (
        λ o x e. rw (e, ==_refl n),
        Suffix-field n t s s hn (Suffix-self s (and_true (distinct_type t) (distinct s) hs).1),
      )
