-- ===== src/Maps.antt =====
-- The collections of the services whose elements or keys are strings: a map is an association list,
-- and a null value of the source's `get` is none.
pub use Prim.Native.String.{String}
pub use text.Mathlib.Text.{◌==◌}
pub use text.Mathlib.TextEquality.{eq_iff}
use im_single.Base.{
  ℕ, suc, ◌-◌, ltb, if◌then◌else◌, true, false, Option, none, some, List, [], ◌∷◌, ◌≡◌, refl, ◌≢◌,
  arith,
}

abbrev pub Map {ℓ} : Type ℓ → Type ℓ
Map V = List (String × V)

pub same_string : (s : String) → (s == s) ≡ true
same_string s = (eq_iff s s).1 refl

pub other_string : (s t : String) → (s == t) ≡ false → s ≢ t
other_string s t h = λ e. ground (arith, eq_iff s t)

module _ {ℓ} {V : Type ℓ} where
  unfoldable pub get : String → Map V → Option V
  get k [] = none
  get k ((j, v) ∷ l) = if j == k then some v else get k l

  unfoldable pub remove : String → Map V → Map V
  remove k [] = []
  remove k ((j, v) ∷ l) = let rest = remove k l in if j == k then rest else (j, v) ∷ rest

  unfoldable pub put : String → V → Map V → Map V
  put k v l = (k, v) ∷ remove k l

  pub get-remove :
      (k j : String) (l : Map V) → get j (remove k l) ≡ (if k == j then none else get j l)
  unfolding get remove
  get-remove k j [] = ground arith
  get-remove k j ((i, v) ∷ l) = ground (arith, get-remove k j l, eq_iff i k, eq_iff i j, eq_iff k j)

  pub get-put :
      (k j : String) (v : V) (l : Map V) → get j (put k v l) ≡ (if k == j then some v else get j l)
  unfolding get put
  get-put k j v l = ground (arith, get-remove k j l)

-- How often a string occurs.
unfoldable pub count : String → List String → ℕ
count k [] = 0
count k (j ∷ l) = let rest = count k l in if j == k then suc rest else rest

-- `list.remove(o)`, which removes the first of the elements that are equal to it.
unfoldable pub remove_first : String → List String → List String
remove_first k [] = []
remove_first k (j ∷ l) = let rest = remove_first k l in if j == k then l else j ∷ rest

-- All that are not equal to it.
unfoldable pub without : String → List String → List String
without k [] = []
without k (j ∷ l) = let rest = without k l in if j == k then rest else j ∷ rest

-- `stream().distinct()`, which keeps the first of equal elements.
unfoldable pub distinct : List String → List String
distinct [] = []
distinct (j ∷ l) = j ∷ without j (distinct l)

unfoldable pub snoc {ℓ} : {A : Type ℓ} → List A → A → List A
snoc [] x = x ∷ []
snoc (y ∷ l) x = y ∷ snoc l x

pub count-snoc :
    (k j : String) (l : List String)
    → count k (snoc l j) ≡ (if j == k then suc (count k l) else count k l)
unfolding count snoc
count-snoc k j [] = refl
count-snoc k j (i ∷ l) = ground (arith, count-snoc k j l)

pub count-remove_first :
    (k j : String) (l : List String)
    → count k (remove_first j l) ≡ (if j == k then count k l - 1 else count k l)
unfolding count remove_first
count-remove_first k j [] = ground arith
count-remove_first k j (i ∷ l) =
    ground (arith, count-remove_first k j l, eq_iff i k, eq_iff i j, eq_iff j k)

pub count-without :
    (k j : String) (l : List String) → count k (without j l) ≡ (if j == k then 0 else count k l)
unfolding count without
count-without k j [] = ground arith
count-without k j (i ∷ l) = ground (arith, count-without k j l, eq_iff i k, eq_iff i j, eq_iff j k)

pub count-distinct :
    (k : String) (l : List String) → count k (distinct l) ≡ (if ltb 0 (count k l) then 1 else 0)
unfolding count distinct
count-distinct k [] = refl
count-distinct k (i ∷ l) = ground (arith, count-distinct k l, count-without k i (distinct l))

-- `values()` and `keySet()`
unfoldable pub values {ℓ} : {V : Type ℓ} → Map V → List V
values [] = []
values ((k, v) ∷ l) = v ∷ values l

unfoldable pub keys {ℓ} : {V : Type ℓ} → Map V → List String
keys [] = []
keys ((k, v) ∷ l) = k ∷ keys l

pub count-keys-remove {ℓ} :
    {V : Type ℓ} (k j : String) (l : Map V)
    → count j (keys (remove k l)) ≡ (if k == j then 0 else count j (keys l))
unfolding keys remove count
count-keys-remove k j [] = ground arith
count-keys-remove k j ((i, v) ∷ l) =
    ground (arith, count-keys-remove k j l, eq_iff i k, eq_iff i j, eq_iff k j)

pub count-keys-put {ℓ} :
    {V : Type ℓ} (k j : String) (v : V) (l : Map V)
    → count j (keys (put k v l)) ≡ (if k == j then 1 else count j (keys l))
unfolding keys put count
count-keys-put k j v l = ground (arith, count-keys-remove k j l)
