-- ===== src/ImMessage/NodeLoad/Objects.antt =====
-- The nodes of the service: which object an id stands for, and that no two ids share one.
use im_single.Base.{
  ℕ, ◌%◌, ◌^◌, ◌<◌, if◌then◌else◌, Bool, true, false, Bool-cases, inl, inr, Option, none, some,
  and_then, and_then-eq-some, ◌≡◌, refl, sym, ap, ◌∙◌, ◌≢◌, arith, ◌==◌ as same_number, ==_iff, ◌⊎◌,
}
use im_single.Maps.{String, Map, ◌==◌, eq_iff, get, put, get-put, get-remove, other_string}
use im_single.ImMessage.NodeLoad.{
  ConnectNodeLoad, ConnectNodeLoadService, start, stop, assign, set_load, available,
}

abbrev pub Sound : ConnectNodeLoadService → Type 0
Sound this =
    (n : String) (r : ℕ)
    → get n this.available_nodes ≡ some r
    → (r < this.fresh) × ((this.objects r).id ≡ n)

some_inj : {a b : ℕ} → some a ≡ some b → a ≡ b
some_inj h = cc

node_inj : {a b : ConnectNodeLoad} → some a ≡ some b → a ≡ b
node_inj h = cc

if_none-eq : (b : Bool) {o : Option ℕ} {r : ℕ} → (if b then none else o) ≡ some r → o ≡ some r
if_none-eq true h = cc
if_none-eq false h = h

pub assign_other :
    (objects : ℕ → ConnectNodeLoad) (r s : ℕ) (node : ConnectNodeLoad)
    → s ≢ r
    → assign objects r node s ≡ objects s
unfolding assign
assign_other objects r s node h = ground arith

pub assign_same :
    (objects : ℕ → ConnectNodeLoad) (r : ℕ) (node : ConnectNodeLoad)
    → assign objects r node r ≡ node
unfolding assign
assign_same objects r node = ground arith

put_cases :
    (k n : String) (v : ℕ) (l : Map ℕ) (r : ℕ)
    → get n (put k v l) ≡ some r
    → ((k ≡ n) × (r ≡ v)) ⊎ ((k ≢ n) × (get n l ≡ some r))
put_cases k n v l r h = elim (Bool-cases (k == n)) [
  | inl e ↦ inl (
    (eq_iff k n).0 e,
    some_inj (sym (sym (get-put k n v l ∙ ap (λ b. if b then some v else get n l) e) ∙ h)),
  )
  | inr e ↦
      inr
        (other_string k n e, sym (get-put k n v l ∙ ap (λ b. if b then some v else get n l) e) ∙ h)
]

pub start-Sound :
    (this : ConnectNodeLoadService) (node : ConnectNodeLoad) → Sound this → Sound (start this node)
unfolding start
start-Sound this node sound n r h = elim (put_cases node.id n this.fresh this.available_nodes r h) [
  | inl (e, f) ↦ (
    omega (arith, f),
    ap (λ s. (assign this.objects this.fresh node s).id) f
        ∙ ap (λ (x : ConnectNodeLoad). x.id) (assign_same this.objects this.fresh node)
        ∙ e,
  )
  | inr (_, g) ↦ (
    omega (arith, (sound n r g).0),
    ap (λ (x : ConnectNodeLoad). x.id)
          (assign_other this.objects this.fresh r node (omega (arith, (sound n r g).0)))
        ∙ (sound n r g).1,
  )
]

-- The node at a reference, if any.
abbrev at : (ℕ → ConnectNodeLoad) → Option ℕ → Option ConnectNodeLoad
at objects o = and_then o (λ r. some (objects r))

at_same :
    (f g : ℕ → ConnectNodeLoad) (o : Option ℕ)
    → ((r : ℕ) → o ≡ some r → f r ≡ g r)
    → at f o ≡ at g o
at_same f g none h = refl
at_same f g (some r) h = ap some (h r refl)

at_if :
    (f : ℕ → ConnectNodeLoad) (b : Bool) (x y : Option ℕ) {u v : Option ConnectNodeLoad}
    → at f x ≡ u
    → at f y ≡ v
    → at f (if b then x else y) ≡ (if b then u else v)
at_if f true x y h k = h
at_if f false x y h k = k

pub start-available :
    (this : ConnectNodeLoadService) (node : ConnectNodeLoad) (n : String)
    → Sound this
    → available (start this node) n ≡ (if node.id == n then some node else available this n)
unfolding start available
start-available this node n sound =
    let objects = assign this.objects this.fresh node in
    ap (at objects) (get-put node.id n this.fresh this.available_nodes)
    ∙ at_if objects (node.id == n) (some this.fresh) (get n this.available_nodes)
        (ap some (assign_same this.objects this.fresh node))
        (at_same objects this.objects (get n this.available_nodes)
          (λ r h. assign_other this.objects this.fresh r node (omega (arith, (sound n r h).0))))

pub set_load-Sound :
    (this : ConnectNodeLoadService) (r load : ℕ) → Sound this → Sound (set_load this r load)
unfolding set_load assign
set_load-Sound this r load sound n s h = (
  (sound n s h).0,
  elim (Bool-cases (same_number s r)) [
    | inl e ↦
        ap
          (λ b. (if b then record (this.objects r) { load = load % 2 ^ 32 } else this.objects s).id)
          e
        ∙ ap (λ x. (this.objects x).id) (sym ((==_iff s r).0 e))
        ∙ (sound n s h).1
    | inr e ↦
        ap
          (λ b. (if b then record (this.objects r) { load = load % 2 ^ 32 } else this.objects s).id)
          e
        ∙ (sound n s h).1
  ],
)

pub set_load-available :
    (this : ConnectNodeLoadService) (m n : String) (r load : ℕ)
    → Sound this
    → get m this.available_nodes ≡ some r
    → available (set_load this r load) n ≡ (
        if m == n
        then some (record (this.objects r) { load = load % 2 ^ 32 })
        else available this n)
unfolding set_load available
set_load-available this m n r load sound h =
    let node = record (this.objects r) { load = load % 2 ^ 32 } in
    let objects = assign this.objects r node in
    elim (Bool-cases (m == n)) [
      | inl e ↦
          ap (λ k. at objects (get k this.available_nodes)) (sym ((eq_iff m n).0 e))
          ∙ ap (at objects) h
          ∙ ap some (assign_same this.objects r node)
          ∙ ap (λ b. if b then some node else at this.objects (get n this.available_nodes)) (sym e)
      | inr e ↦
          at_same objects this.objects (get n this.available_nodes) (λ s g.
            assign_other this.objects r s node (λ same.
              other_string m n e
                (sym (sound m r h).1 ∙ ap (λ x. (this.objects x).id) (sym same) ∙ (sound n s g).1)))
          ∙ ap (λ b. if b then some node else at this.objects (get n this.available_nodes)) (sym e)
    ]

pub stop-available :
    (this : ConnectNodeLoadService) (node : ConnectNodeLoad) (n : String)
    → available (stop this node) n ≡ (if node.id == n then none else available this n)
unfolding stop available
stop-available this node n =
    ap (at this.objects) (get-remove node.id n this.available_nodes)
    ∙ at_if this.objects (node.id == n) none (get n this.available_nodes) refl refl

pub stop-Sound :
    (this : ConnectNodeLoadService) (node : ConnectNodeLoad) → Sound this → Sound (stop this node)
unfolding stop
stop-Sound this node sound n r h =
    sound n r (if_none-eq (node.id == n) (sym (get-remove node.id n this.available_nodes) ∙ h))

pub available-id :
    (this : ConnectNodeLoadService) (n : String) {node : ConnectNodeLoad}
    → Sound this
    → available this n ≡ some node
    → node.id ≡ n
unfolding available
available-id this n {node} sound h =
    let (r, found, same) =
      and_then-eq-some (get n this.available_nodes) (λ r. some (this.objects r)) h in
    ap (λ (x : ConnectNodeLoad). x.id) (node_inj (sym same)) ∙ (sound n r found).1
