-- ===== src/ImMessage/NodeWatch/Keys.antt =====
-- Every entry of the map of the available nodes is under the id of its node.
use im_single.Base.{
  ℕ, ◌+◌, ◌≤◌, ◌<◌, ◌^◌, ◌-◌, if_elim, Option, none, some, and_then, List, [], ◌∷◌, ◌≡◌, refl, sym,
  ap, ◌∙◌, arith, ==_iff, ◌==◌ as same_number,
}
use im_single.Maps.{String, Map, ◌==◌, get, put, remove}
use im_single.ImMessage.NodeLoad.{
  ConnectNodeLoad, ConnectNodeLoadService, new_service, start, stop, assign, set_load, connect,
  connect_node, disconnect, disconnect_node, available,
}
use im_single.ImMessage.NodeLoad.History.{
  Change, starts, stops, online, offline, unless_thrown, change, after, is_present,
}
use im_single.ImMessage.NodeLoad.Objects.{assign_other, assign_same}
use im_single.ImMessage.NodeWatch.{has, values, get_available_list}

abbrev pub Keyed : (ℕ → ConnectNodeLoad) → ℕ → Map ℕ → Type 0
Keyed objects fresh [] = Unit {0}
Keyed objects fresh ((k, r) ∷ l) = ((r < fresh) × ((objects r).id ≡ k)) × Keyed objects fresh l

Keyed-remove :
    (objects : ℕ → ConnectNodeLoad) (fresh : ℕ) (k : String) (l : Map ℕ)
    → Keyed objects fresh l
    → Keyed objects fresh (remove k l)
unfolding remove
Keyed-remove objects fresh k [] h = tt
Keyed-remove objects fresh k ((j, r) ∷ l) (here, h) =
    if_elim (Keyed objects fresh) (j == k) (λ e. Keyed-remove objects fresh k l h)
      (λ e. (here, Keyed-remove objects fresh k l h))

Keyed-later :
    (f g : ℕ → ConnectNodeLoad) (fresh fresh' : ℕ) (l : Map ℕ)
    → fresh ≤ fresh'
    → ((r : ℕ) → r < fresh → (g r).id ≡ (f r).id)
    → Keyed f fresh l
    → Keyed g fresh' l
Keyed-later f g fresh fresh' [] le same h = tt
Keyed-later f g fresh fresh' ((k, r) ∷ l) le same ((below, e), h) =
    ((omega (arith, le, below), same r below ∙ e), Keyed-later f g fresh fresh' l le same h)

-- The map of a service.
abbrev pub KeyedNodes : ConnectNodeLoadService → Type 0
KeyedNodes this = Keyed this.objects this.fresh this.available_nodes

start-KeyedNodes :
    (this : ConnectNodeLoadService) (node : ConnectNodeLoad)
    → KeyedNodes this
    → KeyedNodes (start this node)
unfolding start put
start-KeyedNodes this node h = (
  (omega arith, ap (λ (x : ConnectNodeLoad). x.id) (assign_same this.objects this.fresh node)),
  Keyed-later this.objects (assign this.objects this.fresh node) this.fresh (this.fresh + 1)
      (remove node.id this.available_nodes) (omega arith)
      (λ r below.
        ap (λ (x : ConnectNodeLoad). x.id)
          (assign_other this.objects this.fresh r node (omega (arith, below))))
      (Keyed-remove this.objects this.fresh node.id this.available_nodes h),
)

set_load-id :
    (this : ConnectNodeLoadService) (r load s : ℕ)
    → ((set_load this r load).objects s).id ≡ (this.objects s).id
unfolding set_load assign
set_load-id this r load s =
    if_elim (λ (x : ConnectNodeLoad). x.id ≡ (this.objects s).id) (same_number s r)
      (λ e. ap (λ x. (this.objects x).id) (sym ((==_iff s r).0 e))) (λ e. refl)

connect-KeyedNodes :
    (this : ConnectNodeLoadService) (d : String) (o : Option ℕ)
    → KeyedNodes this
    → KeyedNodes (unless_thrown this (and_then o (λ r. some (connect_node this d r))))
unfolding connect_node set_load
connect-KeyedNodes this d none h = h
connect-KeyedNodes this d (some r) h =
    Keyed-later this.objects (set_load this r ((this.objects r).load + 1)).objects this.fresh
      this.fresh this.available_nodes (omega arith)
      (λ s below. set_load-id this r ((this.objects r).load + 1) s) h

disconnect-KeyedNodes :
    (this : ConnectNodeLoadService) (d : String) (o : Option ℕ)
    → KeyedNodes this
    → KeyedNodes (unless_thrown this (and_then o (λ r. some (disconnect_node this d r))))
unfolding disconnect_node set_load
disconnect-KeyedNodes this d none h = h
disconnect-KeyedNodes this d (some r) h =
    Keyed-later this.objects (set_load this r ((this.objects r).load + (2 ^ 32 - 1))).objects
      this.fresh this.fresh this.available_nodes (omega arith)
      (λ s below. set_load-id this r ((this.objects r).load + (2 ^ 32 - 1)) s) h

pub after-KeyedNodes :
    (objects : ℕ → ConnectNodeLoad) (h : List Change) → KeyedNodes (after objects h)
unfolding after change new_service connect disconnect stop
after-KeyedNodes objects [] = tt
after-KeyedNodes objects (starts node ∷ h) =
    start-KeyedNodes (after objects h) node (after-KeyedNodes objects h)
after-KeyedNodes objects (stops node ∷ h) =
    let s = after objects h in
    Keyed-remove s.objects s.fresh node.id s.available_nodes (after-KeyedNodes objects h)
after-KeyedNodes objects (online m d ∷ h) =
    let s = after objects h in
    connect-KeyedNodes s d (get m s.available_nodes) (after-KeyedNodes objects h)
after-KeyedNodes objects (offline m d ∷ h) =
    let s = after objects h in
    disconnect-KeyedNodes s d (get m s.available_nodes) (after-KeyedNodes objects h)

has-values :
    (objects : ℕ → ConnectNodeLoad) (fresh : ℕ) (n : String) (l : Map ℕ)
    → Keyed objects fresh l
    → has n (values objects l) ≡ is_present (and_then (get n l) (λ r. some (objects r)))
unfolding has values get
has-values objects fresh n [] h = refl
has-values objects fresh n ((k, r) ∷ l) ((below, e), h) =
    ground (arith, ap (λ x. x == n) e, has-values objects fresh n l h)

pub has-available :
    (this : ConnectNodeLoadService) (n : String)
    → KeyedNodes this
    → has n (get_available_list this) ≡ is_present (available this n)
unfolding get_available_list available
has-available this n h = has-values this.objects this.fresh n this.available_nodes h
