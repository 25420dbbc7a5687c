-- ===== src/ImMessage/NodeWatch/Lists.antt =====
-- Which nodes a list has, and which object of an id is the last in it.
use im_single.Base.{
  Bool, true, false, if◌then◌else◌, ◌&&◌, not, Option, none, some, List, [], ◌∷◌, ◌≡◌, refl, ap,
  ◌∙◌, arith,
}
use im_single.Maps.{String, ◌==◌, eq_iff}
use im_single.ImMessage.NodeLoad.{ConnectNodeLoad, ConnectNodeLoadService, start, stop, available}
use im_single.ImMessage.NodeLoad.History.{is_present}
use im_single.ImMessage.NodeLoad.Objects.{
  Sound, start-Sound, start-available, stop-available, stop-Sound,
}
use im_single.ImMessage.NodeWatch.{has, remove_all, stop_all, start_all}

abbrev pub or_else : Option ConnectNodeLoad → Option ConnectNodeLoad → Option ConnectNodeLoad
or_else none o = o
or_else (some node) o = some node

unfoldable pub last_of : String → List ConnectNodeLoad → Option ConnectNodeLoad
last_of id [] = none
last_of id (node ∷ nodes) = or_else (last_of id nodes) (if node.id == id then some node else none)

or_else-if :
    (o : Option ConnectNodeLoad) (b : Bool) (x : ConnectNodeLoad) (y : Option ConnectNodeLoad)
    → or_else o (if b then some x else y) ≡ or_else (or_else o (if b then some x else none)) y
or_else-if none true x y = refl
or_else-if none false x y = refl
or_else-if (some node) b x y = refl

same_has : (a b : String) (l : List ConnectNodeLoad) → (a == b) ≡ true → has a l ≡ has b l
same_has a b l h = ap (λ x. has x l) ((eq_iff a b).0 h)

pub has-remove_all :
    (id : String) (l k : List ConnectNodeLoad)
    → has id (remove_all l k) ≡ (has id l && not (has id k))
unfolding has remove_all
has-remove_all id [] k = refl
has-remove_all id (node ∷ l) k = ground (arith, has-remove_all id l k, same_has node.id id k)

pub last_of-remove_all :
    (id : String) (l k : List ConnectNodeLoad)
    → last_of id (remove_all l k) ≡ (if has id k then none else last_of id l)
unfolding last_of remove_all
last_of-remove_all id [] k = ground arith
last_of-remove_all id (node ∷ l) k =
    ground (arith, last_of-remove_all id l k, same_has node.id id k)

pub last_of-has : (id : String) (l : List ConnectNodeLoad) → is_present (last_of id l) ≡ has id l
unfolding last_of has
last_of-has id [] = refl
last_of-has id (node ∷ l) = ground (arith, last_of-has id l)

pub stop_all-available :
    (l : List ConnectNodeLoad) (this : ConnectNodeLoadService) (n : String)
    → available (stop_all l this) n ≡ (if has n l then none else available this n)
unfolding stop_all has
stop_all-available [] this n = refl
stop_all-available (node ∷ l) this n =
    ground (arith, stop_all-available l (stop this node) n, stop-available this node n)

pub stop_all-Sound :
    (l : List ConnectNodeLoad) (this : ConnectNodeLoadService)
    → Sound this
    → Sound (stop_all l this)
unfolding stop_all
stop_all-Sound [] this sound = sound
stop_all-Sound (node ∷ l) this sound =
    stop_all-Sound l (stop this node) (stop-Sound this node sound)

pub start_all-available :
    (l : List ConnectNodeLoad) (this : ConnectNodeLoadService) (n : String)
    → Sound this
    → available (start_all l this) n ≡ or_else (last_of n l) (available this n)
unfolding start_all last_of
start_all-available [] this n sound = refl
start_all-available (node ∷ l) this n sound =
    start_all-available l (start this node) n (start-Sound this node sound)
    ∙ ap (or_else (last_of n l)) (start-available this node n sound)
    ∙ or_else-if (last_of n l) (node.id == n) node (available this n)
