-- ===== src/ImMessage/NodeLoad.antt =====
-- im-message/src/main/java/com/itrjp/im/message/service/stat/ConnectNodeLoadServiceImpl.java and
-- ConnectNodeLoad.java. The objects are in a store, since the map of the available nodes and the queue
-- share them. An operation that throws NullPointerException has changed nothing, and is none.
pub mod History
pub mod Objects
pub mod Counts
pub mod Refines
pub mod Loads
use im_single.Base.{
  ℕ, ◌+◌, ◌-◌, ◌%◌, ◌^◌, if◌then◌else◌, Option, none, some, and_then, List, [], ◌∷◌, if_present,
}
use im_single.Base.{◌==◌ as same_number}
use im_single.Maps.{String, ◌==◌, Map, get, put, remove, remove_first, distinct, snoc}

pub record ConnectNodeLoad : Type 0 where
  pub id : String
  pub ip : String
  pub port : ℕ
  pub ws_port : ℕ
  pub load : ℕ

-- The queue is the list of its elements in the order in which it finds them; the order is that of the
-- heap of `PriorityQueue`, and nothing here depends on it.
pub record ConnectNodeLoadService : Type 0 where
  pub objects : ℕ → ConnectNodeLoad
  pub fresh : ℕ
  pub available_nodes : Map ℕ
  pub channel_node_map : Map (List String)
  pub connect_node_loads : List ℕ

unfoldable pub new_service : (ℕ → ConnectNodeLoad) → ConnectNodeLoadService
new_service objects = record {
  objects = objects;
  fresh = 0;
  available_nodes = [];
  channel_node_map = [];
  connect_node_loads = [];
}

-- An assignment to the object at a reference.
unfoldable pub assign : (ℕ → ConnectNodeLoad) → ℕ → ConnectNodeLoad → ℕ → ConnectNodeLoad
assign objects reference node r = if same_number r reference then node else objects r

-- `connectNodeLoads.remove(o)`: `equals` compares the ids.
unfoldable pub poll_equal : (ℕ → ConnectNodeLoad) → String → List ℕ → List ℕ
poll_equal objects id [] = []
poll_equal objects id (r ∷ queue) =
    let rest = poll_equal objects id queue in if (objects r).id == id then queue else r ∷ rest

-- The node is a new object.
unfoldable pub start : ConnectNodeLoadService → ConnectNodeLoad → ConnectNodeLoadService
start this node = record {
  objects = assign this.objects this.fresh node;
  fresh = this.fresh + 1;
  available_nodes = put node.id this.fresh this.available_nodes;
  channel_node_map = this.channel_node_map;
  connect_node_loads = snoc this.connect_node_loads this.fresh;
}

-- `setLoad` of the object at a reference, the load as the bits of an `int`.
unfoldable pub set_load : ConnectNodeLoadService → ℕ → ℕ → ConnectNodeLoadService
set_load this reference load = record this {
  objects =
      assign this.objects reference (record (this.objects reference) { load = load % 2 ^ 32 });
}

abbrev pub or_empty : Option (List String) → List String
or_empty none = []
or_empty (some ids) = ids

-- What `connect` does with the node it has found.
unfoldable pub connect_node : ConnectNodeLoadService → String → ℕ → ConnectNodeLoadService
connect_node this channel_id reference =
    let node = this.objects reference in
    let ids = snoc (or_empty (get channel_id this.channel_node_map)) node.id in
    let this' = set_load this reference (node.load + 1) in
    record this' {
      channel_node_map = put channel_id ids this.channel_node_map;
      connect_node_loads =
          snoc (poll_equal this'.objects node.id this.connect_node_loads) reference;
    }

unfoldable pub connect : ConnectNodeLoadService → String → String → Option ConnectNodeLoadService
connect this node_id channel_id =
    and_then (get node_id this.available_nodes) (λ r. some (connect_node this channel_id r))

-- The list of a channel is changed in place; the list made for an unknown channel is dropped.
unfoldable pub remove_id :
    String → Option (List String) → Map (List String) → String → Map (List String)
remove_id channel_id none channels id = channels
remove_id channel_id (some ids) channels id = put channel_id (remove_first id ids) channels

unfoldable pub disconnect_node : ConnectNodeLoadService → String → ℕ → ConnectNodeLoadService
disconnect_node this channel_id reference =
    let node = this.objects reference in
    let this' = set_load this reference (node.load + (2 ^ 32 - 1)) in
    record this' {
      channel_node_map =
          remove_id channel_id (get channel_id this.channel_node_map) this.channel_node_map node.id;
      connect_node_loads = snoc this.connect_node_loads reference;
    }

unfoldable pub disconnect : ConnectNodeLoadService → String → String → Option ConnectNodeLoadService
disconnect this node_id channel_id =
    and_then (get node_id this.available_nodes) (λ r. some (disconnect_node this channel_id r))

unfoldable pub stop : ConnectNodeLoadService → ConnectNodeLoad → ConnectNodeLoadService
stop this node = record this {
  available_nodes = remove node.id this.available_nodes;
  connect_node_loads = poll_equal this.objects node.id this.connect_node_loads;
}

-- `availableNodes.get`
unfoldable pub available : ConnectNodeLoadService → String → Option ConnectNodeLoad
available this id = and_then (get id this.available_nodes) (λ r. some (this.objects r))

-- `channelNodeMap.getOrDefault(channelId, Collections.emptyList())`
unfoldable pub node_ids : ConnectNodeLoadService → String → List String
node_ids this channel_id = or_empty (get channel_id this.channel_node_map)

unfoldable pub find_all : ConnectNodeLoadService → List String → List (Option ConnectNodeLoad)
find_all this [] = []
find_all this (id ∷ ids) = available this id ∷ find_all this ids

unfoldable pub get_connect_node_by_channel_id :
    ConnectNodeLoadService → String → List (Option ConnectNodeLoad)
get_connect_node_by_channel_id this channel_id = find_all this (distinct (node_ids this channel_id))
