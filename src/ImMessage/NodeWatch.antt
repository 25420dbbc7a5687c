-- ===== src/ImMessage/NodeWatch.antt =====
-- im-message/src/main/java/com/itrjp/im/message/service/stat/NodeWatchService.java: what becomes of the
-- nodes when Consul gives notice of its services.
pub mod Lists
pub mod Keys
pub mod Notices
use im_single.Base.{
  ℕ, Bool, true, false, if◌then◌else◌, Option, none, some, and_then, List, [], ◌∷◌, if_present,
}
use im_single.Maps.{String, ◌==◌, Map}
use im_single.ImMessage.NodeLoad.{ConnectNodeLoad, ConnectNodeLoadService, start, stop}

-- What is read of a service and its checks: the status of each check, and the text under "wsPort" in the
-- metadata; none is a null.
pub record ConsulWatchServiceEntity : Type 0 where
  pub checks : Option (List String)
  pub id : String
  pub address : String
  pub port : ℕ
  pub ws_port : Option String

unfoldable pub any_passing : List String → Bool
any_passing [] = false
any_passing (status ∷ checks) =
    let rest = any_passing checks in if status == "passing" then true else rest

unfoldable pub is_passing : ConsulWatchServiceEntity → Bool
is_passing entity = if_present entity.checks any_passing false

-- `contains`, by `equals`.
unfoldable pub has : String → List ConnectNodeLoad → Bool
has id [] = false
has id (node ∷ nodes) = let rest = has id nodes in if node.id == id then true else rest

-- `removeAll`
unfoldable pub remove_all : List ConnectNodeLoad → List ConnectNodeLoad → List ConnectNodeLoad
remove_all [] others = []
remove_all (node ∷ nodes) others =
    let rest = remove_all nodes others in if has node.id others then rest else node ∷ rest

unfoldable pub find_online : List ConnectNodeLoad → List ConnectNodeLoad → List ConnectNodeLoad
find_online available_list connect_nodes = remove_all connect_nodes available_list

unfoldable pub find_offline : List ConnectNodeLoad → List ConnectNodeLoad → List ConnectNodeLoad
find_offline available_list connect_nodes = remove_all available_list connect_nodes

-- `availableNodes.values()`
unfoldable pub values : (ℕ → ConnectNodeLoad) → Map ℕ → List ConnectNodeLoad
values objects [] = []
values objects ((id, r) ∷ nodes) = objects r ∷ values objects nodes

unfoldable pub get_available_list : ConnectNodeLoadService → List ConnectNodeLoad
get_available_list this = values this.objects this.available_nodes

unfoldable pub stop_all : List ConnectNodeLoad → ConnectNodeLoadService → ConnectNodeLoadService
stop_all [] this = this
stop_all (node ∷ nodes) this = stop_all nodes (stop this node)

unfoldable pub start_all : List ConnectNodeLoad → ConnectNodeLoadService → ConnectNodeLoadService
start_all [] this = this
start_all (node ∷ nodes) this = start_all nodes (start this node)

-- What the notice does once its nodes are known.
unfoldable pub reconcile : List ConnectNodeLoad → ConnectNodeLoadService → ConnectNodeLoadService
reconcile connect_nodes this =
    let available_list = get_available_list this in
    start_all (find_online available_list connect_nodes)
      (stop_all (find_offline available_list connect_nodes) this)

-- `Integer.parseInt`, which throws where the answer is none, for ports that are not negative.
module _ (parse_int : String → Option ℕ) where
  unfoldable pub to_node : ConsulWatchServiceEntity → Option ConnectNodeLoad
  to_node entity = and_then entity.ws_port (λ text. and_then (parse_int text) (λ ws_port.
      some (record {
        id = entity.id;
        ip = entity.address;
        port = entity.port;
        ws_port = ws_port;
        load = 0;
      })))

  unfoldable pub resolve_service_notify :
      List ConsulWatchServiceEntity → Option (List ConnectNodeLoad)
  resolve_service_notify [] = some []
  resolve_service_notify (entity ∷ entities) =
      let rest = resolve_service_notify entities in
      if is_passing entity
      then and_then (to_node entity) (λ node. and_then rest (λ nodes. some (node ∷ nodes)))
      else rest

  -- An exception comes before any change.
  unfoldable pub handler_service_notify :
      ConnectNodeLoadService → List ConsulWatchServiceEntity → Option ConnectNodeLoadService
  handler_service_notify this entities =
      and_then (resolve_service_notify entities) (λ nodes. some (reconcile nodes this))
