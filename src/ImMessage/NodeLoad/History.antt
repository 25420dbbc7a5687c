-- ===== src/ImMessage/NodeLoad/History.antt =====
-- What ConnectNodeLoadServiceImpl is to keep of a history of its changes, independently of its maps and
-- its queue. A history has the newest change first.
use im_single.Base.{
  ℕ, suc, ◌+◌, ◌-◌, ◌%◌, ◌^◌, if◌then◌else◌, Bool, true, false, Option, none, some, List, [], ◌∷◌,
  ◌&&◌,
}
use im_single.Maps.{String, ◌==◌}
use im_single.ImMessage.NodeLoad.{
  ConnectNodeLoad, ConnectNodeLoadService, new_service, start, stop, connect, disconnect,
}

pub data Change : Type 0 where
  starts stops : ConnectNodeLoad → Change
  online offline : String → String → Change

-- An exception leaves the service as it is.
abbrev pub unless_thrown :
    ConnectNodeLoadService → Option ConnectNodeLoadService → ConnectNodeLoadService
unless_thrown this none = this
unless_thrown this (some this') = this'

unfoldable pub change : ConnectNodeLoadService → Change → ConnectNodeLoadService
change this (starts node) = start this node
change this (stops node) = stop this node
change this (online node_id channel_id) = unless_thrown this (connect this node_id channel_id)
change this (offline node_id channel_id) = unless_thrown this (disconnect this node_id channel_id)

unfoldable pub after : (ℕ → ConnectNodeLoad) → List Change → ConnectNodeLoadService
after objects [] = new_service objects
after objects (c ∷ history) = change (after objects history) c

-- A node with so much more load, in 32 bits.
abbrev pub more_load : ℕ → Option ConnectNodeLoad → Option ConnectNodeLoad
more_load more none = none
more_load more (some node) = some (record node { load = (node.load + more) % 2 ^ 32 })

-- The node of an id that is available, with its load.
unfoldable pub node_of : List Change → String → Option ConnectNodeLoad
node_of [] n = none
node_of (starts node ∷ history) n = if node.id == n then some node else node_of history n
node_of (stops node ∷ history) n = if node.id == n then none else node_of history n
node_of (online m d ∷ history) n =
    if m == n then more_load 1 (node_of history n) else node_of history n
node_of (offline m d ∷ history) n =
    if m == n then more_load (2 ^ 32 - 1) (node_of history n) else node_of history n

abbrev pub is_present {ℓ} : {A : Type ℓ} → Option A → Bool
is_present none = false
is_present (some a) = true

-- How often the node is connected to the channel.
unfoldable pub connected : List Change → String → String → ℕ
connected [] n c = 0
connected (starts node ∷ history) n c = connected history n c
connected (stops node ∷ history) n c = connected history n c
connected (online m d ∷ history) n c =
    let before = connected history n c in
    if is_present (node_of history m) && (m == n && d == c) then suc before else before
connected (offline m d ∷ history) n c =
    let before = connected history n c in
    if is_present (node_of history m) && (m == n && d == c) then before - 1 else before
