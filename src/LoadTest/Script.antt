-- ===== src/LoadTest/Script.antt =====
-- load-test/script.js, script1.js and script2.js, which differ in their constants only. What k6 and
-- the server supply comes as arguments; a text is the list of its code units.
pub mod Query
pub mod Session
use Prim.Native.Char.{code}
use Prim.Native.String.{String}
use im_single.Base.{
  same_text, ℕ, Bool, true, false, Option, none, some, List, [], ◌∷◌, ◌++◌, Outcome, returned,
  thrown, ◌>>=◌, ◌==◌, ◌&&◌, not, if◌then◌else◌,
}
use im_single.Jspb.Runtime.{Runtime}
use im_single.Proto.Packet.{deserialize_binary}

abbrev pub Text : Type 0
Text = List ℕ

abbrev pub codes : String → Text
codes String.[] = []
codes (String.◌∷◌ c s) = code c ∷ codes s

-- The constants and options of a script.
pub record Config : Type 0 where
  pub vus : ℕ
  pub duration : Text
  pub channel_id : Text
  pub user_id : Text

abbrev pub script : Config
script = record {
  vus = 10;
  duration = codes "300s";
  channel_id = codes "ch_00000001";
  user_id = codes "user_123";
}

abbrev pub script1 : Config
script1 = record {
  vus = 1;
  duration = codes "300s";
  channel_id = codes "ch_00000001";
  user_id = codes "user_456";
}

abbrev pub script2 : Config
script2 = record {
  vus = 1;
  duration = codes "300s";
  channel_id = codes "ch_00000001";
  user_id = codes "user_589";
}

-- One entry of `nodeInfo`, and the object that `setup` returns, as a template literal shows them.
pub record NodeInfo : Type 0 where
  pub protocol : Text
  pub address : Text
  pub port : Text

pub record SetupData : Type 0 where
  pub token : Text
  pub time : Text
  pub node_info : List NodeInfo

unfoldable pub setup_url : Config → Text
setup_url c =
    codes "http://localhost:8180/channel/" ++ (c.channel_id ++ (codes "/init?userId=" ++ c.user_id))

-- `http.get` and the response's `json` are k6's.
unfoldable pub setup :
    {Response : Type 0}
    → (Text → Response)
    → (Response → Outcome SetupData)
    → Config
    → Outcome SetupData
setup get json c = json (get (setup_url c))

abbrev pub url_of : NodeInfo → Config → SetupData → Text
url_of n c d =
    n.protocol
    ++ (codes "://"
        ++ (n.address
            ++ (codes ":"
                ++ (n.port
                    ++ (codes "/ws?cid="
                        ++ (c.channel_id
                            ++ (codes "&uid="
                                ++ (c.user_id
                                    ++ (codes "&t="
                                        ++ (d.token ++ (codes "&tm=" ++ d.time)))))))))))

-- The URL for the first node, `data.nodeInfo[0]`; without a node, reading its fields is a TypeError.
abbrev first_url : Config → SetupData → List NodeInfo → Outcome Text
first_url c d [] = thrown
first_url c d (n ∷ rest) = returned (url_of n c d)

unfoldable pub socket_url : Config → SetupData → Outcome Text
socket_url c d = first_url c d d.node_info

-- What k6 calls the script's handlers with; `timeout` is the interval's.
pub data SocketEvent (Bytes : Type 0) : Type 0 where
  opened timeout pinged ponged closed : SocketEvent Bytes
  message : Text → SocketEvent Bytes
  binary_message : Bytes → SocketEvent Bytes
  failed : Text → SocketEvent Bytes

-- What a handler does: `console.log` of its arguments, `socket.setInterval`, `socket.ping`.
pub data Action : Type 0 where
  log : List Text → Action
  set_interval : ℕ → Action
  ping : Action

module _ (j : Runtime) where
  open j use {Obj, Bytes}

  -- `show` is the conversion of a packet to a string by the template literal. The loops that read a packet
  -- run so many rounds at most.
  unfoldable pub handle : ℕ → (Obj → Text) → SocketEvent Bytes → Outcome (List Action)
  handle rounds show opened = returned (log (codes "connected" ∷ []) ∷ set_interval 30000 ∷ [])
  handle rounds show timeout =
      returned (ping ∷ log (codes "Pinging every 1sec (setInterval test)" ∷ []) ∷ [])
  handle rounds show pinged = returned (log (codes "PING!" ∷ []) ∷ [])
  handle rounds show ponged = returned (log (codes "PONG!" ∷ []) ∷ [])
  handle rounds show (message m) = returned (log ((codes "Received message: " ++ m) ∷ []) ∷ [])
  handle rounds show (binary_message b) = deserialize_binary j rounds b >>= λ p.
      returned (log ((codes "Received binaryMessage: " ++ show p) ∷ []) ∷ [])
  handle rounds show closed = returned (log (codes "disconnected" ∷ []) ∷ [])
  handle rounds show (failed e) = returned (
      if not (same_text e (codes "websocket: close sent"))
      then log (codes "An unexpected error occurred: " ∷ e ∷ []) ∷ []
      else [])

-- `r && r.status === 101`, for the status of the response, if there is one.
unfoldable pub status_is_101 : Option ℕ → Bool
status_is_101 none = false
status_is_101 (some status) = status == 101
