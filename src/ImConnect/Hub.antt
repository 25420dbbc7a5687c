-- ===== src/ImConnect/Hub.antt =====
-- im-connect/src/main/java/com/itrjp/im/connect/websocket/channel: ChannelsHub, WebsocketChannel and
-- ChannelClient. The channels are objects in a store, since a client keeps the channel it has joined.
pub mod Rooms
pub mod Moves
use im_single.Base.{
  ℕ, ◌+◌, if◌then◌else◌, Option, none, some, and_then, List, [], ◌∷◌, length, if_present,
  ◌==◌ as same_number,
}
use im_single.Maps.{String, Map, get, put, remove, values}

-- What is used of HandshakeData: the parameters of the request's URL.
abbrev pub Parameters : Type 0
Parameters = Map (List String)

-- The session is the id of the client's netty channel.
pub record ChannelClient : Type 0 where
  pub session : String
  pub parameters : Parameters
  pub websocket_channel : ℕ

pub record WebsocketChannel : Type 0 where
  pub channel_id : String
  pub clients : Map ChannelClient

pub record ChannelsHub : Type 0 where
  pub objects : ℕ → WebsocketChannel
  pub fresh : ℕ
  pub channels : Map ℕ
  pub channel_map : Map String

unfoldable pub new_hub : (ℕ → WebsocketChannel) → ChannelsHub
new_hub objects = record { objects = objects; fresh = 0; channels = []; channel_map = [] }

-- A change of the object at a reference.
unfoldable pub assign : (ℕ → WebsocketChannel) → ℕ → WebsocketChannel → ℕ → WebsocketChannel
assign objects reference channel r = if same_number r reference then channel else objects r

-- `channels.computeIfAbsent(channelId, WebsocketChannel::new)`: the hub and the channel's reference.
unfoldable pub compute_if_absent : ChannelsHub → String → Option ℕ → ChannelsHub × ℕ
compute_if_absent this channel_id (some r) = (this, r)
compute_if_absent this channel_id none = (
  record {
    objects = assign this.objects this.fresh (record { channel_id = channel_id; clients = [] });
    fresh = this.fresh + 1;
    channels = put channel_id this.fresh this.channels;
    channel_map = this.channel_map;
  },
  this.fresh,
)

unfoldable pub create : ChannelsHub → String → String → ChannelsHub × ℕ
create this channel_id session_id =
    let seated = record this { channel_map = put session_id channel_id this.channel_map } in
    compute_if_absent seated channel_id (get channel_id this.channels)

-- What `destroy` does once the session has been removed.
unfoldable pub remove_channel : ChannelsHub → Option String → ChannelsHub
remove_channel this none = this
remove_channel this (some channel_id) =
    if same_number (length this.channel_map) 0
    then record this { channels = remove channel_id this.channels }
    else this

unfoldable pub destroy : ChannelsHub → String → ChannelsHub
destroy this session_id =
    let unseated = record this { channel_map = remove session_id this.channel_map } in
    remove_channel unseated (get session_id this.channel_map)

-- A new map of clients for a channel.
unfoldable pub set_clients : ChannelsHub → ℕ → Map ChannelClient → ChannelsHub
set_clients this reference clients = record this {
  objects = assign this.objects reference (record (this.objects reference) { clients = clients });
}

-- `join` and `leave` of a client, by those of its channel.
unfoldable pub join : ChannelsHub → ChannelClient → ChannelsHub
join this client =
    set_clients this client.websocket_channel
      (put client.session client (this.objects client.websocket_channel).clients)

unfoldable pub leave : ChannelsHub → ChannelClient → ChannelsHub
leave this client =
    set_clients this client.websocket_channel
      (remove client.session (this.objects client.websocket_channel).clients)

-- `get`
unfoldable pub get_channel : ChannelsHub → String → Option WebsocketChannel
get_channel this channel_id = and_then (get channel_id this.channels) (λ r. some (this.objects r))

unfoldable pub get_all_client : WebsocketChannel → List ChannelClient
get_all_client channel = values channel.clients

-- It throws for a session without a channel, and a channel may have no such client: none for both.
unfoldable pub get_web_socket_client : ChannelsHub → String → Option ChannelClient
get_web_socket_client this session_id = and_then (get session_id this.channel_map) (λ channel_id.
    and_then (get_channel this channel_id) (λ channel. get session_id channel.clients))
