-- ===== src/ImConnect/Sessions.antt =====
-- What happens to the sessions of im-connect/src/main/java/com/itrjp/im/connect: `connectClient` of
-- websocket/handler/WebsocketHandler.java, `channelRead0` and `channelInactive` of
-- websocket/handler/MessageHandler.java, and service/MessageService.java, which they call.
use im_single.Base.{ℕ, Option, none, some, and_then, List, [], ◌∷◌, if_present}
use im_single.Maps.{String, get}
use im_single.ImConnect.Hub.{
  Parameters, ChannelClient, ChannelsHub, create, destroy, join, leave, get_channel, get_all_client,
  get_web_socket_client,
}

abbrev pub first_of : List String → Option String
first_of [] = none
first_of (text ∷ texts) = some text

-- `parameters.get(name).get(0)`, which throws if there is none.
unfoldable pub first_parameter : String → Parameters → Option String
first_parameter name parameters = and_then (get name parameters) first_of

-- The events that the service sends, with the channel and the user.
pub data Notice : Type 0 where
  online offline : String → String → Notice

-- `onOpen` and `onClose`: the event that is sent, unless the user is missing and they throw.
unfoldable pub on_open : ChannelsHub → ChannelClient → Option Notice
on_open this client =
    and_then (first_parameter "uid" client.parameters)
      (λ uid. some (online (this.objects client.websocket_channel).channel_id uid))

unfoldable pub on_close : ChannelsHub → ChannelClient → Option Notice
on_close this client =
    and_then (first_parameter "uid" client.parameters)
      (λ uid. some (offline (this.objects client.websocket_channel).channel_id uid))

-- The end of `connectClient`: the hub and what is sent. The client stays if `onOpen` throws.
unfoldable pub join_client : ChannelsHub × ℕ → String → Parameters → ChannelsHub × Option Notice
join_client (this, channel) session parameters =
    let client : ChannelClient = record {
      session = session;
      parameters = parameters;
      websocket_channel = channel;
    } in
    let joined = join this client in (joined, on_open joined client)

unfoldable pub connect_client : ChannelsHub → String → Parameters → ChannelsHub × Option Notice
connect_client this session parameters =
    if_present (first_parameter "cid" parameters)
      (λ cid. join_client (create this cid session) session parameters) (this, none)

-- `channelInactive` for the client that has been found: an exception of `onClose` skips the rest.
unfoldable pub leave_client :
    ChannelsHub → String → ChannelClient → Option Notice → ChannelsHub × Option Notice
leave_client this session client none = (this, none)
leave_client this session client (some notice) = (leave (destroy this session) client, some notice)

unfoldable pub channel_inactive : ChannelsHub → String → ChannelsHub × Option Notice
channel_inactive this session =
    if_present (get_web_socket_client this session)
      (λ client. leave_client this session client (on_close this client)) (this, none)

-- `onMessage` for the session of a client: from whom and to which channel its message is sent.
unfoldable pub on_message : ChannelsHub → String → Option (String × String)
on_message this session = and_then (get_web_socket_client this session) (λ client.
    and_then (first_parameter "uid" client.parameters)
      (λ uid. some (uid, (this.objects client.websocket_channel).channel_id)))

-- `broadcast`: the clients that the packet is written to.
unfoldable pub broadcast : ChannelsHub → String → List ChannelClient
broadcast this channel_id = if_present (get_channel this channel_id) get_all_client []

module _ {Bytes Message : Type 0} (parse_message : Bytes → Option Message) where
  -- `handlerMessage` of a record: the message of the packet and the clients that it is written to; bytes
  -- that do not parse are logged.
  unfoldable pub handler_message :
      ChannelsHub → String → Bytes → Option Message × List ChannelClient
  handler_message this to bytes =
      if_present (parse_message bytes) (λ msg. (some msg, broadcast this to)) (none, [])
