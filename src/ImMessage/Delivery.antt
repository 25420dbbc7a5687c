-- ===== src/ImMessage/Delivery.antt =====
-- The path of a record through the message service: listener/KafkaMessageListener.java,
-- service/message/MessageService.java with its filters (service/filter) and KafkaMessageSender.java, all
-- of im-message/src/main/java/com/itrjp/im/message, and the sender of the records,
-- im-connect/src/main/java/com/itrjp/im/connect/service/KafkaMessageSender.java.
pub mod Nodes
pub mod Records
pub mod Sample
use im_single.Base.{
  ℕ, Bool, true, false, if◌then◌else◌, Option, none, some, List, [], ◌∷◌, ◌++◌, if_present,
}
use im_single.Maps.{String}
use im_single.ImMessage.NodeLoad.{
  ConnectNodeLoad, ConnectNodeLoadService, connect, disconnect, get_connect_node_by_channel_id,
}
use im_single.ImMessage.NodeLoad.History.{unless_thrown}

-- The enumerations of im-common/src/main/proto/packet.proto and kafka.proto, with the constant that the
-- generated Java classes have for other numbers.
pub data EventType : Type 0 where
  online offline join leave mute un_mute kick unrecognized : EventType

pub data DataType : Type 0 where
  message event unrecognized_type : DataType

pub record KafkaMessage (Bytes : Type 0) : Type 0 where
  pub data_type : DataType
  pub data_bytes : Bytes
  pub sender : String
  pub to : String
  pub timestamp : ℕ
  pub node_id : String

-- What is used of the classes that the build generates; `parseFrom` throws where the answer is none.
pub record Protobuf : Type 1 where
  pub Bytes : Type 0
  pub Message : Type 0
  pub Event : Type 0
  pub parse_message : Bytes → Option Message
  pub message_bytes : Message → Bytes
  pub parse_event : Bytes → Option Event
  pub event_bytes : Event → Bytes
  pub get_type : Event → EventType
  pub get_channel_id : Event → String
  pub parse_record : Bytes → Option (KafkaMessage Bytes)
  pub record_bytes : KafkaMessage Bytes → Bytes

pub data MessageFilterType : Type 0 where
  auto manual black_list white_list : MessageFilterType

-- What the filter that MessageFilterFactory creates answers for any message.
unfoldable pub filter_of : MessageFilterType → Bool
filter_of auto = true
filter_of manual = true
filter_of black_list = true
filter_of white_list = false

unfoldable pub get_message_filter_type : String → MessageFilterType
get_message_filter_type channel_id = auto

module _ (p : Protobuf) where
  open p use {Bytes, Message, Event, parse_message, parse_event, get_type, get_channel_id}

  -- The calls that leave the service: a record for the topic of a node, by its id, and the calls of
  -- MessageStorageService and MessageStateService.
  pub data Effect : Type 0 where
    sends : String → String → String → Message → Effect
    saves counts : String → String → Message → Bool → Effect

  unfoldable pub filter : String → Message → Bool
  filter channel_id msg = filter_of (get_message_filter_type channel_id)

  -- The `for` of `sendToConnectNode`, and whether it comes to its end: a null node throws.
  unfoldable pub send_all :
      String → String → Message → List (Option ConnectNodeLoad) → List Effect × Bool
  send_all from to msg [] = ([], true)
  send_all from to msg (none ∷ nodes) = ([], false)
  send_all from to msg (some node ∷ nodes) =
      let (effects, done) = send_all from to msg nodes in
      (sends node.id from to msg ∷ effects, done)

  unfoldable pub send_to_connect_node :
      ConnectNodeLoadService → String → String → Message → List Effect × Bool
  send_to_connect_node this from to msg =
      send_all from to msg (get_connect_node_by_channel_id this to)

  -- The calls after the dispatch, which an exception skips.
  unfoldable pub store_and_count :
      String → String → Message → Bool → List Effect × Bool → List Effect × Bool
  store_and_count from to msg filtered (effects, false) = (effects, false)
  store_and_count from to msg filtered (effects, true) =
      (effects ++ (saves from to msg filtered ∷ counts from to msg filtered ∷ []), true)

  unfoldable pub dispatch : ConnectNodeLoadService → String → String → Message → List Effect × Bool
  dispatch this from to msg =
      let filtered = filter to msg in
      store_and_count from to msg filtered
        (if filtered then send_to_connect_node this from to msg else ([], true))

  unfoldable pub handle_message :
      ConnectNodeLoadService → String → String → Bytes → List Effect × Bool
  handle_message this from to bytes =
      if_present (parse_message bytes) (λ msg. dispatch this from to msg) ([], true)

  unfoldable pub event_handler :
      ConnectNodeLoadService → String → String → EventType → Option ConnectNodeLoadService
  event_handler this node_id channel_id online = connect this node_id channel_id
  event_handler this node_id channel_id offline = disconnect this node_id channel_id
  event_handler this node_id channel_id other = some this

  unfoldable pub handle_event :
      ConnectNodeLoadService → String → Bytes → Option ConnectNodeLoadService
  handle_event this node_id bytes =
      if_present (parse_event bytes)
        (λ ev. event_handler this node_id (get_channel_id ev) (get_type ev)) (some this)

  unfoldable pub on_record :
      ConnectNodeLoadService → KafkaMessage Bytes → DataType → ConnectNodeLoadService × List Effect
  on_record this record' message =
      (this, (handle_message this record'.sender record'.to record'.data_bytes).0)
  on_record this record' event =
      (unless_thrown this (handle_event this record'.node_id record'.data_bytes), [])
  on_record this record' unrecognized_type = (this, [])

  -- The listener, which catches every exception.
  unfoldable pub on_channel_message :
      ConnectNodeLoadService → Bytes → ConnectNodeLoadService × List Effect
  on_channel_message this bytes =
      if_present (p.parse_record bytes) (λ record'. on_record this record' record'.data_type)
        (this, [])

  unfoldable pub listen : ConnectNodeLoadService → List Bytes → ConnectNodeLoadService × List Effect
  listen this [] = (this, [])
  listen this (bytes ∷ records) =
      let (this', effects) = on_channel_message this bytes in
      let (this'', later) = listen this' records in (this'', effects ++ later)

  -- `sendMessage` and `sendEvent` of the connect service at a time of the clock: the bytes that they send.
  unfoldable pub send_message : ℕ → String → String → Message → Bytes
  send_message now from to msg = p.record_bytes (record {
    data_type = message;
    data_bytes = p.message_bytes msg;
    sender = from;
    to = to;
    timestamp = now;
    node_id = "";
  })

  unfoldable pub send_event : ℕ → String → Event → Bytes
  send_event now instance_id ev = p.record_bytes (record {
    data_type = message;
    data_bytes = p.event_bytes ev;
    sender = "";
    to = "";
    timestamp = now;
    node_id = instance_id;
  })
