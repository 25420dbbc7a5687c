-- ===== src/Lib.antt =====
-- im-single: the packets that clients, the connect service and the message service exchange, and
-- the load scripts that drive the services.
--
-- The program's parts
--   load-test/packet.proto declares four messages, Packet, Message, Event and Data, and three
--   enumerations. load-test/packet_pb.js is the code protoc made of it: a class per message that
--   keeps its fields in an object of load-test/google-protobuf.js and reads them from and writes
--   them to bytes through that library's BinaryReader and BinaryWriter. The scripts
--   load-test/script.js, script1.js and script2.js run in k6: `setup` asks the message service for
--   a token and the connect nodes of a channel, the default function opens a websocket at the first
--   node and its handlers decode and log the packets that arrive.
--   The services are Java. The connect service sends its clients' messages and events as Kafka records
--   to the message service. There KafkaMessageListener gives them to MessageService, which keeps
--   events in ConnectNodeLoadServiceImpl, the nodes and how they are connected to channels, and sends
--   messages to the nodes of their channel; NodeWatchService starts and stops the nodes when Consul
--   gives notice of its services. A connect service keeps its sessions in ChannelsHub: WebsocketHandler
--   puts a client into its channel when it opens and MessageHandler takes it out when it closes,
--   MessageService sends an event for each and the messages of the clients, and writes the messages that
--   come back to all clients of the channel; AuthorizeHandler decides who may open a session. The
--   message service has a copy of Baidu's uid-generator in the package
--   im-message/src/main/java/com/itrjp/im/message/uid, which nothing modelled here calls.
--
-- Which file models which part
--   Base, Base/*             names of the libraries, tests on numbers, JavaScript numbers, Outcome
--                            (returned, thrown, out_of_fuel) for code that throws or loops.
--   Jspb/Runtime             the calls packet_pb.js makes of google-protobuf.js, the parameter
--                            `Runtime` of everything below: the fields of a message object, a
--                            reader and a writer, as functions on states.
--   Jspb/Laws, Jspb/Format   the documented behaviour of those calls, as named hypotheses: fields
--                            are independent slots; a reader gives the fields the bytes stand for;
--                            a writer appends the field it is given.
--   Jspb/Sample              an instance of the interface at which the hypotheses hold. It is not
--                            the library, whose bytes are not modelled.
--   Proto/Enums              the objects proto.MessageType, proto.EventType and proto.DataType.
--   Proto/Packet, Message,   the class of that name, a definition per function of packet_pb.js:
--   Event, Data              construct, to_object (toObject), get_, set_, has_ and clear_ functions,
--                            read_field (the switch of deserializeBinaryFromReader),
--                            deserialize_binary(_from_reader), serialize_binary(_to_writer), whose
--                            ifs are the emit_ functions.
--   Proto/Classes            what the four classes have in common.
--   Proto/Packet/Exchange    packets with a message made with the setters, and in EventExchange beside
--                            it packets with an event.
--   Proto/Reading            read_fields, the while loop of deserializeBinaryFromReader.
--   Proto/Schema             the declarations of packet.proto as data, and what a declaration means
--                            for reading and for writing, independently of packet_pb.js.
--   LoadTest/Script          script.js: the constants, `setup`, the websocket URL and the handlers
--                            of the socket's events; script1.js and script2.js are it with other
--                            constants.
--   ImMessage/NodeLoad       im-message/src/main/java/com/itrjp/im/message/service/stat:
--                            ConnectNodeLoadServiceImpl and ConnectNodeLoad.
--   ImMessage/NodeLoad/History  what a history of starts, stops, onlines and offlines comes to,
--                            independently of them.
--   ImMessage/NodeWatch      service/stat/NodeWatchService of the message service.
--   ImMessage/Delivery       listener/KafkaMessageListener, service/message/MessageService and
--                            service/filter of the message service, and the KafkaMessageSender of
--                            im-connect/src/main/java/com/itrjp/im/connect/service.
--   ImConnect/Hub            im-connect/src/main/java/com/itrjp/im/connect/websocket/channel:
--                            ChannelsHub, WebsocketChannel and ChannelClient.
--   ImConnect/Sessions       service/MessageService of the connect service, and connectClient and
--                            channelInactive of websocket/handler.
--   ImConnect/History        where the sessions are after a history of openings and closings, and
--                            what is sent, independently of the hub.
--   ImConnect/Authorize      websocket/handler/AuthorizeHandler with the listener it asks.
--   Maps                     the maps and lists of strings that these use.
--   Common/Long              the operators of Java's long that Common/Tokens uses.
--   Common/Md5Utils          im-common/src/main/java/com/itrjp/im/common/util/Md5Utils.java, whose
--                            loop pads the hexadecimal text of a digest.
--   Common/Tokens            im-common/src/main/java/com/itrjp/im/common/service/DefaultTokenService.java,
--                            which makes and checks the tokens for a channel and a user.
--   Proto/Tests, Common/Tests, LoadTest/Tests, ImMessage/Tests and ImConnect/Tests hold runs at
--   concrete inputs.
--
-- State
--   A message object, a reader and a writer are values of types of `Runtime` and every call that
--   changes one returns the new one. A getter of a nested message returns the part, and the model
--   keeps no alias of it: the scripts do not change a message they have read.
--   The nodes are in a store by reference, since the map of the available nodes and the queue share
--   them and change their loads. What a call sends, stores or counts is a list of effects. The classes
--   that the build generates from the .proto files are the parameter `Protobuf`; only the theorem on
--   records supposes that they parse what they wrote.
--   The channels of a hub are in a store by reference too, since every client keeps the channel it has
--   joined. A session is the text of the id of a netty channel. What a session sends is an option: none
--   where the code throws.
--
-- Fuel
--   deserialize_binary and the handlers of the scripts take the number of rounds that the loop of
--   deserializeBinaryFromReader may run, and are out of fuel where it would go on. The loop itself has
--   no bound. On bytes that are a sequence of fields one round for each byte and one more are enough,
--   as the theorems on deserialize_binary prove. Nothing is said of other bytes: google-protobuf.js can
--   move its reader back on them, and then the loop never ends.
--   Md5Utils.pad has 33 rounds: each makes the text longer, and it ends at 32 characters.
--
-- Not modelled
--   google-protobuf.js beyond its calls and the package uid of the message service, being copies of
--   other projects' libraries. k6: virtual users, timers and sockets, which only call the handlers.
--   The `Extension`, `goog.exportSymbol` and displayName lines of packet_pb.js, which register
--   names. Of the Java services im-message, im-connect and im-common the classes not named above,
--   and of these the setters, the logging, the pools of threads, the headers of Kafka records and
--   the formatting of text. Calls of ConnectNodeLoadServiceImpl or ChannelsHub that overlap are not
--   modelled. Of the connect service the netty server, its pipeline of codecs and the handshake are
--   left out. getBestNode is left out, since the order of a PriorityQueue's stream is left open.

pub mod Base
pub mod Common
pub mod ImConnect
pub mod ImMessage
pub mod Jspb
pub mod LoadTest
pub mod Maps
pub mod Proto
