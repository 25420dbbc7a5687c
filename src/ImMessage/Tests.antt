-- ===== src/ImMessage/Tests.antt =====
-- Runs of the message service with two connect nodes.
use im_single.Base.{
  ℕ, ◌<◌, ◌%◌, ◌^◌, ltb, if◌then◌else◌, true, false, Option, none, some, List, [], ◌∷◌, ◌++◌, ◌≡◌,
  ◌≢◌, ◌∙◌, refl, arith,
}
use im_single.Maps.{◌==◌, String, count, distinct, get, put, remove, remove_first, snoc, without}
use im_single.ImMessage.NodeLoad.{
  ConnectNodeLoad, ConnectNodeLoadService, new_service, available, node_ids, start, stop, connect,
  connect_node, disconnect, disconnect_node, set_load, assign, poll_equal, remove_id,
}
use im_single.ImMessage.NodeLoad.History.{
  Change, starts, stops, online, offline, change, after, node_of, connected,
}
use im_single.ImMessage.NodeLoad.Refines.{after_refines}
use im_single.ImMessage.NodeLoad.Loads.{Regular, total, load_counts}
use im_single.ImMessage.Delivery.{EventType, handle_message, listen}
use im_single.ImMessage.Delivery.Sample.{of_message, sample}
use im_single.ImMessage.Delivery.Nodes.{
  AllFound, sends_to, stored, handle_message-delivers, handle_message-stops,
}
use im_single.ImMessage.Delivery.Records.{
  sends_message, sends_event, bytes_of, Unmoved, listen-keeps,
}
use im_single.ImMessage.NodeWatch.{
  ConsulWatchServiceEntity, is_passing, any_passing, to_node, resolve_service_notify,
  handler_service_notify,
}
use im_single.ImMessage.NodeWatch.Lists.{or_else, last_of}
use im_single.ImMessage.NodeWatch.Notices.{named, handler_service_notify-available}

abbrev node : String → ConnectNodeLoad
node id = record { id = id; ip = "10.0.0.1"; port = 8080; ws_port = 9090; load = 0 }

abbrev blank : ℕ → ConnectNodeLoad
blank r = node ""

-- Two nodes; the first has a connection to each channel and the second two to one, of which one ends.
abbrev morning : List Change
morning =
    offline "b" "room"
    ∷ online "a" "hall"
    ∷ online "b" "room"
    ∷ online "b" "room"
    ∷ online "a" "room"
    ∷ starts (node "b")
    ∷ starts (node "a")
    ∷ []

after_refines_example :
    (available (after blank morning) "b" ≡ node_of morning "b")
    × (count "b" (node_ids (after blank morning) "room") ≡ connected morning "b" "room")
after_refines_example = after_refines blank morning "b" "room"

morning-b : node_of morning "b" ≡ some (record (node "b") { load = 1 })
unfolding node_of
morning-b = refl

morning-a : node_of morning "a" ≡ some (record (node "a") { load = 2 })
unfolding node_of
morning-a = refl

morning-Regular : Regular ("room" ∷ "hall" ∷ []) morning
unfolding Regular count connected total node_of
morning-Regular =
    (refl, omega arith, (refl, (refl, (refl, (refl, (refl, refl, (refl, refl, tt)))))))

load_counts_example :
    2 ≡ total (λ c. count "a" (node_ids (after blank morning) c)) ("room" ∷ "hall" ∷ []) % 2 ^ 32
load_counts_example =
    load_counts blank ("room" ∷ "hall" ∷ []) morning morning-Regular "a"
      {node = record (node "a") { load = 2 }} ((after_refines blank morning "a" "").0 ∙ morning-a)

morning-present : (n : String) → 0 < connected morning n "room" → node_of morning n ≢ none
unfolding connected node_of
morning-present n pos = ground arith

handle_message-delivers_example :
    (ids : List String) × (handle_message sample (after blank morning) "u" "room" (of_message "hi")
      ≡ (sends_to sample "u" "room" "hi" ids ++ stored sample "u" "room" "hi", true))
    × ((n : String) → count n ids ≡ (if ltb 0 (connected morning n "room") then 1 else 0))
handle_message-delivers_example =
    handle_message-delivers sample blank morning "u" "room" (of_message "hi") refl morning-present

-- The first node stops while it has connections.
abbrev stopped : List Change
stopped = stops (node "a") ∷ morning

stopped_ids : distinct (node_ids (after blank stopped) "room") ≡ "a" ∷ "b" ∷ []
unfolding after change new_service start stop connect connect_node disconnect disconnect_node
    set_load assign poll_equal node_ids get put remove snoc remove_first remove_id distinct without
stopped_ids = refl

stopped-a : node_of stopped "a" ≡ none
unfolding node_of
stopped-a = refl

handle_message-stops_example :
    handle_message sample (after blank stopped) "u" "room" (of_message "hi") ≡ ([], false)
unfolding AllFound
handle_message-stops_example =
    handle_message-stops sample (after blank stopped) "u" "room" (of_message "hi") [] ("b" ∷ []) "a"
      refl stopped_ids tt ((after_refines blank stopped "a" "").0 ∙ stopped-a)

listen-keeps_example : Unmoved sample (new_service blank) (
    listen sample (new_service blank) (
      bytes_of sample
        (sends_event 1 "a" (EventType.online, "room") ∷ sends_message 2 "u" "room" "hi" ∷ [])))
unfolding new_service
listen-keeps_example =
    listen-keeps sample (λ r. refl) (new_service blank) refl
      (sends_event 1 "a" (EventType.online, "room") ∷ sends_message 2 "u" "room" "hi" ∷ [])

-- The second node, a new one, and one whose check fails.
abbrev entity : String → String → ConsulWatchServiceEntity
entity id status = record {
  checks = some ("critical" ∷ status ∷ []);
  id = id;
  address = "10.0.0.2";
  port = 8080;
  ws_port = some "9090";
}

abbrev notice : List ConsulWatchServiceEntity
notice = entity "b" "passing" ∷ entity "c" "passing" ∷ entity "d" "warning" ∷ []

abbrev parse_port : String → Option ℕ
parse_port text = if text == "9090" then some 9090 else none

abbrev noticed : String → ConnectNodeLoad
noticed id = record (node id) { ip = "10.0.0.2" }

notice-nodes : resolve_service_notify parse_port notice ≡ some (noticed "b" ∷ noticed "c" ∷ [])
unfolding resolve_service_notify is_passing any_passing to_node
notice-nodes = refl

handler_service_notify-available_example :
    (s : ConnectNodeLoadService) × (handler_service_notify parse_port (after blank morning) notice
      ≡ some s)
    × ((n : String)
        → available s n ≡ (
            if named n notice
            then or_else (node_of morning n) (last_of n (noticed "b" ∷ noticed "c" ∷ []))
            else none))
handler_service_notify-available_example =
    handler_service_notify-available parse_port blank morning notice notice-nodes
