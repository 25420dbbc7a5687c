-- ===== src/ImMessage/Delivery/Nodes.antt =====
-- To which connect nodes a message goes.
use im_single.Base.{
  ℕ, ◌<◌, Bool, true, false, ltb, if◌then◌else◌, inl, inr, Option, Option-cases, none, some,
  if_present, List, [], ◌∷◌, ◌++◌, ◌≡◌, ◌≢◌, refl, sym, ap, ◌∙◌, arith,
}
use im_single.Maps.{String, same_string, count, distinct, count-distinct}
use im_single.ImMessage.NodeLoad.{
  ConnectNodeLoad, ConnectNodeLoadService, available, node_ids, find_all,
  get_connect_node_by_channel_id,
}
use im_single.ImMessage.NodeLoad.History.{Change, after, node_of, connected}
use im_single.ImMessage.NodeLoad.Objects.{available-id}
use im_single.ImMessage.NodeLoad.Refines.{after-Represents}
use im_single.ImMessage.Delivery.{
  Protobuf, Effect, sends, saves, counts, send_all, send_to_connect_node, store_and_count, dispatch,
  handle_message, filter, filter_of, get_message_filter_type,
}

-- Each of these ids is of an available node of that id.
unfoldable pub AllFound : ConnectNodeLoadService → List String → Type 0
AllFound this [] = Unit {0}
AllFound this (id ∷ ids) =
    ((node : ConnectNodeLoad) × (available this id ≡ some node) × (node.id ≡ id))
    × AllFound this ids

AllFound-of :
    (this : ConnectNodeLoadService) (ids : List String)
    → ((n : String)
        → 0 < count n ids
        → (node : ConnectNodeLoad) × (available this n ≡ some node) × (node.id ≡ n))
    → AllFound this ids
unfolding AllFound count
AllFound-of this [] h = tt
AllFound-of this (id ∷ ids) h = (
  h id (ground (arith, same_string id)),
  AllFound-of this ids (λ n pos. h n (ground (arith, pos))),
)

module _ (p : Protobuf) where
  open p use {Bytes, Message, parse_message}

  abbrev pub sends_to : String → String → Message → List String → List (Effect p)
  sends_to from to msg [] = []
  sends_to from to msg (id ∷ ids) = sends id from to msg ∷ sends_to from to msg ids

  -- What follows the sending.
  abbrev pub stored : String → String → Message → List (Effect p)
  stored from to msg = saves from to msg true ∷ counts from to msg true ∷ []

  send_found :
      (this : ConnectNodeLoadService) (from to : String) (msg : Message) (node : ConnectNodeLoad)
      (id : String) (nodes : List (Option ConnectNodeLoad)) (o : List (Effect p) × Bool)
      → available this id ≡ some node
      → node.id ≡ id
      → send_all p from to msg nodes ≡ o
      → send_all p from to msg (available this id ∷ nodes) ≡ (sends id from to msg ∷ o.0, o.1)
  unfolding send_all
  send_found this from to msg node id nodes o e f h =
      ap (λ x. send_all p from to msg (x ∷ nodes)) e
      ∙ ap (λ (x : List (Effect p) × Bool). (sends node.id from to msg ∷ x.0, x.1)) h
      ∙ ap (λ x. (sends x from to msg ∷ o.0, o.1)) f

  send_all-found :
      (this : ConnectNodeLoadService) (from to : String) (msg : Message) (ids : List String)
      → AllFound this ids
      → send_all p from to msg (find_all this ids) ≡ (sends_to from to msg ids, true)
  unfolding send_all find_all AllFound
  send_all-found this from to msg [] h = refl
  send_all-found this from to msg (id ∷ ids) ((node, e, f), h) =
      send_found this from to msg node id (find_all this ids) (sends_to from to msg ids, true) e f
        (send_all-found this from to msg ids h)

  send_all-missing :
      (this : ConnectNodeLoadService) (from to : String) (msg : Message) (ids later : List String)
      (n : String)
      → AllFound this ids
      → available this n ≡ none
      → send_all p from to msg (find_all this (ids ++ (n ∷ later)))
        ≡ (sends_to from to msg ids, false)
  unfolding send_all find_all AllFound
  send_all-missing this from to msg [] later n h gone =
      ap (λ x. send_all p from to msg (x ∷ find_all this later)) gone
  send_all-missing this from to msg (id ∷ ids) later n ((node, e, f), h) gone =
      send_found this from to msg node id (find_all this (ids ++ (n ∷ later)))
        (sends_to from to msg ids, false) e f (send_all-missing this from to msg ids later n h gone)

  handle :
      (this : ConnectNodeLoadService) (from to : String) (bytes : Bytes) {msg : Message}
      → parse_message bytes ≡ some msg
      → handle_message p this from to bytes
        ≡ store_and_count p from to msg true
            (send_all p from to msg (find_all this (distinct (node_ids this to))))
  unfolding handle_message dispatch filter filter_of get_message_filter_type send_to_connect_node
      get_connect_node_by_channel_id
  handle this from to bytes parsed =
      ap (λ o. if_present o (λ msg. dispatch p this from to msg) ([], true)) parsed

  -- A message that parses goes to each node just once that has a connection to its channel, and to no
  -- other, and is then stored and counted. The nodes with a connection to the channel are all available.
  pub handle_message-delivers :
      (objects : ℕ → ConnectNodeLoad) (h : List Change) (from to : String) (bytes : Bytes)
      {msg : Message}
      → parse_message bytes ≡ some msg
      → ((n : String) → 0 < connected h n to → node_of h n ≢ none)
      → (ids : List String) × (handle_message p (after objects h) from to bytes
          ≡ (sends_to from to msg ids ++ stored from to msg, true))
        × ((n : String) → count n ids ≡ (if ltb 0 (connected h n to) then 1 else 0))
  unfolding store_and_count
  handle_message-delivers objects h from to bytes {msg} parsed present =
      let s = after objects h in
      let v = after-Represents objects h in
      let ids = distinct (node_ids s to) in
      let once = λ (n : String).
        count-distinct n (node_ids s to) ∙ ap (λ k. if ltb 0 k then 1 else 0) (v.counts n to) in
      let found = AllFound-of s ids (λ n pos. elim (Option-cases (available s n)) [
        | inl gone ↦ absurd (present n (ground (arith, once n, pos)) (sym (v.nodes n) ∙ gone))
        | inr (node, e) ↦ (node, e, available-id s n v.sound e)
      ]) in
      (
        ids,
        handle s from to bytes parsed
            ∙ ap (store_and_count p from to msg true) (send_all-found s from to msg ids found),
        once,
      )

  -- If a node of the channel is not available, the message goes to the nodes before it alone: the
  -- exception keeps it from the nodes after it, and it is neither stored nor counted.
  pub handle_message-stops :
      (this : ConnectNodeLoadService) (from to : String) (bytes : Bytes) {msg : Message}
      (ids later : List String) (n : String)
      → parse_message bytes ≡ some msg
      → distinct (node_ids this to) ≡ ids ++ (n ∷ later)
      → AllFound this ids
      → available this n ≡ none
      → handle_message p this from to bytes ≡ (sends_to from to msg ids, false)
  unfolding store_and_count
  handle_message-stops this from to bytes {msg} ids later n parsed split found gone =
      handle this from to bytes parsed
      ∙ ap (λ l. store_and_count p from to msg true (send_all p from to msg (find_all this l)))
          split
      ∙ ap (store_and_count p from to msg true)
          (send_all-missing this from to msg ids later n found gone)
