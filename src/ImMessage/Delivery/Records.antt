-- ===== src/ImMessage/Delivery/Records.antt =====
-- What the message service makes of the records that the connect services send it.
use im_single.Base.{
  ℕ, suc, ◌+◌, true, none, some, if_present, List, [], ◌∷◌, ◌++◌, ◌≡◌, refl, ap, ◌∙◌, arith,
}
use im_single.Maps.{String, get, distinct}
use im_single.ImMessage.NodeLoad.{
  ConnectNodeLoadService, node_ids, or_empty, find_all, get_connect_node_by_channel_id,
}
use im_single.ImMessage.Delivery.{
  Protobuf, KafkaMessage, Effect, sends, saves, counts, send_all, send_to_connect_node,
  store_and_count, dispatch, handle_message, filter, filter_of, get_message_filter_type, on_record,
  on_channel_message, listen, send_message, send_event,
}

module _ (p : Protobuf) where
  open p use {Bytes, Message, Event, parse_message}

  -- The calls of KafkaMessageSender of the connect service, each at a time of the clock.
  pub data Sending : Type 0 where
    sends_message : ℕ → String → String → Message → Sending
    sends_event : ℕ → String → Event → Sending

  unfoldable pub bytes_of : List Sending → List Bytes
  bytes_of [] = []
  bytes_of (sends_message now from to msg ∷ l) = send_message p now from to msg ∷ bytes_of l
  bytes_of (sends_event now instance_id ev ∷ l) = send_event p now instance_id ev ∷ bytes_of l

  -- How many records go to connect nodes.
  unfoldable pub sent : List (Effect p) → ℕ
  sent [] = 0
  sent (sends id from to msg ∷ l) = suc (sent l)
  sent (saves from to msg filtered ∷ l) = sent l
  sent (counts from to msg filtered ∷ l) = sent l

  -- What is parsed is what was written.
  abbrev pub RoundTrip : Type 0
  RoundTrip = (r : KafkaMessage Bytes) → p.parse_record (p.record_bytes r) ≡ some r

  sent-append : (l k : List (Effect p)) → sent (l ++ k) ≡ sent l + sent k
  unfolding sent
  sent-append [] k = omega arith
  sent-append (sends id from to msg ∷ l) k = omega (arith, sent-append l k)
  sent-append (saves from to msg filtered ∷ l) k = sent-append l k
  sent-append (counts from to msg filtered ∷ l) k = sent-append l k

  -- The listener does nothing but pass the record on as a message.
  abbrev PassedOn : ConnectNodeLoadService → Bytes → Type 0
  PassedOn this bytes =
      (from : String) × (to : String) × (inner : Bytes) × (on_channel_message p this bytes
        ≡ (this, (handle_message p this from to inner).0))

  send_message-PassedOn :
      RoundTrip
      → (this : ConnectNodeLoadService) (now : ℕ) (from to : String) (msg : Message)
      → PassedOn this (send_message p now from to msg)
  unfolding on_channel_message on_record send_message
  send_message-PassedOn law this now from to msg = (
    from,
    to,
    p.message_bytes msg,
    ap (λ o. if_present o (λ r. on_record p this r r.data_type) (this, [])) (law _),
  )

  send_event-PassedOn :
      RoundTrip
      → (this : ConnectNodeLoadService) (now : ℕ) (instance_id : String) (ev : Event)
      → PassedOn this (send_event p now instance_id ev)
  unfolding on_channel_message on_record send_event
  send_event-PassedOn law this now instance_id ev = (
    "",
    "",
    p.event_bytes ev,
    ap (λ o. if_present o (λ r. on_record p this r r.data_type) (this, [])) (law _),
  )

  dispatch-sent :
      (this : ConnectNodeLoadService) (from to : String) (msg : Message)
      → this.channel_node_map ≡ []
      → sent (dispatch p this from to msg).0 ≡ 0
  unfolding sent dispatch send_to_connect_node get_connect_node_by_channel_id node_ids get distinct
      find_all send_all store_and_count filter filter_of get_message_filter_type
  dispatch-sent this from to msg empty =
      ap
        (λ channels.
          let nodes = find_all this (distinct (or_empty (get to channels))) in
          let all = store_and_count p from to msg true (send_all p from to msg nodes) in sent all.0)
        empty

  handle_message-sent :
      (this : ConnectNodeLoadService) (from to : String) (bytes : Bytes)
      → this.channel_node_map ≡ []
      → sent (handle_message p this from to bytes).0 ≡ 0
  unfolding sent handle_message
  handle_message-sent this from to bytes empty =
      elim (parse_message bytes)
        as (λ o. sent (if_present o (λ msg. dispatch p this from to msg) ([], true)).0 ≡ 0) [
          | none ↦ refl
          | some msg ↦ dispatch-sent this from to msg empty
        ]

  abbrev pub Unmoved : ConnectNodeLoadService → ConnectNodeLoadService × List (Effect p) → Type 0
  Unmoved this (this', effects) = (this' ≡ this) × (sent effects ≡ 0)

  PassedOn-Unmoved :
      (this : ConnectNodeLoadService) (bytes : Bytes) (l : List Bytes)
      → this.channel_node_map ≡ []
      → PassedOn this bytes
      → Unmoved this (listen p this l)
      → Unmoved this (listen p this (bytes ∷ l))
  unfolding listen
  PassedOn-Unmoved this bytes l empty (from, to, inner, same) (kept, none_sent) =
      let first = (handle_message p this from to inner).0 in
      let path = ap (λ (x : ConnectNodeLoadService × List (Effect p)). (listen p x.0 l).0) same in
      let effects =
        ap (λ (x : ConnectNodeLoadService × List (Effect p)). sent (x.1 ++ (listen p x.0 l).1))
          same in
      (
        path ∙ kept,
        omega (
          arith,
          effects,
          sent-append first (listen p this l).1,
          handle_message-sent this from to inner empty,
          none_sent,
        ),
      )

  -- Whatever the connect services send to a message service that has no channels yet, messages and the
  -- events of their clients in any order, leaves its nodes and its channels as they are, and it sends no
  -- message to a connect node: `sendEvent` labels its records as messages. The bytes of a record are
  -- parsed as that record.
  pub listen-keeps :
      RoundTrip
      → (this : ConnectNodeLoadService) → this.channel_node_map ≡ []
      → (l : List Sending) → Unmoved this (listen p this (bytes_of l))
  unfolding bytes_of listen sent
  listen-keeps law this empty [] = (refl, refl)
  listen-keeps law this empty (sends_message now from to msg ∷ l) =
      PassedOn-Unmoved this (send_message p now from to msg) (bytes_of l) empty
        (send_message-PassedOn law this now from to msg) (listen-keeps law this empty l)
  listen-keeps law this empty (sends_event now instance_id ev ∷ l) =
      PassedOn-Unmoved this (send_event p now instance_id ev) (bytes_of l) empty
        (send_event-PassedOn law this now instance_id ev) (listen-keeps law this empty l)
