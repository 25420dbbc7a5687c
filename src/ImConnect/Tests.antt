-- ===== src/ImConnect/Tests.antt =====
-- Runs of the connect service.
use im_single.Base.{none, ◌≢◌, ◌↔◌, inr, true, some, ℕ, List, [], ◌∷◌, ◌≡◌, refl}
use im_single.Maps.{String, count, get, put, remove, values}
use im_single.ImConnect.Hub.{
  Parameters, WebsocketChannel, get_channel, get_all_client, new_hub, create, compute_if_absent,
  assign, join, set_clients, get_web_socket_client, destroy, remove_channel, leave,
}
use im_single.ImConnect.Sessions.{
  offline, on_message, handler_message, broadcast, first_parameter, connect_client, join_client,
  channel_inactive, leave_client, on_close,
}
use im_single.ImConnect.History.{Change, change, opens, closes, after, seat, notice, Regular}
use im_single.ImConnect.Broadcast.{sessions, broadcast_refines}
use im_single.ImConnect.Messages.{on_message_refines}
use im_single.ImConnect.Notices.{change-notice}
use im_single.ImConnect.Cleanup.{closes_channel}
use im_single.ImConnect.Authorize.{
  HandshakeData, AuthorizationResult, FullHttpRequest, fail, success, token_invalid, authorize,
  passed, raised, channel_read, read_decoded, authorize_request, refuse, starts_with,
  channel_read-answers,
}

abbrev blank : ℕ → WebsocketChannel
blank r = record { channel_id = ""; clients = [] }

abbrev of_user : String → String → Parameters
of_user uid cid = ("uid", uid ∷ []) ∷ ("cid", cid ∷ []) ∷ []

-- Of three sessions in a channel the second has no user; it and the third close.
abbrev day : List Change
day =
    closes "3"
    ∷ closes "2"
    ∷ opens "3" (of_user "w" "room")
    ∷ opens "2" (("cid", "room" ∷ []) ∷ [])
    ∷ opens "1" (of_user "u" "room")
    ∷ []

day-Regular : Regular day
unfolding Regular seat
day-Regular = (refl, (refl, (refl, tt)))

broadcast_refines_example : count "2" (sessions (broadcast (after blank day) "room")) ≡ 1
unfolding seat first_parameter get
broadcast_refines_example = broadcast_refines blank day day-Regular "room" "2"

on_message_refines_example : on_message (after blank day) "1" ≡ some ("u", "room")
unfolding seat first_parameter get
on_message_refines_example = on_message_refines blank day day-Regular "1"

change-notice_example : (change (after blank day) (closes "1")).1 ≡ some (offline "room" "u")
unfolding notice seat first_parameter get Regular
change-notice_example = change-notice blank day (closes "1") day-Regular

-- The sessions that the packet is written to, once the third has closed.
written : sessions (broadcast (after blank day) "room") ≡ "2" ∷ "1" ∷ []
unfolding sessions broadcast get_channel get_all_client after change new_hub connect_client
    first_parameter join_client create compute_if_absent assign join set_clients channel_inactive
    get_web_socket_client leave_client on_close destroy remove_channel leave get put remove values
written = refl

-- A record whose bytes parse is written to the sessions of its channel, another to none.
handled :
    (handler_message {Bytes = String} (λ b. some b) (after blank day) "room" "hello"
      ≡ (some "hello", broadcast (after blank day) "room"))
    × (sessions
          (handler_message {Bytes = String} {Message = String}
            (λ b. none)
            (after blank day)
            "room"
            "hello").1
        ≡ [])
unfolding handler_message sessions
handled = (refl, refl)

-- The last session of its channel closes while another channel has one.
abbrev two_channels : List Change
two_channels = opens "2" (of_user "v" "hall") ∷ opens "1" (of_user "u" "room") ∷ []

two_channels-Regular : Regular two_channels
unfolding Regular seat
two_channels-Regular = (refl, (refl, tt))

closes_channel_example :
    (get "hall" (after blank (closes "2" ∷ two_channels)).channels ≡ none)
    ↔ ((t : String) → t ≢ "2" → seat two_channels t ≡ none)
unfolding seat first_parameter get
closes_channel_example =
    closes_channel blank two_channels "2" "hall" (of_user "v" "hall") "v" two_channels-Regular refl
      refl

-- A listener that finds the token invalid.
abbrev strict : HandshakeData → AuthorizationResult
strict d = fail token_invalid

abbrev asking : FullHttpRequest
asking = record {
  decoded = true;
  get_method = true;
  keep_alive = true;
  uri = "/ws?cid=room";
  parameters = ("cid", "room" ∷ []) ∷ [];
}

channel_read-answers_example : channel_read "/ws" strict (some asking) ≡ raised
unfolding fail starts_with
channel_read-answers_example =
    channel_read-answers "/ws" strict (λ d. inr (token_invalid, refl)) asking

-- The service's own authorization lets it pass.
passes : channel_read "/ws" authorize (some asking) ≡ passed
unfolding channel_read read_decoded authorize_request authorize success starts_with
passes = refl

-- A uri that only begins like the path passes too.
longer_path : channel_read "/ws" authorize (some (record asking { uri = "/wsx" })) ≡ passed
unfolding channel_read read_decoded authorize_request authorize success starts_with
longer_path = refl

-- The path of another service, with the service's own in the query.
other_path : channel_read "/ws" authorize (some (record asking { uri = "/a?b=/ws" })) ≡ raised
unfolding channel_read read_decoded authorize_request refuse authorize success starts_with
other_path = refl
