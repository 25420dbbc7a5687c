-- ===== src/ImConnect/Messages.antt =====
-- From whom and to which channel the message of a session goes.
use im_single.Base.{ℕ, Option, none, some, and_then, List, ◌≡◌, refl, ap, ◌∙◌}
use im_single.Maps.{String}
use im_single.ImConnect.Hub.{ChannelClient, WebsocketChannel, ChannelsHub}
use im_single.ImConnect.Sessions.{first_parameter, on_message}
use im_single.ImConnect.History.{Change, after, Seat, seat, Regular}
use im_single.ImConnect.Closes.{present, absent_client}
use im_single.ImConnect.Opens.{Represents}
use im_single.ImConnect.Refines.{after-Represents}

-- The user and the channel of a seat.
abbrev pub from_user : Option String → String → Option (String × String)
from_user uid channel = and_then uid (λ u. some (u, channel))

abbrev pub address : Option Seat → Option (String × String)
address o = and_then o (λ x. from_user (first_parameter "uid" x.1) x.0)

seated_message :
    (this : ChannelsHub) (seats : String → Option Seat) (s : String) (o : Option Seat)
    → Represents this seats
    → seats s ≡ o
    → on_message this s ≡ address o
unfolding on_message
seated_message this seats s none v at =
    ap
      (λ o. and_then o (λ (client : ChannelClient).
        from_user (first_parameter "uid" client.parameters)
          (this.objects client.websocket_channel).channel_id))
      (absent_client this seats s v at)
seated_message this seats s (some (c, parameters)) v at =
    let p = present this seats s c parameters v at in
    ap
      (λ o. and_then o (λ (client : ChannelClient).
        from_user (first_parameter "uid" client.parameters)
          (this.objects client.websocket_channel).channel_id))
      p.client
    ∙ ap (from_user (first_parameter "uid" parameters)) p.named

-- After any history in which no session opens twice without closing, the message of a session goes on from
-- the user of the session to the channel that it is in. A session that is in no channel, or has no user,
-- sends nothing: there is an exception.
pub on_message_refines :
    (objects : ℕ → WebsocketChannel) (h : List Change)
    → Regular h
    → (s : String) → on_message (after objects h) s ≡ address (seat h s)
on_message_refines objects h reg s =
    seated_message (after objects h) (seat h) s (seat h s) (after-Represents objects h reg) refl
