-- ===== src/ImConnect/History.antt =====
-- What the connect service is to keep of a history of its sessions, independently of its maps. A history
-- has the newest change first.
use im_single.Base.{
  ℕ, if◌then◌else◌, Bool, false, Option, none, some, and_then, List, [], ◌∷◌, if_present, ◌≡◌,
}
use im_single.Maps.{String, ◌==◌}
use im_single.ImConnect.Hub.{Parameters, WebsocketChannel, ChannelsHub, new_hub}
use im_single.ImConnect.Sessions.{
  first_parameter, Notice, online, offline, connect_client, channel_inactive,
}

-- A session opens with the parameters of its request, or closes.
pub data Change : Type 0 where
  opens : String → Parameters → Change
  closes : String → Change

unfoldable pub change : ChannelsHub → Change → ChannelsHub × Option Notice
change this (opens session parameters) = connect_client this session parameters
change this (closes session) = channel_inactive this session

unfoldable pub after : (ℕ → WebsocketChannel) → List Change → ChannelsHub
after objects [] = new_hub objects
after objects (c ∷ history) = (change (after objects history) c).0

-- Where a session is: its channel, with its parameters.
abbrev pub Seat : Type 0
Seat = String × Parameters

-- A session stays where it is if it has no user.
abbrev pub left : Option Seat → Option Seat
left none = none
left (some (channel, parameters)) =
    if_present (first_parameter "uid" parameters) (λ uid. none) (some (channel, parameters))

unfoldable pub seat : List Change → String → Option Seat
seat [] s = none
seat (opens session parameters ∷ history) s =
    let before = seat history s in
    if session == s
    then if_present (first_parameter "cid" parameters) (λ cid. some (cid, parameters)) before
    else before
seat (closes session ∷ history) s =
    let before = seat history s in if session == s then left before else before

abbrev pub in_channel : Option Seat → String → Bool
in_channel none c = false
in_channel (some (channel, parameters)) c = channel == c

abbrev pub user_online : Option String → String → Option Notice
user_online uid c = and_then uid (λ u. some (online c u))

abbrev pub user_offline : Option String → String → Option Notice
user_offline uid c = and_then uid (λ u. some (offline c u))

-- The event that a change after the history is to send.
unfoldable pub notice : List Change → Change → Option Notice
notice history (opens session parameters) =
    and_then (first_parameter "cid" parameters)
      (λ cid. user_online (first_parameter "uid" parameters) cid)
notice history (closes session) =
    and_then (seat history session) (λ x. user_offline (first_parameter "uid" x.1) x.0)

-- Every session opens once before it closes.
unfoldable pub Regular : List Change → Type 0
Regular [] = Unit {0}
Regular (opens session parameters ∷ history) = (seat history session ≡ none) × Regular history
Regular (closes session ∷ history) = Regular history
