-- ===== src/ImConnect/Broadcast.antt =====
-- Which sessions a packet for a channel is written to.
use im_single.Base.{
  ℕ, ◌≤◌, ◌<◌, if◌then◌else◌, Bool, true, false, Bool-cases, inl, inr, Option, none, some, and_then,
  List, [], ◌∷◌, ◌≡◌, refl, sym, ap, ◌∙◌, arith, if_present,
}
use im_single.Maps.{String, Map, ◌==◌, get, count, keys, values, same_string}
use im_single.ImConnect.Hub.{
  ChannelClient, WebsocketChannel, ChannelsHub, get_channel, get_all_client,
}
use im_single.ImConnect.Sessions.{broadcast}
use im_single.ImConnect.History.{Change, after, Seat, seat, in_channel, Regular}
use im_single.ImConnect.Hub.Rooms.{client_in}
use im_single.ImConnect.Opens.{Represents}
use im_single.ImConnect.Refines.{after-Represents}

unfoldable pub sessions : List ChannelClient → List String
sessions [] = []
sessions (client ∷ clients) = client.session ∷ sessions clients

count-get :
    (s : String) (l : Map ChannelClient) {v : ChannelClient}
    → get s l ≡ some v
    → 0 < count s (keys l)
unfolding get keys count
count-get s [] h = cc
count-get s ((k, w) ∷ l) {v} h = ground (arith, h, λ (e : get s l ≡ some v). count-get s l e)

-- The clients of a map that keeps each under its session.
sessions-values :
    (l : Map ChannelClient)
    → ((s : String) → count s (keys l) ≤ 1)
    → ((s : String) (v : ChannelClient) → get s l ≡ some v → v.session ≡ s)
    → sessions (values l) ≡ keys l
unfolding sessions values keys get count
sessions-values [] single under = refl
sessions-values ((k, v) ∷ l) single under =
    let rest =
      sessions-values l (λ s. ground (arith, single s))
        (λ s w e. elim (Bool-cases (k == s)) [
          | inl b ↦ absurd (ground (arith, single s, count-get s l e, b))
          | inr b ↦ under s w (ap (λ x. if x then some v else get s l) b ∙ e)
        ]) in
    let head : v.session ≡ k =
      under k v (ap (λ b. if b then some v else get k l) (same_string k)) in
    λ i. head i ∷ rest i

if_none-session :
    (b : Bool) (client : ChannelClient) {v : ChannelClient}
    → (if b then some client else none) ≡ some v
    → v.session ≡ client.session
if_none-session true client h = cc
if_none-session false client h = cc

in_session :
    (o : Option Seat) (c : String) (r : ℕ) (s : String) {v : ChannelClient}
    → client_in o c r s ≡ some v
    → v.session ≡ s
in_session none c r s h = cc
in_session (some (channel, parameters)) c r s h =
    if_none-session (channel == c)
      (record { session = s; parameters = parameters; websocket_channel = r }) h

-- Where a channel is, its clients are those of its sessions.
broadcast_room :
    (seats : String → Option Seat) (this : ChannelsHub) (c s : String) (o : Option ℕ)
    → Represents this seats
    → get c this.channels ≡ o
    → count s (sessions (if_present (and_then o (λ r. some (this.objects r))) get_all_client []))
      ≡ (if in_channel (seats s) c then 1 else 0)
unfolding get_all_client sessions count
broadcast_room seats this c s none v e = elim (Bool-cases (in_channel (seats s) c)) [
  | inl there ↦ let (r, f) = v.rooms.found c s there in cc
  | inr other ↦ ap (λ b. if b then 1 else 0) (sym other)
]
broadcast_room seats this c s (some r) v e =
    let room = v.rooms.room c r e in
    let l = (this.objects r).clients in
    ap (count s) (
      sessions-values l (λ t. ground (arith, room.once t))
        (λ t w f. in_session (seats t) c r t (sym (room.joined t) ∙ f)))
    ∙ room.once s

-- A packet for a channel is written just once to each session that is in the channel, and to no other,
-- after any history in which no session opens twice without closing. A session without a user stays in
-- its channel when it closes.
pub broadcast_refines :
    (objects : ℕ → WebsocketChannel) (h : List Change)
    → Regular h
    → (c s : String)
    → count s (sessions (broadcast (after objects h) c))
      ≡ (if in_channel (seat h s) c then 1 else 0)
unfolding broadcast get_channel
broadcast_refines objects h reg c s =
    let this = after objects h in
    broadcast_room (seat h) this c s (get c this.channels) (after-Represents objects h reg) refl
