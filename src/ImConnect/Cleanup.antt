-- ===== src/ImConnect/Cleanup.antt =====
-- When the hub lets a channel go.
use im_single.Base.{
  ℕ, if◌then◌else◌, false, Bool-cases, inl, inr, Option, none, some, and_then, List, [], ◌∷◌,
  length, ◌≡◌, ◌≢◌, ◌↔◌, refl, sym, ap, ◌∙◌, arith, if_present, if_push, ==_iff,
  ◌==◌ as same_number,
}
use im_single.Maps.{String, Map, ◌==◌, eq_iff, get, remove, get-remove, other_string, same_string}
use im_single.ImConnect.Hub.{
  Parameters, ChannelClient, WebsocketChannel, ChannelsHub, leave, set_clients, destroy,
  remove_channel,
}
use im_single.ImConnect.Sessions.{
  first_parameter, Notice, offline, on_close, leave_client, channel_inactive,
}
use im_single.ImConnect.History.{Change, closes, change, after, Seat, seat, in_channel, Regular}
use im_single.ImConnect.Hub.Rooms.{channel_of}
use im_single.ImConnect.Opens.{Represents}
use im_single.ImConnect.Closes.{present, channel_of-none, no_length}
use im_single.ImConnect.Refines.{after-Represents}

present_absent : {r : ℕ} → some r ≢ none
present_absent h = cc

no_keys : (l : Map String) → ((t : String) → get t l ≡ none) → length l ≡ 0
unfolding get
no_keys [] h = refl
no_keys ((k, v) ∷ l) h =
    let there = ap (λ b. if b then some v else get k l) (sym (same_string k)) in
    let clash : some v ≡ none = there ∙ h k in cc

-- What is left of the channels.
left_channels : ChannelsHub → String → String → Map ℕ
left_channels this s c =
    if same_number (length (remove s this.channel_map)) 0
    then remove c this.channels
    else this.channels

destroyed :
    (this : ChannelsHub) (s c : String) (client : ChannelClient) (notice : Notice)
    → get s this.channel_map ≡ some c
    → (leave_client this s client (some notice)).0.channels ≡ left_channels this s c
unfolding leave_client leave set_clients destroy remove_channel left_channels
destroyed this s c client notice at =
    let unseated : ChannelsHub = record this { channel_map = remove s this.channel_map } in
    ap (λ o. (remove_channel unseated o).channels) at
    ∙ sym (
        if_push (λ (hub : ChannelsHub). hub.channels)
          (same_number (length (remove s this.channel_map)) 0)
          (record unseated { channels = remove c this.channels }) unseated)

closed_channels :
    (this : ChannelsHub) (seats : String → Option Seat) (s c : String) (parameters : Parameters)
    (u : String)
    → Represents this seats
    → seats s ≡ some (c, parameters)
    → first_parameter "uid" parameters ≡ some u
    → (channel_inactive this s).0.channels ≡ left_channels this s c
unfolding channel_inactive on_close
closed_channels this seats s c parameters u v at user =
    let p = present this seats s c parameters v at in
    let client : ChannelClient = record {
      session = s;
      parameters = parameters;
      websocket_channel = p.reference;
    } in
    let notice = offline (this.objects p.reference).channel_id u in
    ap (λ o. (if_present o (λ k. leave_client this s k (on_close this k)) (this, none)).0.channels)
      p.client
    ∙ ap
        (λ o.
          (leave_client this s client
            (and_then o (λ w. some (offline (this.objects p.reference).channel_id w)))).0.channels)
        user
    ∙ destroyed this s c client notice (v.seated s ∙ ap channel_of at)

others_gone :
    (this : ChannelsHub) (seats : String → Option Seat) (s : String)
    → Represents this seats
    → length (remove s this.channel_map) ≡ 0
    → (t : String) → t ≢ s
    → seats t ≡ none
unfolding get
others_gone this seats s v empty t other =
    let gone = ap (get t) (no_length (remove s this.channel_map) (ground (arith, empty))) in
    let apart : (s == t) ≡ false = elim (Bool-cases (s == t)) [
      | inl e ↦ absurd (other (sym ((eq_iff s t).0 e)))
      | inr e ↦ e
    ] in
    channel_of-none (seats t) (
      sym (v.seated t)
      ∙ sym (
          get-remove s t this.channel_map
          ∙ ap (λ b. if b then none else get t this.channel_map) apart)
      ∙ gone)

none_left :
    (this : ChannelsHub) (seats : String → Option Seat) (s : String)
    → Represents this seats
    → ((t : String) → t ≢ s → seats t ≡ none)
    → length (remove s this.channel_map) ≡ 0
none_left this seats s v gone = no_keys (remove s this.channel_map) (λ t.
    get-remove s t this.channel_map ∙ elim (Bool-cases (s == t)) [
      | inl e ↦ ap (λ b. if b then none else get t this.channel_map) e
      | inr e ↦
          ap (λ b. if b then none else get t this.channel_map) e
          ∙ v.seated t
          ∙ ap channel_of (gone t (λ same. other_string s t e (sym same)))
    ])

left_none :
    (this : ChannelsHub) (seats : String → Option Seat) (s c : String) (parameters : Parameters)
    → Represents this seats
    → seats s ≡ some (c, parameters)
    → get c (left_channels this s c) ≡ none
    → (t : String) → t ≢ s
    → seats t ≡ none
unfolding left_channels
left_none this seats s c parameters v at gone =
    elim (Bool-cases (same_number (length (remove s this.channel_map)) 0)) [
      | inl e ↦ others_gone this seats s v ((==_iff (length (remove s this.channel_map)) 0).0 e)
      | inr e ↦
          let (r, there) = v.rooms.found c s (ap (λ o. in_channel o c) at ∙ same_string c) in
          let lost =
            ap (λ b. get c (if b then remove c this.channels else this.channels)) (sym e) ∙ gone in
          absurd (present_absent (sym there ∙ lost))
    ]

-- After any history in which no session opens twice without closing, the close of a session with a user
-- takes its channel from the hub if and only if there is no other session at all, in whichever channel:
-- until then a channel without sessions stays.
pub closes_channel :
    (objects : ℕ → WebsocketChannel) (h : List Change) (s c : String) (parameters : Parameters)
    (u : String)
    → Regular h
    → seat h s ≡ some (c, parameters)
    → first_parameter "uid" parameters ≡ some u
    → (get c (after objects (closes s ∷ h)).channels ≡ none)
      ↔ ((t : String) → t ≢ s → seat h t ≡ none)
unfolding after change left_channels
closes_channel objects h s c parameters u reg at user =
    let this = after objects h in
    let v = after-Represents objects h reg in
    let path = ap (get c) (closed_channels this (seat h) s c parameters u v at user) in
    (
      λ gone. left_none this (seat h) s c parameters v at (sym path ∙ gone),
      λ gone.
          path
          ∙ ap (λ b. get c (if b then remove c this.channels else this.channels))
              ((==_iff (length (remove s this.channel_map)) 0).1 (none_left this (seat h) s v gone))
          ∙ get-remove c c this.channels
          ∙ ap (λ b. if b then none else get c this.channels) (same_string c),
    )
