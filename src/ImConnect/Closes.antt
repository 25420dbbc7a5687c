-- ===== src/ImConnect/Closes.antt =====
-- The hub lets the sessions go that close.
use mathlib.Core.Path.{subst}
use im_single.Base.{
  ℕ, if◌then◌else◌, if_elim, true, Option, none, some, and_then, List, [], ◌∷◌, length, ◌≡◌, refl,
  sym, ap, ◌∙◌, arith, ◌==◌ as same_number, if_both, if_false, if_push, if_present,
}
use im_single.Maps.{String, ◌==◌, eq_iff, get, remove, get-remove, same_string, count-keys-remove}
use im_single.ImConnect.Hub.{
  Parameters, ChannelClient, ChannelsHub, set_clients, leave, destroy, remove_channel, get_channel,
  get_web_socket_client,
}
use im_single.ImConnect.Sessions.{
  first_parameter, offline, on_close, leave_client, channel_inactive,
}
use im_single.ImConnect.History.{Seat, left, in_channel, user_offline}
use im_single.ImConnect.Hub.Rooms.{client_in, channel_of, Rooms-remove}
use im_single.ImConnect.Hub.Moves.{Rooms-move}
use im_single.ImConnect.Opens.{Represents, Represents-same, Changed, moved}

-- What the session of a channel is to the hub.
pub record Present (this : ChannelsHub) (s c : String) (parameters : Parameters) : Type 0 where
  pub reference : ℕ
  pub there : get c this.channels ≡ some reference
  pub client :
      get_web_socket_client this s
      ≡ some (record { session = s; parameters = parameters; websocket_channel = reference })
  pub named : (this.objects reference).channel_id ≡ c

pub present :
    (this : ChannelsHub) (seats : String → Option Seat) (s c : String) (parameters : Parameters)
    → Represents this seats
    → seats s ≡ some (c, parameters)
    → Present this s c parameters
unfolding get_web_socket_client get_channel
present this seats s c parameters v at =
    let (r, there) = v.rooms.found c s (ap (λ o. in_channel o c) at ∙ same_string c) in
    let room = v.rooms.room c r there in
    let client : ChannelClient = record {
      session = s;
      parameters = parameters;
      websocket_channel = r;
    } in
    record {
      reference = r;
      there = there;
      client =
          ap
            (λ o. and_then o (λ d.
              and_then (and_then (get d this.channels) (λ q. some (this.objects q)))
                (λ channel. get s channel.clients)))
            (v.seated s ∙ ap channel_of at)
          ∙ ap
              (λ o.
                and_then (and_then o (λ q. some (this.objects q)))
                  (λ channel. get s channel.clients))
              there
          ∙ room.joined s
          ∙ ap (λ o. client_in o c r s) at
          ∙ ap (λ b. if b then some client else none) (same_string c);
      named = room.named;
    }

pub absent_client :
    (this : ChannelsHub) (seats : String → Option Seat) (s : String)
    → Represents this seats
    → seats s ≡ none
    → get_web_socket_client this s ≡ none
unfolding get_web_socket_client
absent_client this seats s v out =
    ap (λ o. and_then o (λ d. and_then (get_channel this d) (λ channel. get s channel.clients)))
      (v.seated s ∙ ap channel_of out)

pub channel_of-none : (o : Option Seat) → channel_of o ≡ none → o ≡ none
channel_of-none none h = refl
channel_of-none (some (channel, parameters)) h = cc

pub no_length : {A : Type 0} (l : List A) → same_number (length l) 0 ≡ true → l ≡ []
no_length [] h = refl
no_length (x ∷ l) h = ground (arith, h)

leave-Represents :
    (this : ChannelsHub) (seats : String → Option Seat) (c s : String) (parameters : Parameters)
    (r : ℕ)
    → Represents this seats
    → seats s ≡ some (c, parameters)
    → get c this.channels ≡ some r
    → Represents
        (leave
          (destroy this s)
          (record { session = s; parameters = parameters; websocket_channel = r }))
        (moved seats s none)
unfolding leave set_clients destroy remove_channel get
leave-Represents this seats c s parameters r v at there =
    let client : ChannelClient = record {
      session = s;
      parameters = parameters;
      websocket_channel = r;
    } in
    let old = (this.objects r).clients in
    let unseated : ChannelsHub = record this { channel_map = remove s this.channel_map } in
    let seated = λ (t : String).
      get-remove s t this.channel_map
      ∙ if_both (s == t) (λ e. refl) (λ e. v.seated t)
      ∙ if_push channel_of (s == t) none (seats t) in
    let rooms =
      Rooms-move this.objects this.fresh this.channels seats v.rooms c s none r (remove s old) there
        (λ d other. (ap (λ o. in_channel o d) at ∙ other, refl)) (λ t. get-remove s t old)
        (λ t. count-keys-remove s t old) in
    subst (λ o. Represents (leave (remove_channel unseated o) client) (moved seats s none))
      (sym (v.seated s ∙ ap channel_of at))
      (if_elim (λ hub. Represents (leave hub client) (moved seats s none))
        (same_number (length (remove s this.channel_map)) 0)
        (λ empty. record {
          seated = seated;
          rooms = Rooms-remove _ this.fresh this.channels (moved seats s none) rooms c (λ t.
              channel_of-none (moved seats s none t)
                (sym (seated t) ∙ ap (get t) (no_length (remove s this.channel_map) empty)));
        })
        (λ others. record { seated = seated; rooms = rooms }))

-- What `left` makes of this seat.
left_here :
    (seats : String → Option Seat) (s t c : String) (parameters : Parameters) (x : Option Seat)
    → seats s ≡ some (c, parameters)
    → left (some (c, parameters)) ≡ x
    → moved seats s x t ≡ (if s == t then left (seats t) else seats t)
left_here seats s t c parameters x at h =
    if_both (s == t) (λ e. sym (ap (λ u. left (seats u)) (sym ((eq_iff s t).0 e)) ∙ ap left at ∙ h))
      (λ e. refl)

left_client :
    (this : ChannelsHub) (seats : String → Option Seat) (s c : String) (parameters : Parameters)
    (uid : Option String) (r : ℕ)
    → Represents this seats
    → seats s ≡ some (c, parameters)
    → first_parameter "uid" parameters ≡ uid
    → get c this.channels ≡ some r
    → Changed
        (leave_client this s
          (record { session = s; parameters = parameters; websocket_channel = r })
          (user_offline uid c))
        (λ t. if s == t then left (seats t) else seats t)
        (user_offline uid c)
unfolding leave_client
left_client this seats s c parameters none r v at user there = record {
  represents =
      Represents-same this seats (λ t. if s == t then left (seats t) else seats t)
        (λ t. if_false (s == t) (λ e.
          ap seats (sym ((eq_iff s t).0 e))
          ∙ at
          ∙ sym (
              ap (λ u. left (seats u)) (sym ((eq_iff s t).0 e))
              ∙ ap left at
              ∙ ap (λ o. if_present o (λ uid. none) (some (c, parameters))) user)))
        v;
  sent = refl;
}
left_client this seats s c parameters (some uid) r v at user there = record {
  represents =
      Represents-same _ (moved seats s none) (λ t. if s == t then left (seats t) else seats t)
        (λ t.
          left_here seats s t c parameters none at
            (ap (λ o. if_present o (λ uid. none) (some (c, parameters))) user))
        (leave-Represents this seats c s parameters r v at there);
  sent = refl;
}

pub close_client :
    (this : ChannelsHub) (seats : String → Option Seat) (s c : String) (parameters : Parameters)
    (uid : Option String)
    → Represents this seats
    → seats s ≡ some (c, parameters)
    → first_parameter "uid" parameters ≡ uid
    → Changed
        (channel_inactive this s)
        (λ t. if s == t then left (seats t) else seats t)
        (user_offline uid c)
unfolding channel_inactive on_close
close_client this seats s c parameters uid v at user =
    let p = present this seats s c parameters v at in
    let client : ChannelClient = record {
      session = s;
      parameters = parameters;
      websocket_channel = p.reference;
    } in
    let path : channel_inactive this s ≡ leave_client this s client (user_offline uid c) =
      ap (λ o. if_present o (λ k. leave_client this s k (on_close this k)) (this, none)) p.client
      ∙ ap (leave_client this s client) (
          ap (λ o. and_then o (λ u. some (offline (this.objects p.reference).channel_id u))) user
          ∙ ap (user_offline uid) p.named) in
    subst (λ o. Changed o (λ t. if s == t then left (seats t) else seats t) (user_offline uid c))
      (sym path) (left_client this seats s c parameters uid p.reference v at user p.there)

pub close_nothing :
    (this : ChannelsHub) (seats : String → Option Seat) (s : String)
    → Represents this seats
    → seats s ≡ none
    → Changed (channel_inactive this s) (λ t. if s == t then left (seats t) else seats t) none
unfolding channel_inactive
close_nothing this seats s v out =
    subst (λ o. Changed o (λ t. if s == t then left (seats t) else seats t) none)
      (sym (
        ap (λ o. if_present o (λ k. leave_client this s k (on_close this k)) (this, none))
          (absent_client this seats s v out)))
      (record {
        represents =
            Represents-same this seats (λ t. if s == t then left (seats t) else seats t)
              (λ t. if_false (s == t) (λ e.
                ap seats (sym ((eq_iff s t).0 e))
                ∙ out
                ∙ sym (ap (λ u. left (seats u)) (sym ((eq_iff s t).0 e)) ∙ ap left out)))
              v;
        sent = refl;
      })
