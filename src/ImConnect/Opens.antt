-- ===== src/ImConnect/Opens.antt =====
-- The hub keeps the sessions that open.
use mathlib.Core.Path.{subst}
use im_single.Base.{
  ℕ, if◌then◌else◌, Option, none, some, ◌≡◌, refl, ap, ◌∙◌, arith, if_both, if_push,
}
use im_single.Maps.{String, ◌==◌, get, put, get-put, same_string, count-keys-put}
use im_single.ImConnect.Hub.{
  Parameters, ChannelClient, ChannelsHub, compute_if_absent, set_clients, join, create,
}
use im_single.ImConnect.Sessions.{first_parameter, Notice, on_open, join_client}
use im_single.ImConnect.History.{Seat, in_channel, user_online}
use im_single.ImConnect.Hub.Rooms.{channel_of, Rooms, Rooms-new}
use im_single.ImConnect.Hub.Moves.{Rooms-move}

-- The hub has the sessions where the function says.
pub record Represents (this : ChannelsHub) (seats : String → Option Seat) : Type 0 where
  pub seated : (s : String) → get s this.channel_map ≡ channel_of (seats s)
  pub rooms : Rooms this.objects this.fresh this.channels seats

pub Represents-same :
    (this : ChannelsHub) (f g : String → Option Seat)
    → ((s : String) → f s ≡ g s)
    → Represents this f
    → Represents this g
Represents-same this f g same v = subst (Represents this) (λ i s. same s i) v

-- The channel is there, and nothing else is changed.
record Absent (this : ChannelsHub) (c : String) (seats : String → Option Seat)
    (outcome : ChannelsHub × ℕ) : Type 0 where
  pub rooms : Rooms outcome.0.objects outcome.0.fresh outcome.0.channels seats
  pub there : get c outcome.0.channels ≡ some outcome.1
  pub same : outcome.0.channel_map ≡ this.channel_map

compute_if_absent-Absent :
    (this : ChannelsHub) (c : String) (seats : String → Option Seat) (o : Option ℕ)
    → Rooms this.objects this.fresh this.channels seats
    → get c this.channels ≡ o
    → Absent this c seats (compute_if_absent this c o)
unfolding compute_if_absent
compute_if_absent-Absent this c seats (some r) rooms e = record {
  rooms = rooms;
  there = e;
  same = refl;
}
compute_if_absent-Absent this c seats none rooms e = record {
  rooms = Rooms-new this.objects this.fresh this.channels seats rooms c e;
  there =
      get-put c c this.fresh this.channels
      ∙ ap (λ b. if b then some this.fresh else get c this.channels) (same_string c);
  same = refl;
}

abbrev pub moved : (String → Option Seat) → String → Option Seat → String → Option Seat
moved seats s x t = if s == t then x else seats t

join-Represents :
    (this : ChannelsHub) (seats : String → Option Seat) (c s : String) (parameters : Parameters)
    (r : ℕ)
    → Rooms this.objects this.fresh this.channels seats
    → get c this.channels ≡ some r
    → seats s ≡ none
    → ((t : String) → get t this.channel_map ≡ (if s == t then some c else channel_of (seats t)))
    → Represents
        (join this (record { session = s; parameters = parameters; websocket_channel = r }))
        (moved seats s (some (c, parameters)))
unfolding join set_clients
join-Represents this seats c s parameters r rooms there out map =
    let client : ChannelClient = record {
      session = s;
      parameters = parameters;
      websocket_channel = r;
    } in
    let old = (this.objects r).clients in
    record {
      seated = λ t. map t ∙ if_push channel_of (s == t) (some (c, parameters)) (seats t);
      rooms =
          Rooms-move this.objects this.fresh this.channels seats rooms c s (some (c, parameters)) r
            (put s client old) there (λ d other. (ap (λ o. in_channel o d) out, other))
            (λ t. ground (arith, get-put s t client old, same_string c))
            (λ t. ground (arith, count-keys-put s t client old, same_string c));
    }

-- What a change is to leave of the sessions, and to send.
pub record Changed (outcome : ChannelsHub × Option Notice) (seats : String → Option Seat)
    (notice : Option Notice) : Type 0 where
  pub represents : Represents outcome.0 seats
  pub sent : outcome.1 ≡ notice

pub connect_client-Changed :
    (this : ChannelsHub) (seats : String → Option Seat) (c s : String) (parameters : Parameters)
    → Represents this seats
    → seats s ≡ none
    → Changed
        (join_client (create this c s) s parameters)
        (moved seats s (some (c, parameters)))
        (user_online (first_parameter "uid" parameters) c)
unfolding join_client create on_open join set_clients
connect_client-Changed this seats c s parameters v out =
    let seated : ChannelsHub = record this { channel_map = put s c this.channel_map } in
    let made = compute_if_absent seated c (get c this.channels) in
    let absent = compute_if_absent-Absent seated c seats (get c this.channels) v.rooms refl in
    let joined =
      join-Represents made.0 seats c s parameters made.1 absent.rooms absent.there out (λ t.
        ap (get t) absent.same
        ∙ get-put s t c this.channel_map
        ∙ if_both (s == t) (λ e. refl) (λ e. v.seated t)) in
    record {
      represents = joined;
      sent =
          ap (user_online (first_parameter "uid" parameters))
            ((joined.rooms.room c made.1 absent.there).named);
    }
