-- ===== src/ImConnect/Hub/Rooms.antt =====
-- The channels of the hub and the sessions that each is to have.
use mathlib.Core.Path.{subst}
use im_single.Base.{
  ℕ, ◌+◌, ◌<◌, if◌then◌else◌, Bool, true, false, Bool-cases, inl, inr, ◌⊎◌, Option, none, some, [],
  ◌≡◌, ◌≢◌, refl, sym, ap, ◌∙◌, arith,
}
use im_single.Maps.{String, Map, ◌==◌, eq_iff, get, put, remove, get-put, get-remove, count, keys}
use im_single.ImConnect.Hub.{ChannelClient, WebsocketChannel, assign}
use im_single.ImConnect.History.{Seat, in_channel}

-- The client of a session in a channel, which is the object r.
abbrev pub client_in : Option Seat → String → ℕ → String → Option ChannelClient
client_in none c r s = none
client_in (some (channel, parameters)) c r s =
    if channel == c
    then some (record { session = s; parameters = parameters; websocket_channel = r })
    else none

abbrev pub channel_of : Option Seat → Option String
channel_of none = none
channel_of (some (channel, parameters)) = some channel

-- A channel of this id, the object r, has the sessions that the function puts there.
pub record RoomOf (seat : String → Option Seat) (c : String) (r : ℕ) (channel : WebsocketChannel)
    : Type 0 where
  pub named : channel.channel_id ≡ c
  pub joined : (s : String) → get s channel.clients ≡ client_in (seat s) c r s
  pub once :
      (s : String) → count s (keys channel.clients) ≡ (if in_channel (seat s) c then 1 else 0)

-- So has each channel of the hub, and every session is in one.
pub record Rooms (objects : ℕ → WebsocketChannel) (fresh : ℕ) (channels : Map ℕ)
    (seat : String → Option Seat) : Type 0 where
  pub below : (c : String) (r : ℕ) → get c channels ≡ some r → r < fresh
  pub room : (c : String) (r : ℕ) → get c channels ≡ some r → RoomOf seat c r (objects r)
  pub found : (c s : String) → in_channel (seat s) c ≡ true → (r : ℕ) × (get c channels ≡ some r)

pub assign_other :
    (objects : ℕ → WebsocketChannel) (r s : ℕ) (channel : WebsocketChannel)
    → s ≢ r
    → assign objects r channel s ≡ objects s
unfolding assign
assign_other objects r s channel h = ground arith

pub assign_same :
    (objects : ℕ → WebsocketChannel) (r : ℕ) (channel : WebsocketChannel)
    → assign objects r channel r ≡ channel
unfolding assign
assign_same objects r channel = ground arith

pub some_inj : {a b : ℕ} → some a ≡ some b → a ≡ b
some_inj h = cc

pub not_in :
    (o : Option Seat) (c : String) (r : ℕ) (s : String)
    → in_channel o c ≡ false
    → client_in o c r s ≡ none
not_in none c r s h = refl
not_in (some (channel, parameters)) c r s h = ground (arith, h)

-- What has been added under a new reference, or was there.
put_cases :
    (k n : String) (v : ℕ) (l : Map ℕ) (r : ℕ)
    → get n (put k v l) ≡ some r
    → ((k ≡ n) × (r ≡ v)) ⊎ (get n l ≡ some r)
put_cases k n v l r h = elim (Bool-cases (k == n)) [
  | inl e ↦ inl (
    (eq_iff k n).0 e,
    some_inj (sym (sym (get-put k n v l ∙ ap (λ b. if b then some v else get n l) e) ∙ h)),
  )
  | inr e ↦ inr (sym (get-put k n v l ∙ ap (λ b. if b then some v else get n l) e) ∙ h)
]

if_none-eq : (b : Bool) {o : Option ℕ} {r : ℕ} → (if b then none else o) ≡ some r → o ≡ some r
if_none-eq true h = cc
if_none-eq false h = h

module _ (objects : ℕ → WebsocketChannel) (fresh : ℕ) (channels : Map ℕ)
    (seat : String → Option Seat) (rooms : Rooms objects fresh channels seat) where
  -- A session is in no channel that is not there.
  unseated : (c s : String) → get c channels ≡ none → in_channel (seat s) c ≡ false
  unseated c s gone = elim (Bool-cases (in_channel (seat s) c)) [
    | inl there ↦ let (r, e) = rooms.found c s there in cc
    | inr other ↦ other
  ]

  new-RoomOf :
      (c d : String) (r : ℕ)
      → get c channels ≡ none
      → c ≡ d
      → RoomOf seat d r (record { channel_id = c; clients = [] })
  unfolding get keys count
  new-RoomOf c d r gone same = record {
    named = same;
    joined = λ s.
        sym (not_in (seat s) d r s (unseated d s (ap (λ x. get x channels) (sym same) ∙ gone)));
    once = λ s. ground (arith, unseated d s (ap (λ x. get x channels) (sym same) ∙ gone));
  }

  pub Rooms-new :
      (c : String)
      → get c channels ≡ none
      → Rooms
          (assign objects fresh (record { channel_id = c; clients = [] }))
          (fresh + 1)
          (put c fresh channels)
          seat
  Rooms-new c gone =
      let empty : WebsocketChannel = record { channel_id = c; clients = [] } in
      record {
        below = λ d r h. elim (put_cases c d fresh channels r h) [
          | inl (_, at) ↦ omega (arith, at)
          | inr e ↦ omega (arith, rooms.below d r e)
        ];
        room = λ d r h. elim (put_cases c d fresh channels r h) [
          | inl (same, at) ↦
              subst (RoomOf seat d r)
                (sym (ap (assign objects fresh empty) at ∙ assign_same objects fresh empty))
                (new-RoomOf c d r gone same)
          | inr e ↦
              subst (RoomOf seat d r)
                (sym (assign_other objects fresh r empty (omega (arith, rooms.below d r e))))
                (rooms.room d r e)
        ];
        found = λ d s there.
            let (r, e) = rooms.found d s there in
            elim (Bool-cases (c == d)) [
              | inl b ↦ (
                fresh,
                get-put c d fresh channels ∙ ap (λ x. if x then some fresh else get d channels) b,
              )
              | inr b ↦ (
                r,
                get-put c d fresh channels
                    ∙ ap (λ x. if x then some fresh else get d channels) b
                    ∙ e,
              )
            ];
      }

  -- With no sessions left a channel can go.
  pub Rooms-remove :
      (c : String) → ((s : String) → seat s ≡ none) → Rooms objects fresh (remove c channels) seat
  Rooms-remove c empty =
      let kept = λ (d : String) (r : ℕ) (h : get d (remove c channels) ≡ some r).
        if_none-eq (c == d) (sym (get-remove c d channels) ∙ h) in
      record {
        below = λ d r h. rooms.below d r (kept d r h);
        room = λ d r h. rooms.room d r (kept d r h);
        found = λ d s there. let gone = ap (λ o. in_channel o d) (empty s) in cc;
      }
