-- ===== src/ImConnect/Hub/Moves.antt =====
-- A session that moves into a channel or out of one.
use mathlib.Core.Path.{subst}
use im_single.Base.{
  ℕ, if◌then◌else◌, true, false, Bool-cases, inl, inr, Option, some, ◌≡◌, ◌≢◌, sym, ap, ◌∙◌, arith,
  ==_iff, ◌==◌ as same_number, if_both, if_false, if_push, ==_distinct,
}
use im_single.Maps.{String, Map, ◌==◌, eq_iff, get, count, keys}
use im_single.ImConnect.Hub.{ChannelClient, WebsocketChannel, assign}
use im_single.ImConnect.History.{Seat, in_channel}
use im_single.ImConnect.Hub.Rooms.{
  client_in, RoomOf, Rooms, assign_other, assign_same, some_inj, not_in,
}

-- The only channel that the session is in.
held :
    (c d : String) (x : Option Seat)
    → ((c == d) ≡ false → in_channel x d ≡ false)
    → in_channel x d ≡ true
    → c ≡ d
held c d x other there = elim (Bool-cases (c == d)) [
  | inl e ↦ (eq_iff c d).0 e
  | inr e ↦ let gone = other e in cc
]

module _ (objects : ℕ → WebsocketChannel) (fresh : ℕ) (channels : Map ℕ)
    (seat : String → Option Seat) (rooms : Rooms objects fresh channels seat) where
  -- One object for each channel.
  one_channel : (c d : String) (r : ℕ) → get c channels ≡ some r → get d channels ≡ some r → c ≡ d
  one_channel c d r e f = sym (rooms.room c r e).named ∙ (rooms.room d r f).named

  abbrev pub moved : String → Option Seat → String → Option Seat
  moved s x t = if s == t then x else seat t

  pushed :
      (s : String) (x : Option Seat) (c : String) (r : ℕ) (t : String)
      → (if s == t then client_in x c r t else client_in (seat t) c r t)
        ≡ client_in (moved s x t) c r t
  pushed s x c r t = if_push (λ o. client_in o c r t) (s == t) x (seat t)

  moved-RoomOf :
      (c s : String) (x : Option Seat) (r : ℕ) (clients : Map ChannelClient)
      → get c channels ≡ some r
      → ((t : String)
          → get t clients ≡ (if s == t then client_in x c r s else get t (objects r).clients))
      → ((t : String)
          → count t (keys clients) ≡ (
              if s == t
              then (if in_channel x c then 1 else 0)
              else count t (keys (objects r).clients)))
      → RoomOf (moved s x) c r (record (objects r) { clients = clients })
  moved-RoomOf c s x r clients there gets counts =
      let old = rooms.room c r there in
      record {
        named = old.named;
        joined = λ t.
            gets t
            ∙ if_both (s == t) (λ e. ap (client_in x c r) ((eq_iff s t).0 e)) (λ e. old.joined t)
            ∙ pushed s x c r t;
        once = λ t. ground (arith, counts t, old.once t);
      }

  -- A channel that the session is not in, before or after.
  kept-RoomOf :
      (c d s : String) (x : Option Seat) (q : ℕ) {channel : WebsocketChannel}
      → RoomOf seat d q channel
      → (in_channel (seat s) d ≡ false) × (in_channel x d ≡ false)
      → RoomOf (moved s x) d q channel
  kept-RoomOf c d s x q old (before, now) = record {
    named = old.named;
    joined = λ t.
        old.joined t
        ∙ if_false (s == t) (λ e.
          ap (λ u. client_in (seat u) d q u) (sym ((eq_iff s t).0 e))
          ∙ not_in (seat s) d q s before
          ∙ sym (not_in x d q t now))
        ∙ pushed s x d q t;
    once = λ t.
        old.once t
        ∙ ap (λ b. if b then 1 else 0)
            (if_false (s == t)
                (λ e. ap (λ u. in_channel (seat u) d) (sym ((eq_iff s t).0 e)) ∙ before ∙ sym now)
              ∙ if_push (λ o. in_channel o d) (s == t) x (seat t));
  }

  -- Other objects are other channels.
  apart :
      (c d : String) (r q : ℕ)
      → get c channels ≡ some r
      → get d channels ≡ some q
      → q ≢ r
      → (c == d) ≡ false
  apart c d r q there h other = elim (Bool-cases (c == d)) [
    | inl e ↦
        absurd
          (other (some_inj (sym h ∙ ap (λ y. get y channels) (sym ((eq_iff c d).0 e)) ∙ there)))
    | inr e ↦ e
  ]

  -- One session moves, out of this channel or into it.
  pub Rooms-move :
      (c s : String) (x : Option Seat) (r : ℕ) (clients : Map ChannelClient)
      → get c channels ≡ some r
      → ((d : String)
          → (c == d) ≡ false
          → (in_channel (seat s) d ≡ false) × (in_channel x d ≡ false))
      → ((t : String)
          → get t clients ≡ (if s == t then client_in x c r s else get t (objects r).clients))
      → ((t : String)
          → count t (keys clients) ≡ (
              if s == t
              then (if in_channel x c then 1 else 0)
              else count t (keys (objects r).clients)))
      → Rooms
          (assign objects r (record (objects r) { clients = clients }))
          fresh
          channels
          (λ t. if s == t then x else seat t)
  Rooms-move c s x r clients there elsewhere gets counts =
      let channel : WebsocketChannel = record (objects r) { clients = clients } in
      let here = moved-RoomOf c s x r clients there gets counts in
      record {
        below = rooms.below;
        room = λ d q h. elim (Bool-cases (same_number q r)) [
          | inl e ↦
              let at = (==_iff q r).0 e in
              let same = one_channel c d r there (h ∙ ap some at) in
              subst (RoomOf (moved s x) d q)
                (sym (ap (assign objects r channel) at ∙ assign_same objects r channel))
                (subst (λ y. RoomOf (moved s x) y q channel) same
                  (subst (λ y. RoomOf (moved s x) c y channel) (sym at) here))
          | inr e ↦
              subst (RoomOf (moved s x) d q)
                (sym (assign_other objects r q channel (==_distinct q r e)))
                (kept-RoomOf c d s x q (rooms.room d q h)
                  (elsewhere d (apart c d r q there h (==_distinct q r e))))
        ];
        found = λ d t h. elim (Bool-cases (s == t)) [
          | inl e ↦ (
            r,
            ap (λ y. get y channels)
                  (sym (
                    held c d x (λ b. (elsewhere d b).1)
                      (sym (ap (λ b. in_channel (if b then x else seat t) d) e) ∙ h)))
                ∙ there,
          )
          | inr e ↦ rooms.found d t (sym (ap (λ b. in_channel (if b then x else seat t) d) e) ∙ h)
        ];
      }
