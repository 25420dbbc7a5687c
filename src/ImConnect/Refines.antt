-- ===== src/ImConnect/Refines.antt =====
-- The hub keeps the sessions of ImConnect/History, and the events that are sent are theirs.
use mathlib.Core.Path.{subst}
use im_single.Base.{
  ℕ, if◌then◌else◌, inl, inr, Option-cases, none, some, and_then, List, [], ◌∷◌, refl, sym, ap,
  if_false, if_present,
}
use im_single.Maps.{◌==◌, get}
use im_single.ImConnect.Hub.{WebsocketChannel, ChannelsHub, new_hub, create}
use im_single.ImConnect.Sessions.{first_parameter, join_client, connect_client, channel_inactive}
use im_single.ImConnect.History.{
  Change, opens, closes, change, after, seat, Regular, user_online, user_offline, notice,
}
use im_single.ImConnect.Opens.{Represents, Represents-same, Changed, connect_client-Changed}
use im_single.ImConnect.Closes.{close_client, close_nothing}

pub change-Changed :
    (this : ChannelsHub) (h : List Change) (c : Change)
    → Represents this (seat h)
    → Regular (c ∷ h)
    → Changed (change this c) (seat (c ∷ h)) (notice h c)
unfolding change Regular seat connect_client notice
change-Changed this h (opens s parameters) v (out, reg) =
    elim (first_parameter "cid" parameters)
      as (λ o.
        Changed (if_present o (λ cid. join_client (create this cid s) s parameters) (this, none))
          (λ t.
            if s == t then if_present o (λ cid. some (cid, parameters)) (seat h t) else seat h t)
          (and_then o (λ cid. user_online (first_parameter "uid" parameters) cid))) [
            | none ↦ record {
              represents = Represents-same this (seat h) _ (λ t. if_false (s == t) (λ e. refl)) v;
              sent = refl;
            }
            | some cid ↦ connect_client-Changed this (seat h) cid s parameters v out
          ]
change-Changed this h (closes s) v reg = elim (Option-cases (seat h s)) [
  | inl out ↦
      subst (Changed (channel_inactive this s) (seat (closes s ∷ h)))
        (sym (ap (λ o. and_then o (λ x. user_offline (first_parameter "uid" x.1) x.0)) out))
        (close_nothing this (seat h) s v out)
  | inr ((c, parameters), at) ↦
      subst (Changed (channel_inactive this s) (seat (closes s ∷ h)))
        (sym (ap (λ o. and_then o (λ x. user_offline (first_parameter "uid" x.1) x.0)) at))
        (close_client this (seat h) s c parameters (first_parameter "uid" parameters) v at refl)
]

pub after-Represents :
    (objects : ℕ → WebsocketChannel) (h : List Change)
    → Regular h
    → Represents (after objects h) (seat h)
unfolding after new_hub seat get Regular
after-Represents objects [] reg = record {
  seated = λ s. refl;
  rooms = record { below = λ c r e. cc; room = λ c r e. cc; found = λ c s e. cc };
}
after-Represents objects (opens s parameters ∷ h) reg =
    let v = after-Represents objects h reg.1 in
    let c = change-Changed (after objects h) h (opens s parameters) v reg in c.represents
after-Represents objects (closes s ∷ h) reg =
    let v = after-Represents objects h reg in
    let c = change-Changed (after objects h) h (closes s) v reg in c.represents
