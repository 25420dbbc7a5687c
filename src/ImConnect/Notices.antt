-- ===== src/ImConnect/Notices.antt =====
-- The events that the connect service sends when its sessions open and close.
use im_single.Base.{ℕ, List, ◌∷◌, ◌≡◌}
use im_single.ImConnect.Hub.{WebsocketChannel}
use im_single.ImConnect.History.{Change, opens, closes, change, after, Regular, notice}
use im_single.ImConnect.Refines.{change-Changed, after-Represents}

Regular-before : (h : List Change) (c : Change) → Regular (c ∷ h) → Regular h
unfolding Regular
Regular-before h (opens s parameters) reg = reg.1
Regular-before h (closes s) reg = reg

-- In any history in which no session opens twice without closing, the last change sends this event, and
-- no other: a session that opens, the channel and the user of its request as online, if the request has
-- both; a session that closes, the channel that it is in and the user as offline, if it is in one and has
-- a user.
pub change-notice :
    (objects : ℕ → WebsocketChannel) (h : List Change) (c : Change)
    → Regular (c ∷ h)
    → (change (after objects h) c).1 ≡ notice h c
change-notice objects h c reg =
    let v = after-Represents objects h (Regular-before h c reg) in
    let changed = change-Changed (after objects h) h c v reg in changed.sent
