-- ===== src/ImMessage/NodeLoad/Loads.antt =====
-- The load of a node is the number of its connections.
use mathlib.Core.Path.{subst}
use im_single.Base.{
  ℕ, ◌+◌, ◌-◌, ◌%◌, ◌^◌, ◌<◌, if◌then◌else◌, if_elim, true, inl, inr, Option, Option-cases, none,
  some, List, [], ◌∷◌, ◌≡◌, refl, sym, ap, ◌∙◌, arith, ◌&&◌,
}
use im_single.Maps.{String, ◌==◌, eq_iff, count}
use im_single.ImMessage.NodeLoad.{ConnectNodeLoad, available, node_ids}
use im_single.ImMessage.NodeLoad.History.{
  Change, starts, stops, online, offline, after, more_load, node_of, is_present, connected,
}
use im_single.ImMessage.NodeLoad.Refines.{after_refines}

-- The sum over a list of channels.
unfoldable pub total : (String → ℕ) → List String → ℕ
total f [] = 0
total f (c ∷ cs) = f c + total f cs

pub total-same :
    (f g : String → ℕ) (cs : List String) → ((c : String) → f c ≡ g c) → total f cs ≡ total g cs
unfolding total
total-same f g [] h = refl
total-same f g (c ∷ cs) h = λ i. h c i + total-same f g cs h i

-- A history whose channels are among these, each of them once: a node starts with no load and no
-- connections, and only what is connected goes offline.
unfoldable pub Regular : List String → List Change → Type 0
Regular cs [] = Unit {0}
Regular cs (starts node ∷ h) = (node.load ≡ 0) × (total (connected h node.id) cs ≡ 0) × Regular cs h
Regular cs (stops node ∷ h) = Regular cs h
Regular cs (online m d ∷ h) = (count d cs ≡ 1) × Regular cs h
Regular cs (offline m d ∷ h) = (count d cs ≡ 1) × (0 < connected h m d) × Regular cs h

total-online :
    (h : List Change) (m d n : String) (cs : List String)
    → total (connected (online m d ∷ h) n) cs
      ≡ total (connected h n) cs + (if is_present (node_of h m) && m == n then count d cs else 0)
unfolding total connected count
total-online h m d n [] = ground arith
total-online h m d n (c ∷ cs) = ground (arith, total-online h m d n cs, eq_iff d c, eq_iff c d)

same_connections :
    (h : List Change) (m d n c : String)
    → (m == n) ≡ true
    → (d == c) ≡ true
    → connected h m d ≡ connected h n c
same_connections h m d n c e f = λ i. connected h ((eq_iff m n).0 e i) ((eq_iff d c).0 f i)

total-offline :
    (h : List Change) (m d n : String) (cs : List String)
    → 0 < connected h m d
    → total (connected h n) cs
      ≡ total (connected (offline m d ∷ h) n) cs
        + (if is_present (node_of h m) && m == n then count d cs else 0)
unfolding total connected count
total-offline h m d n [] pos = ground arith
total-offline h m d n (c ∷ cs) pos =
    ground (arith, total-offline h m d n cs pos, eq_iff d c, eq_iff c d, same_connections h m d n c)

abbrev Loaded : Option ConnectNodeLoad → ℕ → Type 0
Loaded none k = Unit {0}
Loaded (some node) k = node.load ≡ k % 2 ^ 32

Loaded-more : (o : Option ConnectNodeLoad) (k : ℕ) → Loaded o k → Loaded (more_load 1 o) (k + 1)
Loaded-more none k h = tt
Loaded-more (some node) k h = omega (arith, h)

Loaded-less :
    (o : Option ConnectNodeLoad) (k : ℕ) → Loaded o (k + 1) → Loaded (more_load (2 ^ 32 - 1) o) k
Loaded-less none k h = tt
Loaded-less (some node) k h = omega (arith, h)

-- What a change adds to the connections of the node that it names.
abbrev added : List Change → String → String → ℕ
added h m n = if is_present (node_of h m) && m == n then 1 else 0

changed :
    (h : List Change) (m n : String) (P : Option ConnectNodeLoad → Type 0)
    (f : Option ConnectNodeLoad → Option ConnectNodeLoad)
    → f none ≡ none
    → (added h m n ≡ 1 → P (f (node_of h n)))
    → (added h m n ≡ 0 → P (node_of h n))
    → P (if m == n then f (node_of h n) else node_of h n)
changed h m n P f keeps renewed left =
    if_elim P (m == n)
      (λ e.
        let here : node_of h m ≡ node_of h n = ap (node_of h) ((eq_iff m n).0 e) in
        elim (Option-cases (node_of h n)) [
          | inl gone ↦ subst P (gone ∙ sym (ap f gone ∙ keeps)) (left (ground (arith, here ∙ gone)))
          | inr (node, there) ↦ renewed (ground (arith, here ∙ there, e))
        ])
      (λ e. left (ground (arith, e)))

Regular-Loaded :
    (cs : List String) (h : List Change)
    → Regular cs h
    → (n : String) → Loaded (node_of h n) (total (connected h n) cs)
unfolding Regular node_of connected
Regular-Loaded cs [] reg n = tt
Regular-Loaded cs (starts node ∷ h) (unloaded, unused, reg) n =
    let same = total-same (connected (starts node ∷ h) n) (connected h n) cs (λ c. refl) in
    let k' = total (connected (starts node ∷ h) n) cs in
    if_elim (λ o. Loaded o k') (node.id == n)
      (λ e.
        let none_yet = ap (λ x. total (connected h x) cs) ((eq_iff node.id n).0 e) in
        omega (arith, same, none_yet, unloaded, unused))
      (λ e. subst (Loaded (node_of h n)) (sym same) (Regular-Loaded cs h reg n))
Regular-Loaded cs (stops node ∷ h) reg n =
    let same = total-same (connected (stops node ∷ h) n) (connected h n) cs (λ c. refl) in
    let k' = total (connected (stops node ∷ h) n) cs in
    if_elim (λ o. Loaded o k') (node.id == n) (λ e. tt)
      (λ e. subst (Loaded (node_of h n)) (sym same) (Regular-Loaded cs h reg n))
Regular-Loaded cs (online m d ∷ h) (once, reg) n =
    let k = total (connected h n) cs in
    let k' = total (connected (online m d ∷ h) n) cs in
    let step : k' ≡ k + added h m n = ground (arith, total-online h m d n cs, once) in
    changed h m n (λ o. Loaded o k') (more_load 1) refl
      (λ one.
        subst (Loaded (more_load 1 (node_of h n))) (omega (arith, step, one))
          (Loaded-more (node_of h n) k (Regular-Loaded cs h reg n)))
      (λ zero. subst (Loaded (node_of h n)) (omega (arith, step, zero)) (Regular-Loaded cs h reg n))
Regular-Loaded cs (offline m d ∷ h) (once, pos, reg) n =
    let k = total (connected h n) cs in
    let k' = total (connected (offline m d ∷ h) n) cs in
    let step : k ≡ k' + added h m n = ground (arith, total-offline h m d n cs pos, once) in
    changed h m n (λ o. Loaded o k') (more_load (2 ^ 32 - 1)) refl
      (λ one.
        Loaded-less (node_of h n) k'
          (subst (Loaded (node_of h n)) (omega (arith, step, one)) (Regular-Loaded cs h reg n)))
      (λ zero. subst (Loaded (node_of h n)) (omega (arith, step, zero)) (Regular-Loaded cs h reg n))

-- The load of every available node is the number of times that it stands in the lists of the channels,
-- in 32 bits. The history is one whose channels are among `cs`, each of them there once, in which a node
-- starts with no load and with no connections, and only a connection that is there goes offline.
pub load_counts :
    (objects : ℕ → ConnectNodeLoad) (cs : List String) (h : List Change)
    → Regular cs h
    → (n : String) {node : ConnectNodeLoad} → available (after objects h) n ≡ some node
    → node.load ≡ total (λ c. count n (node_ids (after objects h) c)) cs % 2 ^ 32
load_counts objects cs h reg n there =
    let found = sym (after_refines objects h n "").0 ∙ there in
    let load = subst (λ o. Loaded o (total (connected h n) cs)) found (Regular-Loaded cs h reg n) in
    let same =
      total-same (connected h n) (λ c. count n (node_ids (after objects h) c)) cs
        (λ c. sym (after_refines objects h n c).1) in
    omega (arith, load, same)
