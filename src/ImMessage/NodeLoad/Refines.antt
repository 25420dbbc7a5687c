-- ===== src/ImMessage/NodeLoad/Refines.antt =====
-- ConnectNodeLoadServiceImpl keeps what ImMessage/NodeLoad/History says of its changes.
use im_single.Base.{
  if_both, if_false, ℕ, ◌+◌, ◌-◌, ◌^◌, if◌then◌else◌, Option, none, some, and_then, List, [], ◌∷◌,
  ◌≡◌, refl, sym, ap, ◌∙◌, arith,
}
use im_single.Maps.{String, ◌==◌, eq_iff, get, count}
use im_single.ImMessage.NodeLoad.{
  ConnectNodeLoad, ConnectNodeLoadService, new_service, start, stop, set_load, available, connect,
  connect_node, disconnect, disconnect_node, node_ids,
}
use im_single.ImMessage.NodeLoad.History.{
  Change, starts, stops, online, offline, unless_thrown, change, after, more_load, node_of,
  connected,
}
use im_single.ImMessage.NodeLoad.Objects.{
  Sound, start-Sound, start-available, set_load-Sound, set_load-available, stop-available,
  stop-Sound,
}
use im_single.ImMessage.NodeLoad.Counts.{connect_node-count, remove_id-count}

-- The service stands for the history.
pub record Represents (s : ConnectNodeLoadService) (h : List Change) : Type 0 where
  pub sound : Sound s
  pub nodes : (n : String) → available s n ≡ node_of h n
  pub counts : (n c : String) → count n (node_ids s c) ≡ connected h n c

-- What is left when a change of an id that is not available is refused.
refused-Represents :
    (s : ConnectNodeLoadService) (h : List Change) (m : String) (more : ℕ)
    → Represents s h
    → node_of h m ≡ none
    → (n : String) → available s n ≡ (if m == n then more_load more (node_of h n) else node_of h n)
refused-Represents s h m more v gone n =
    v.nodes n
    ∙ if_false (m == n) (λ e.
      let none' : node_of h n ≡ none = ap (node_of h) (sym ((eq_iff m n).0 e)) ∙ gone in
      none' ∙ ap (more_load more) (sym none'))

found-Represents :
    (s : ConnectNodeLoadService) (h : List Change) (m n : String) (r more : ℕ)
    → Represents s h
    → get m s.available_nodes ≡ some r
    → available (set_load s r ((s.objects r).load + more)) n
      ≡ (if m == n then more_load more (node_of h n) else node_of h n)
unfolding available
found-Represents s h m n r more v found =
    set_load-available s m n r ((s.objects r).load + more) v.sound found
    ∙ if_both (m == n)
        (λ e. ap (more_load more) (
          ap (λ o. and_then o (λ r. some (s.objects r))) (sym found)
          ∙ v.nodes m
          ∙ ap (node_of h) ((eq_iff m n).0 e)))
        (λ e. v.nodes n)

module _ (s : ConnectNodeLoadService) (h : List Change) (v : Represents s h) (m d : String) where
  online-Represents :
      (o : Option ℕ)
      → get m s.available_nodes ≡ o
      → Represents (unless_thrown s (and_then o (λ r. some (connect_node s d r)))) (online m d ∷ h)
  unfolding node_of connected available connect_node
  online-Represents none e =
      let gone : node_of h m ≡ none =
        sym (v.nodes m) ∙ ap (λ o. and_then o (λ r. some (s.objects r))) e in
      record {
        sound = v.sound;
        nodes = refused-Represents s h m 1 v gone;
        counts = λ n c. ground (arith, v.counts n c, gone);
      }
  online-Represents (some r) e =
      let there : node_of h m ≡ some (s.objects r) =
        sym (v.nodes m) ∙ ap (λ o. and_then o (λ r. some (s.objects r))) e in
      record {
        sound = set_load-Sound s r ((s.objects r).load + 1) v.sound;
        nodes = λ n. found-Represents s h m n r 1 v e;
        counts = λ n c.
            ground (arith, connect_node-count s d n c r, v.counts n c, (v.sound m r e).1, there);
      }

  offline-Represents :
      (o : Option ℕ)
      → get m s.available_nodes ≡ o
      → Represents
          (unless_thrown s (and_then o (λ r. some (disconnect_node s d r))))
          (offline m d ∷ h)
  unfolding node_of connected available disconnect_node node_ids set_load
  offline-Represents none e =
      let gone : node_of h m ≡ none =
        sym (v.nodes m) ∙ ap (λ o. and_then o (λ r. some (s.objects r))) e in
      record {
        sound = v.sound;
        nodes = refused-Represents s h m (2 ^ 32 - 1) v gone;
        counts = λ n c. ground (arith, v.counts n c, gone);
      }
  offline-Represents (some r) e =
      let there : node_of h m ≡ some (s.objects r) =
        sym (v.nodes m) ∙ ap (λ o. and_then o (λ r. some (s.objects r))) e in
      record {
        sound = set_load-Sound s r ((s.objects r).load + (2 ^ 32 - 1)) v.sound;
        nodes = λ n. found-Represents s h m n r (2 ^ 32 - 1) v e;
        counts = λ n c. ground (
          arith,
          remove_id-count d n c (s.objects r).id s.channel_node_map (get d s.channel_node_map) refl,
          v.counts n c,
          (v.sound m r e).1,
          there,
        );
      }

start-count :
    (s : ConnectNodeLoadService) (h : List Change) (node : ConnectNodeLoad)
    → Represents s h
    → (n c : String) → count n (node_ids (start s node) c) ≡ connected (starts node ∷ h) n c
unfolding start node_ids connected
start-count s h node v n c = v.counts n c

stop-count :
    (s : ConnectNodeLoadService) (h : List Change) (node : ConnectNodeLoad)
    → Represents s h
    → (n c : String) → count n (node_ids (stop s node) c) ≡ connected (stops node ∷ h) n c
unfolding stop node_ids connected
stop-count s h node v n c = v.counts n c

change-Represents :
    (s : ConnectNodeLoadService) (h : List Change) (c : Change)
    → Represents s h
    → Represents (change s c) (c ∷ h)
unfolding change connect disconnect node_of connected
change-Represents s h (starts node) v = record {
  sound = start-Sound s node v.sound;
  nodes =
      λ n. start-available s node n v.sound ∙ if_both (node.id == n) (λ e. refl) (λ e. v.nodes n);
  counts = start-count s h node v;
}
change-Represents s h (stops node) v = record {
  sound = stop-Sound s node v.sound;
  nodes = λ n. stop-available s node n ∙ if_both (node.id == n) (λ e. refl) (λ e. v.nodes n);
  counts = stop-count s h node v;
}
change-Represents s h (online m d) v = online-Represents s h v m d (get m s.available_nodes) refl
change-Represents s h (offline m d) v = offline-Represents s h v m d (get m s.available_nodes) refl

pub after-Represents :
    (objects : ℕ → ConnectNodeLoad) (h : List Change) → Represents (after objects h) h
unfolding after new_service available node_ids get count node_of connected
after-Represents objects [] = record {
  sound = λ n r h. cc;
  nodes = λ n. refl;
  counts = λ n c. refl;
}
after-Represents objects (c ∷ h) =
    change-Represents (after objects h) h c (after-Represents objects h)

-- After any history of changes the service has available just the nodes, with their addresses and
-- loads, and in each channel each id just as often as the history says.
pub after_refines :
    (objects : ℕ → ConnectNodeLoad) (h : List Change) (n c : String)
    → (available (after objects h) n ≡ node_of h n)
      × (count n (node_ids (after objects h) c) ≡ connected h n c)
after_refines objects h n c = let v = after-Represents objects h in (v.nodes n, v.counts n c)
