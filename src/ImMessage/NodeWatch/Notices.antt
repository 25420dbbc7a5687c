-- ===== src/ImMessage/NodeWatch/Notices.antt =====
-- The available nodes after a notice.
use im_single.Base.{
  ℕ, Bool, true, false, if◌then◌else◌, ◌&&◌, not, Option, none, some, and_then, and_then-eq-some,
  Bool-cases, inl, inr, List, [], ◌∷◌, ◌≡◌, sym, ap, ◌∙◌, arith,
}
use im_single.Maps.{String, ◌==◌}
use im_single.ImMessage.NodeLoad.{ConnectNodeLoad, ConnectNodeLoadService, available}
use im_single.ImMessage.NodeLoad.History.{Change, after, node_of, is_present}
use im_single.ImMessage.NodeLoad.Refines.{after-Represents}
use im_single.ImMessage.NodeWatch.{
  ConsulWatchServiceEntity, has, remove_all, find_online, find_offline, get_available_list,
  stop_all, reconcile, resolve_service_notify, handler_service_notify, is_passing, to_node,
}
use im_single.ImMessage.NodeWatch.Lists.{
  or_else, last_of, has-remove_all, last_of-remove_all, last_of-has, stop_all-available,
  stop_all-Sound, start_all-available,
}
use im_single.ImMessage.NodeWatch.Keys.{after-KeyedNodes, has-available}

-- A node that stays keeps its object; a new one is the last of its id in the notice.
settled :
    (old new : Option ConnectNodeLoad) (there named : Bool)
    → there ≡ is_present old
    → is_present new ≡ named
    → or_else (if there then none else new) (if there && not named then none else old)
      ≡ (if named then or_else old new else none)
settled none none there named e f = ground (arith, e, f)
settled none (some new) there named e f = ground (arith, e, f)
settled (some node) none there named e f = ground (arith, e, f)
settled (some node) (some new) there named e f = ground (arith, e, f)

some_inj {ℓ} : {A : Type ℓ} {a b : A} → some a ≡ some b → a ≡ b
some_inj h = cc

-- Whether the notice has a service of this id with a check that is passing.
unfoldable pub named : String → List ConsulWatchServiceEntity → Bool
named n [] = false
named n (entity ∷ entities) =
    let rest = named n entities in if is_passing entity && entity.id == n then true else rest

pub reconcile-available :
    (objects : ℕ → ConnectNodeLoad) (h : List Change) (nodes : List ConnectNodeLoad) (n : String)
    → available (reconcile nodes (after objects h)) n
      ≡ (if has n nodes then or_else (node_of h n) (last_of n nodes) else none)
unfolding reconcile find_online find_offline get_available_list
reconcile-available objects h nodes n =
    let s = after objects h in
    let v = after-Represents objects h in
    let old = get_available_list s in
    let off = remove_all old nodes in
    let on = remove_all nodes old in
    let there : has n old ≡ is_present (available s n) =
      has-available s n (after-KeyedNodes objects h) in
    start_all-available on (stop_all off s) n (stop_all-Sound off s v.sound)
    ∙ (λ i. or_else (last_of-remove_all n nodes old i) (stop_all-available off s n i))
    ∙ ap
        (λ b.
          or_else (if has n old then none else last_of n nodes) (if b then none else available s n))
        (has-remove_all n old nodes)
    ∙ settled (available s n) (last_of n nodes) (has n old) (has n nodes) there
        (last_of-has n nodes)
    ∙ ap (λ o. if has n nodes then or_else o (last_of n nodes) else none) (v.nodes n)

module _ (parse_int : String → Option ℕ) where
  to_node-id :
      (entity : ConsulWatchServiceEntity) {node : ConnectNodeLoad}
      → to_node parse_int entity ≡ some node
      → node.id ≡ entity.id
  unfolding to_node
  to_node-id entity {node} e =
      let node_at : ℕ → ConnectNodeLoad = λ ws_port. record {
        id = entity.id;
        ip = entity.address;
        port = entity.port;
        ws_port = ws_port;
        load = 0;
      } in
      let (text, _, parsed) =
        and_then-eq-some entity.ws_port
          (λ text. and_then (parse_int text) (λ ws_port. some (node_at ws_port))) e in
      let (ws_port, _, made) =
        and_then-eq-some (parse_int text) (λ ws_port. some (node_at ws_port)) parsed in
      ap (λ (x : ConnectNodeLoad). x.id) (some_inj (sym made))

  resolve_service_notify-has :
      (n : String) (entities : List ConsulWatchServiceEntity) (nodes : List ConnectNodeLoad)
      → resolve_service_notify parse_int entities ≡ some nodes
      → has n nodes ≡ named n entities
  unfolding resolve_service_notify has named
  resolve_service_notify-has n [] nodes e = ap (has n) (some_inj (sym e))
  resolve_service_notify-has n (entity ∷ entities) nodes e =
      let rest = resolve_service_notify parse_int entities in
      let with_node = λ (node : ConnectNodeLoad). and_then rest (λ nodes. some (node ∷ nodes)) in
      elim (Bool-cases (is_passing entity)) [
        | inl passing ↦
            let e' =
              sym (
                ap (λ b. if b then and_then (to_node parse_int entity) with_node else rest) passing)
              ∙ e in
            let (node, read, more) = and_then-eq-some (to_node parse_int entity) with_node e' in
            let (others, resolved, made) =
              and_then-eq-some rest (λ nodes. some (node ∷ nodes)) more in
            ap (has n) (some_inj (sym made))
            ∙ ground (
              arith,
              passing,
              ap (λ x. x == n) (to_node-id entity read),
              resolve_service_notify-has n entities others resolved,
            )
        | inr failing ↦
            let e' =
              sym (
                ap (λ b. if b then and_then (to_node parse_int entity) with_node else rest) failing)
              ∙ e in
            ground (arith, failing, resolve_service_notify-has n entities nodes e')
      ]

  -- After a notice whose ports can be read, just the nodes are available that the notice has with a
  -- check that is passing. A node that was available stays as it is, with its load, and a new one is the
  -- last of its id in the notice. The notice follows any history of changes.
  pub handler_service_notify-available :
      (objects : ℕ → ConnectNodeLoad) (h : List Change) (entities : List ConsulWatchServiceEntity)
      {nodes : List ConnectNodeLoad}
      → resolve_service_notify parse_int entities ≡ some nodes
      → (s : ConnectNodeLoadService) × (handler_service_notify parse_int (after objects h) entities
          ≡ some s)
        × ((n : String)
            → available s n
              ≡ (if named n entities then or_else (node_of h n) (last_of n nodes) else none))
  unfolding handler_service_notify
  handler_service_notify-available objects h entities {nodes} e = (
    reconcile nodes (after objects h),
    ap (λ o. and_then o (λ nodes. some (reconcile nodes (after objects h)))) e,
    λ n.
        reconcile-available objects h nodes n
        ∙ ap (λ b. if b then or_else (node_of h n) (last_of n nodes) else none)
            (resolve_service_notify-has n entities nodes e),
  )
