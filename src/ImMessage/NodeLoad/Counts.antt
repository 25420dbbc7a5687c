-- ===== src/ImMessage/NodeLoad/Counts.antt =====
-- How often an id stands in the list of a channel after `connect` and `disconnect`.
use im_single.Base.{
  ℕ, suc, ◌-◌, if◌then◌else◌, Bool, true, false, Option, none, some, List, ◌≡◌, refl, ap, ◌∙◌,
  arith, ◌&&◌,
}
use im_single.Maps.{
  String, Map, ◌==◌, eq_iff, get, put, get-put, count, snoc, remove_first, count-snoc,
  count-remove_first,
}
use im_single.ImMessage.NodeLoad.{
  ConnectNodeLoadService, set_load, connect_node, node_ids, or_empty, remove_id,
}

count_if :
    (n : String) (b : Bool) (ids : List String) (o : Option (List String))
    → count n (or_empty (if b then some ids else o))
      ≡ (if b then count n ids else count n (or_empty o))
count_if n true ids o = refl
count_if n false ids o = refl

count-put :
    (d n c : String) (ids : List String) (channels : Map (List String))
    → count n (or_empty (get c (put d ids channels)))
      ≡ (if d == c then count n ids else count n (or_empty (get c channels)))
count-put d n c ids channels =
    ap (λ o. count n (or_empty o)) (get-put d c ids channels)
    ∙ count_if n (d == c) ids (get c channels)

-- The same channel under two equal names.
renamed :
    (d n c : String) (channels : Map (List String))
    → (d == c) ≡ true
    → count n (or_empty (get d channels)) ≡ count n (or_empty (get c channels))
renamed d n c channels h = ap (λ k. count n (or_empty (get k channels))) ((eq_iff d c).0 h)

pub connect_node-count :
    (this : ConnectNodeLoadService) (d n c : String) (r : ℕ)
    → count n (node_ids (connect_node this d r) c) ≡ (
        if (this.objects r).id == n && d == c
        then suc (count n (node_ids this c))
        else count n (node_ids this c))
unfolding connect_node node_ids set_load
connect_node-count this d n c r =
    let channels = this.channel_node_map in
    let before = or_empty (get d channels) in
    let id = (this.objects r).id in
    ground (
      arith,
      count-put d n c (snoc before id) channels,
      count-snoc n id before,
      renamed d n c channels,
    )

pub remove_id-count :
    (d n c id : String) (channels : Map (List String)) (o : Option (List String))
    → get d channels ≡ o
    → count n (or_empty (get c (remove_id d o channels id))) ≡ (
        if id == n && d == c
        then count n (or_empty (get c channels)) - 1
        else count n (or_empty (get c channels)))
unfolding remove_id count
remove_id-count d n c id channels none h =
    ground (arith, renamed d n c channels, ap (λ o. count n (or_empty o)) h)
remove_id-count d n c id channels (some ids) h = ground (
  arith,
  count-put d n c (remove_first id ids) channels,
  count-remove_first n id ids,
  renamed d n c channels,
  ap (λ o. count n (or_empty o)) h,
)
