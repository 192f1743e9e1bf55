-- ===== src/RouteTable/Own.antt =====
-- routetable.go: a table that holds the routes of one peer only, such as `receivedRoutes`.
use metalbond.Base.{
  ℕ, ◌≡◌, Bool, true, Comparable, nat_comparable, same, arith, Option-cases, inl, inr, is_some,
  contains, IsDistinct, same_eq,
}
use metalbond.Base.Map.{Map, keys, get}
use metalbond.Base.Map.Nested.{at}
use metalbond.Base.Map.Distinct.{
  Maps, update-Maps, ensure-Maps, prune-Maps, put-IsDistinct, delete-IsDistinct,
}
use metalbond.RouteTable.{
  RouteTable, find, ensure_path, insert_next_hop, delete_next_hop, add_next_hop, remove_next_hop,
  new_route_table, get_nexthops_by_destination,
}
use metalbond.RouteTable.Effects.{
  find-add_next_hop, find-remove_next_hop, remove_next_hop_held, remove_next_hop-missing,
}
use metalbond.RouteTable.Pruned.{IsPruned, add_remove-IsPruned, new_route_table-IsPruned}
use metalbond.RouteTable.Listing.{listed_iff}

-- no key stands twice in any of the maps
abbrev pub PeerMap : {R : Type 0} ⦃cr : Comparable R⦄ → Map R Bool → Type 0
PeerMap peers = IsDistinct (keys peers)

abbrev pub HopMaps :
    {N R : Type 0} ⦃cn : Comparable N⦄ ⦃cr : Comparable R⦄ → Map N (Map R Bool) → Type 0
HopMaps = Maps PeerMap

abbrev pub DestMaps :
    {D N R : Type 0} ⦃cd : Comparable D⦄ ⦃cn : Comparable N⦄ ⦃cr : Comparable R⦄
    → Map D (Map N (Map R Bool))
    → Type 0
DestMaps = Maps HopMaps

module _ {D N R : Type 0} ⦃cd : Comparable D⦄ ⦃cn : Comparable N⦄ ⦃cr : Comparable R⦄ where
  abbrev pub TableMaps : RouteTable D N R → Type 0
  TableMaps = Maps DestMaps

  ensure_path-TableMaps :
      (rt : RouteTable D N R) (vni : ℕ) (dest : D) (nh : N)
      → TableMaps rt
      → TableMaps (ensure_path rt vni dest nh)
  unfolding ensure_path
  ensure_path-TableMaps rt vni dest nh g =
      update-Maps DestMaps _ vni _
        (λ x. update-Maps HopMaps x dest _ (λ y. ensure-Maps PeerMap y nh))
        (update-Maps DestMaps _ vni _ (λ x. ensure-Maps HopMaps x dest)
          (ensure-Maps DestMaps rt vni g))

  insert_next_hop-TableMaps :
      (rt : RouteTable D N R) (vni : ℕ) (dest : D) (nh : N) (from : R)
      → TableMaps rt
      → TableMaps (insert_next_hop rt vni dest nh from)
  unfolding insert_next_hop
  insert_next_hop-TableMaps rt vni dest nh from = update-Maps DestMaps rt vni _ (λ x.
      update-Maps HopMaps x dest _
        (λ y. update-Maps PeerMap y nh _ (λ z. put-IsDistinct z from true)))

  delete_next_hop-TableMaps :
      (rt : RouteTable D N R) (vni : ℕ) (dest : D) (nh : N) (from : R)
      → TableMaps rt
      → TableMaps (delete_next_hop rt vni dest nh from).0
  unfolding delete_next_hop
  delete_next_hop-TableMaps rt vni dest nh from g = prune-Maps DestMaps _ vni (
      update-Maps DestMaps _ vni _ (λ x. prune-Maps HopMaps x dest)
        (update-Maps DestMaps _ vni _
          (λ x. update-Maps HopMaps x dest _ (λ y. prune-Maps PeerMap y nh))
          (update-Maps DestMaps rt vni _
            (λ x.
              update-Maps HopMaps x dest _
                (λ y. update-Maps PeerMap y nh _ (λ z. delete-IsDistinct z from)))
            g)))

  add_next_hop-TableMaps :
      (rt : RouteTable D N R) (vni : ℕ) (dest : D) (nh : N) (from : R)
      → TableMaps rt
      → TableMaps (add_next_hop rt vni dest nh from).0
  unfolding add_next_hop
  add_next_hop-TableMaps rt vni dest nh from g =
      let path = ensure_path rt vni dest nh in
      let h = ensure_path-TableMaps rt vni dest nh g in
      elim (Option-cases (find path vni dest nh from)) [
        | inl e ↦ rw (e, add_next_hop) (insert_next_hop-TableMaps path vni dest nh from h)
        | inr (b, e) ↦ rw (e, add_next_hop) h
      ]

  remove_next_hop-TableMaps :
      (rt : RouteTable D N R) (vni : ℕ) (dest : D) (nh : N) (from : R)
      → TableMaps rt
      → TableMaps (remove_next_hop rt vni dest nh from).0
  remove_next_hop-TableMaps rt vni dest nh from g = elim (Option-cases (find rt vni dest nh from)) [
    | inl e ↦ rw (remove_next_hop-missing rt vni dest nh from e) g
    | inr (b, e) ↦
        rw (remove_next_hop_held rt vni dest nh from e)
          (delete_next_hop-TableMaps rt vni dest nh from g)
  ]

  -- The table is as a Go map can be, nothing in it is empty, and all its routes are of one peer.
  pub record IsOwn (p : R) (rt : RouteTable D N R) : Type 0 where
    pub maps : TableMaps rt
    pub pruned : IsPruned rt
    pub own : (v : ℕ) (d : D) (n : N) (r : R) → is_some (find rt v d n r) ≡ true → same r p ≡ true

  pub new_route_table-IsOwn : (p : R) → IsOwn p (new_route_table {D = D} {N = N} {R = R})
  unfolding new_route_table find at get
  new_route_table-IsOwn p = record {
    maps = record {
      distinct = tt;
      each = λ v. record { distinct = tt; each = λ d. record { distinct = tt; each = λ n. tt } };
    };
    pruned = unfold new_route_table in new_route_table-IsPruned;
    own = λ v d n r e. cc;
  }

  pub add_next_hop-IsOwn :
      (p : R) (rt : RouteTable D N R) (vni : ℕ) (dest : D) (nh : N)
      → IsOwn p rt
      → IsOwn p (add_next_hop rt vni dest nh p).0
  add_next_hop-IsOwn p rt vni dest nh g = record {
    maps = add_next_hop-TableMaps rt vni dest nh p g.maps;
    pruned = (add_remove-IsPruned vni dest nh p g.pruned).0;
    own = λ v d n r e.
        ground (arith, (find-add_next_hop rt vni v dest d nh n p r).1, g.own v d n r, e);
  }

  pub remove_next_hop-IsOwn :
      (p : R) (rt : RouteTable D N R) (vni : ℕ) (dest : D) (nh : N) (from : R)
      → IsOwn p rt
      → IsOwn p (remove_next_hop rt vni dest nh from).0
  remove_next_hop-IsOwn p rt vni dest nh from g = record {
    maps = remove_next_hop-TableMaps rt vni dest nh from g.maps;
    pruned = (add_remove-IsPruned vni dest nh from g.pruned).1;
    own = λ v d n r e.
        ground (arith, (find-remove_next_hop rt vni v dest d nh n from r).1, g.own v d n r, e);
  }

  -- each next hop that is listed is held by the peer
  pub listed-own :
      (p : R) (rt : RouteTable D N R) (vni : ℕ) (dest : D) (nh : N)
      → IsOwn p rt
      → contains (get_nexthops_by_destination rt vni dest) nh ≡ true
      → is_some (find rt vni dest nh p) ≡ true
  listed-own p rt vni dest nh g h =
      let (r, e) = (listed_iff rt vni dest nh g.pruned).0 h in
      let q = same_eq r p (g.own vni dest nh r e) in rw (← q) e
