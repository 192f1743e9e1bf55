-- ===== src/Bond/Routing.antt =====
-- metalbond.go: what a route that is received or taken back does to the route table, to the client
-- and to the peers.
use metalbond.Base.{
  ℕ, ◌≡◌, Bool, true, false, not, ◌&&◌, ◌||◌, none, some, Option-cases, Bool-cases, inl, inr,
  Comparable, same, if◌then◌else◌, arith, refl, length, ltb, contains, is_some, nat_comparable,
  ◌==◌, List, [], ◌∷◌,
}
use metalbond.Types.{
  Destination, NextHop, destination_comparable, next_hop_comparable, standard, add, remove,
}
use metalbond.RouteTable.{find, add_next_hop, remove_next_hop}
use metalbond.RouteTable.Effects.{
  find-add_next_hop, find-remove_next_hop, same_route, remove_next_hop_left,
}
use metalbond.RouteTable.Listing.{next_hop_exists-listed}
use metalbond.Bond.{PeerId, peer_ref_comparable, Node, Env}
use metalbond.Bond.Received.{
  is_standard, announces, add_received_route, remove_received_route, spread_route, retract_route,
  client_add, client_remove, set_route_table,
}
use metalbond.Bond.Announce.{is_route_announced, set_announcements}
use metalbond.Bond.Sends.{distribute-Sends}

contains-length :
    {A : Type 0} ⦃c : Comparable A⦄ (xs : List A) (x : A)
    → contains xs x ≡ true
    → ltb 0 (length xs) ≡ true
unfolding contains
contains-length [] x h = ground arith
contains-length (y ∷ xs) x h = ground arith

module _ {A P S : Type 0} ⦃ca : Comparable A⦄ ⦃cp : Comparable P⦄ where
  -- the route that came from the peer stands in the table of the node
  abbrev pub routed : Node A P S → ℕ → Destination P → NextHop A → PeerId → Bool
  routed n vni dest hop p = is_some (find n.bond.route_table vni dest hop (some p))

module _ {A P S : Type 0} ⦃ca : Comparable A⦄ ⦃cp : Comparable P⦄ (env : Env A P S) (from : PeerId)
    (vni : ℕ) (dest : Destination P) (hop : NextHop A) (n : Node A P S) where
  -- the node takes the route up
  abbrev pub takes : Bool
  takes =
      not (is_standard hop.hop_type && announces env n vni dest) && not (routed n vni dest hop from)

  spread_route-bond : (m : Node A P S) → (spread_route env from vni dest hop m).bond ≡ m.bond
  unfolding spread_route client_add
  spread_route-bond m = (distribute-Sends env add vni dest hop (some from) m).bond

  spread_route-client :
      (m : Node A P S)
      → (spread_route env from vni dest hop m).client
        ≡ (env.client.add_route vni dest hop m.client).0
  unfolding spread_route client_add
  spread_route-client m = rw ((distribute-Sends env add vni dest hop (some from) m).client)

  -- A route that comes in is dropped if it is a STANDARD one to a destination that the node
  -- announces, and refused if the peer's route stands in the table; else it is added for this peer,
  -- no other route changes, and the client is told of it once.
  pub add_received_route_lem :
      (v : ℕ) (d : Destination P) (h : NextHop A) (q : PeerId)
      → (routed (add_received_route env from vni dest hop n).0 v d h q
          ≡ ((takes && same_route vni dest hop (some from) v d h (some q)) || routed n v d h q))
        × ((add_received_route env from vni dest hop n).0.client
            ≡ (if takes then (env.client.add_route vni dest hop n.client).0 else n.client))
  unfolding add_received_route set_route_table
  add_received_route_lem v d h q =
      let held = find-add_next_hop n.bond.route_table vni v dest d hop h (some from) (some q) in
      let m = set_route_table (add_next_hop n.bond.route_table vni dest hop (some from)).0 n in
      (
        ground (arith, held.0, held.1, spread_route-bond m),
        ground (arith, held.0, held.1, spread_route-client m),
      )

  retract_route-bond :
      (k : ℕ) (m : Node A P S) → (retract_route env from vni dest hop k m).bond ≡ m.bond
  unfolding retract_route client_remove
  retract_route-bond k m =
      ground (arith, (distribute-Sends env remove vni dest hop (some from) m).bond)

  retract_route-client :
      (k : ℕ) (m : Node A P S)
      → (retract_route env from vni dest hop k m).client
        ≡ (env.client.remove_route vni dest hop m.client).0
  unfolding retract_route client_remove
  retract_route-client k m =
      ground (arith, (distribute-Sends env remove vni dest hop (some from) m).client)

  -- A route that is taken back leaves the table for this peer, and no other route changes. If it
  -- stood there for this peer, the client is told to remove it, whoever else holds it.
  pub remove_received_route_lem :
      (v : ℕ) (d : Destination P) (h : NextHop A) (q : PeerId)
      → (routed (remove_received_route env from vni dest hop n).0 v d h q
          ≡ (not (same_route vni dest hop (some from) v d h (some q)) && routed n v d h q))
        × ((remove_received_route env from vni dest hop n).0.client ≡ (
            if routed n vni dest hop from
            then (env.client.remove_route vni dest hop n.client).0
            else n.client))
  unfolding remove_received_route set_route_table
  remove_received_route_lem v d h q =
      let gone = find-remove_next_hop n.bond.route_table vni v dest d hop h (some from) (some q) in
      let (rt, (remaining, e)) = remove_next_hop n.bond.route_table vni dest hop (some from) in
      let m = set_route_table rt n in
      (
        ground (arith, gone.0, gone.1, retract_route-bond remaining m),
        ground (arith, gone.0, gone.1, retract_route-client remaining m),
      )

  remaining-ne :
      (q : PeerId)
      → same from q ≡ false
      → routed n vni dest hop from ≡ true
      → routed n vni dest hop q ≡ true
      → ((remove_next_hop n.bond.route_table vni dest hop (some from)).1.0 == 0) ≡ false
  remaining-ne q ne h k = elim (Option-cases (find n.bond.route_table vni dest hop (some from))) [
    | inl e ↦ absurd (ground (arith, h))
    | inr (b, e) ↦
        let gone =
          find-remove_next_hop n.bond.route_table vni vni dest dest hop hop (some from) (some q) in
        let last = remove_next_hop_left n.bond.route_table vni dest hop (some from) e in
        elim (Bool-cases ((remove_next_hop n.bond.route_table vni dest hop (some from)).1.0 == 0)) [
          | inl z ↦ absurd (ground (arith, gone.1, ne, k, last.0 (ground (arith, z)) (some q)))
          | inr z ↦ z
        ]
  ]

  -- If two peers hold a route and one of them takes it back, no peer is sent anything, and the route
  -- of the other stays in the table; but the client is told to remove it.
  pub remove_received_route-shared :
      (q : PeerId)
      → same from q ≡ false
      → routed n vni dest hop from ≡ true
      → routed n vni dest hop q ≡ true
      → ((remove_received_route env from vni dest hop n).0.peer ≡ n.peer)
        × (routed (remove_received_route env from vni dest hop n).0 vni dest hop q ≡ true)
        × ((remove_received_route env from vni dest hop n).0.client
            ≡ (env.client.remove_route vni dest hop n.client).0)
  unfolding remove_received_route retract_route client_remove set_route_table
  remove_received_route-shared q ne h k =
      let lem = remove_received_route_lem vni dest hop q in
      let gone =
        find-remove_next_hop n.bond.route_table vni vni dest dest hop hop (some from) (some q) in
      (
        ground (arith, gone.0, remaining-ne q ne h k, h),
        ground (arith, lem.0, ne, k),
        ground (arith, lem.1, h),
      )

  -- After `IsRouteAnnounced` was asked about any next hop, whatever it answered, a STANDARD route to
  -- the same destination changes nothing: the node takes itself for one that announces it.
  pub add_received_route-is_route_announced :
      (other : NextHop A)
      → hop.hop_type ≡ standard
      → add_received_route env from vni dest hop (is_route_announced vni dest other n).0
        ≡ ((is_route_announced vni dest other n).0, none)
  unfolding add_received_route is_route_announced set_announcements
  add_received_route-is_route_announced other e =
      let asked =
        next_hop_exists-listed n.bond.my_announcements vni vni dest dest other other none none in
      rw (e, contains-length _ other asked.2) refl
