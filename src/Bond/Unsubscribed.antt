-- ===== src/Bond/Unsubscribed.antt =====
-- metalbond.go: what `Subscribe` and `Unsubscribe` do to the node's subscriptions and routes.
use metalbond.Base.{
  Bool-cases, same_eq, ℕ, ◌≡◌, Bool, true, not, ◌&&◌, ◌||◌, some, List, [], ◌∷◌, ◌∙◌, ap, refl,
  arith, inl, inr, Comparable, same, contains, is_some, nat_comparable,
}
use metalbond.Base.Map.{Map, put, get-put, get-delete}
use metalbond.Types.{Destination, NextHop, Message, destination_comparable, next_hop_comparable}
use metalbond.RouteTable.{find, next_hop_exists, remove_next_hop, get_destinations_by_vni}
use metalbond.RouteTable.Effects.{find-remove_next_hop}
use metalbond.RouteTable.Listing.{next_hop_exists-listed}
use metalbond.RouteTable.Listed.{lists, lists-find}
use metalbond.Bond.{
  PeerId, PeerRef, peer_ref_comparable, Routes, Node, Env, MetalBond, set_peer,
  vni_already_subscribed,
}
use metalbond.Bond.Send.{peer_subscribe, peer_unsubscribe, forget_vni}
use metalbond.Bond.Received.{set_route_table}
use metalbond.Bond.Subscriptions.{
  retract_hops, retract_dests, retract_vni, unsubscribe_peers, bond_unsubscribe, bond_subscribe,
  set_subscriptions, subscribe_peers, is_subscribed,
}
use metalbond.Bond.Sends.{
  Sends, Sends-refl, send_message-Sends, peer_subscribe-Sends, stop_or_go-Sends,
}
use metalbond.Bond.Routing.{routed}

module _ {A P : Type 0} ⦃ca : Comparable A⦄ ⦃cp : Comparable P⦄ (p : PeerId) (vni v : ℕ)
    (d : Destination P) (h : NextHop A) (r : PeerRef) where
  -- the route is one of this VNI and peer
  abbrev aimed : Bool
  aimed = same vni v && same (some p) r

  find-retract_hops :
      (dest : Destination P) (nhs : List (NextHop A)) (rt : Routes A P)
      → is_some (find (retract_hops p vni dest nhs rt) v d h r)
        ≡ (not (aimed && (same dest d && contains nhs h)) && is_some (find rt v d h r))
  unfolding retract_hops contains
  find-retract_hops dest [] rt = ground arith
  find-retract_hops dest (nh ∷ nhs) rt =
      let asked = next_hop_exists-listed rt vni v dest d nh h (some p) r in
      let asked_self = next_hop_exists-listed rt vni vni dest dest nh nh (some p) (some p) in
      let rt' = (next_hop_exists rt vni dest nh (some p)).0 in
      let gone = find-remove_next_hop rt' vni v dest d nh h (some p) r in
      ground (
        arith,
        find-retract_hops dest nhs rt',
        find-retract_hops dest nhs (remove_next_hop rt' vni dest nh (some p)).0,
        asked.0,
        asked.1,
        gone.1,
      )

  find-retract_dests :
      (m : Map (Destination P) (List (NextHop A))) (rt : Routes A P)
      → is_some (find (retract_dests p vni m rt) v d h r)
        ≡ (not (aimed && lists m d h) && is_some (find rt v d h r))
  unfolding retract_dests
  find-retract_dests [] rt = ground arith
  find-retract_dests ((dest, nhs) ∷ m) rt =
      ground (
        arith,
        find-retract_dests m (retract_hops p vni dest nhs rt),
        find-retract_hops dest nhs rt,
      )

  pub find-retract_vni :
      (rt : Routes A P)
      → is_some (find (retract_vni p vni rt) v d h r)
        ≡ (not (same vni v && same (some p) r) && is_some (find rt v d h r))
  unfolding retract_vni
  find-retract_vni rt = elim (Bool-cases (same vni v)) [
    | inl e ↦
        let eq = same_eq vni v e in
        ground (
          arith,
          find-retract_dests (get_destinations_by_vni rt vni) rt,
          ap (λ k. is_some (find rt k d h r)) eq,
          lists-find rt vni d h r,
        )
    | inr e ↦ ground (arith, find-retract_dests (get_destinations_by_vni rt vni) rt, e)
  ]

abbrev pub values : Map ℕ PeerId → List PeerId
values [] = []
values ((addr, p) ∷ m) = let rest = values m in p ∷ rest

module _ {A P S : Type 0} ⦃ca : Comparable A⦄ ⦃cp : Comparable P⦄ (env : Env A P S) where
  pub peer_unsubscribe-bond :
      (p : PeerId) (vni : ℕ) (n : Node A P S)
      → ((peer_unsubscribe env p vni n).0.bond ≡ n.bond)
        × ((peer_unsubscribe env p vni n).0.client ≡ n.client)
  unfolding peer_unsubscribe set_peer
  peer_unsubscribe-bond p vni n =
      let m =
        set_peer p
          (record (n.peer p) {
            received_routes = forget_vni (some p) vni (n.peer p).received_routes;
          })
          n in
      let s = send_message-Sends env p (Message.unsubscribe vni) m in
      (ground (arith, s.bond), ground (arith, s.client))

  routed-unsubscribe_peers :
      (vni : ℕ) (m : Map ℕ PeerId) (n : Node A P S) (v : ℕ) (d : Destination P) (h : NextHop A)
      (q : PeerId)
      → routed (unsubscribe_peers env vni m n) v d h q
        ≡ (not (same vni v && contains (values m) q) && routed n v d h q)
  unfolding unsubscribe_peers contains set_route_table
  routed-unsubscribe_peers vni [] n v d h q = ground arith
  routed-unsubscribe_peers vni ((addr, p) ∷ m) n v d h q =
      let left = (peer_unsubscribe env p vni n).0 in
      let cleared = set_route_table (retract_vni p vni left.bond.route_table) left in
      let routes : routed left v d h q ≡ routed n v d h q =
        ap (λ (b : MetalBond A P). is_some (find b.route_table v d h (some q)))
          (peer_unsubscribe-bond p vni n).0 in
      ground (
        arith,
        routed-unsubscribe_peers vni m cleared v d h q,
        find-retract_vni p vni v d h (some q) left.bond.route_table,
        routes,
      )

  unsubscribe_peers-rest :
      (vni : ℕ) (m : Map ℕ PeerId) (n : Node A P S)
      → ((unsubscribe_peers env vni m n).client ≡ n.client)
        × ((unsubscribe_peers env vni m n).bond.my_subscriptions ≡ n.bond.my_subscriptions)
  unfolding unsubscribe_peers set_route_table
  unsubscribe_peers-rest vni [] n = (refl, refl)
  unsubscribe_peers-rest vni ((addr, p) ∷ m) n =
      let left = (peer_unsubscribe env p vni n).0 in
      let before = peer_unsubscribe-bond p vni n in
      let rest =
        unsubscribe_peers-rest vni m
          (set_route_table (retract_vni p vni left.bond.route_table) left) in
      (rest.0 ∙ before.1, rest.1 ∙ ap (λ (b : MetalBond A P). b.my_subscriptions) before.0)

  pub is_subscribed-bond_unsubscribe :
      (vni v : ℕ) (n : Node A P S)
      → is_subscribed v (bond_unsubscribe env vni n).0 ≡ (not (same vni v) && is_subscribed v n)
  unfolding bond_unsubscribe is_subscribed set_subscriptions
  is_subscribed-bond_unsubscribe vni v n =
      let m = unsubscribe_peers env vni n.bond.peers n in
      ground (
        arith,
        (unsubscribe_peers-rest vni n.bond.peers n).1,
        get-delete m.bond.my_subscriptions vni v,
        get-delete n.bond.my_subscriptions vni v,
      )

  -- `Unsubscribe` from a VNI that the node subscribed to takes away exactly the routes of this VNI that
  -- came from the peers of the node, and this subscription; from another VNI it changes no route and
  -- no subscription. In both cases the client is told nothing.
  pub bond_unsubscribe_lem :
      (vni v : ℕ) (d : Destination P) (h : NextHop A) (q : PeerId) (n : Node A P S)
      → (routed (bond_unsubscribe env vni n).0 v d h q ≡ (
          not (is_subscribed vni n && (same vni v && contains (values n.bond.peers) q))
          && routed n v d h q))
        × ((bond_unsubscribe env vni n).0.client ≡ n.client)
        × (is_subscribed v (bond_unsubscribe env vni n).0 ≡ (not (same vni v) && is_subscribed v n))
  unfolding bond_unsubscribe is_subscribed set_subscriptions
  bond_unsubscribe_lem vni v d h q n = (
    ground (arith, routed-unsubscribe_peers vni n.bond.peers n v d h q),
    ground (arith, (unsubscribe_peers-rest vni n.bond.peers n).0),
    unfold bond_unsubscribe is_subscribed set_subscriptions in
        is_subscribed-bond_unsubscribe vni v n,
  )

  pub subscribe_peers-Sends :
      (vni : ℕ) (m : Map ℕ PeerId) (n : Node A P S) → Sends n (subscribe_peers env vni m n).0
  unfolding subscribe_peers
  subscribe_peers-Sends vni [] n = Sends-refl n
  subscribe_peers-Sends vni ((addr, p) ∷ m) n =
      let (n', e) = peer_subscribe env p vni n in
      stop_or_go-Sends env n n' e (subscribe_peers env vni m n') (peer_subscribe-Sends env p vni n)
        (subscribe_peers-Sends vni m n')

  -- `Subscribe` leaves the node subscribed to the VNI, also where it returns the error of a peer, and
  -- changes no other subscription; a second call always fails.
  pub bond_subscribe_lem :
      (vni v : ℕ) (n : Node A P S)
      → (is_subscribed v (bond_subscribe env vni n).0 ≡ (same vni v || is_subscribed v n))
        × ((bond_subscribe env vni (bond_subscribe env vni n).0).1 ≡ some vni_already_subscribed)
  unfolding bond_subscribe is_subscribed set_subscriptions
  bond_subscribe_lem vni v n =
      let m = set_subscriptions (put n.bond.my_subscriptions vni true) n in
      let kept =
        ap (λ (b : MetalBond A P). b.my_subscriptions)
          (subscribe_peers-Sends vni n.bond.peers m).bond in
      (
        ground (arith, kept, get-put n.bond.my_subscriptions vni v true),
        ground (arith, kept, get-put n.bond.my_subscriptions vni vni true),
      )
