-- ===== src/Bond/Forgotten.antt =====
-- peer.go and metalbond.go: `Unsubscribe` and `cleanup`, and the table of the node against the peers'
-- own tables.
use metalbond.Base.{
  ℕ, ◌≡◌, true, not, ◌&&◌, some, List, [], ◌∷◌, ap, arith, Option-cases, Bool-cases, same_eq, inl,
  inr, Comparable, same, if◌then◌else◌, contains, is_some, nat_comparable,
}
use metalbond.Base.Map.{Map, get}
use metalbond.Types.{Destination, NextHop, Message, destination_comparable, next_hop_comparable}
use metalbond.RouteTable.{find, remove_next_hop, get_destinations_by_vni}
use metalbond.RouteTable.Effects.{find-remove_next_hop}
use metalbond.RouteTable.Own.{IsOwn, remove_next_hop-IsOwn}
use metalbond.RouteTable.Listed.{lists, lists-find}
use metalbond.Bond.{
  PeerId, PeerRef, peer_ref_comparable, Routes, Node, Env, Peer, MetalBond, set_peer,
}
use metalbond.Bond.Send.{peer_unsubscribe, is_incoming, forget_vni, forget_hops, forget_dests}
use metalbond.Bond.Received.{set_route_table}
use metalbond.Bond.Subscriptions.{
  retract_vni, unsubscribe_peers, bond_unsubscribe, set_subscriptions,
}
use metalbond.Bond.Unsubscribed.{find-retract_vni, peer_unsubscribe-bond}
use metalbond.Bond.Sends.{send_message-Sends}
use metalbond.Bond.Routing.{routed}
use metalbond.Bond.Frame.{IsBacked}

module _ {A P : Type 0} ⦃ca : Comparable A⦄ ⦃cp : Comparable P⦄ where
  module _ (from : PeerRef) (vni v : ℕ) (d : Destination P) (h : NextHop A) (r : PeerRef) where
    find-forget_hops :
        (dest : Destination P) (nhs : List (NextHop A)) (rt : Routes A P)
        → is_some (find (forget_hops from vni dest nhs rt) v d h r) ≡ (
            not ((same vni v && same from r) && (same dest d && contains nhs h))
            && is_some (find rt v d h r))
    unfolding contains
    find-forget_hops dest [] rt = ground arith
    find-forget_hops dest (nh ∷ nhs) rt = ground (
      arith,
      find-forget_hops dest nhs (remove_next_hop rt vni dest nh from).0,
      (find-remove_next_hop rt vni v dest d nh h from r).1,
    )

    find-forget_dests :
        (m : Map (Destination P) (List (NextHop A))) (rt : Routes A P)
        → is_some (find (forget_dests from vni m rt) v d h r)
          ≡ (not ((same vni v && same from r) && lists m d h) && is_some (find rt v d h r))
    find-forget_dests [] rt = ground arith
    find-forget_dests ((dest, nhs) ∷ m) rt = ground (
      arith,
      find-forget_dests m (forget_hops from vni dest nhs rt),
      find-forget_hops dest nhs rt,
    )

    pub find-forget_vni :
        (rt : Routes A P)
        → is_some (find (forget_vni from vni rt) v d h r)
          ≡ (not (same vni v && same from r) && is_some (find rt v d h r))
    unfolding forget_vni
    find-forget_vni rt = elim (Bool-cases (same vni v)) [
      | inl e ↦
          let eq = same_eq vni v e in
          ground (
            arith,
            find-forget_dests (get_destinations_by_vni rt vni) rt,
            ap (λ k. is_some (find rt k d h r)) eq,
            lists-find rt vni d h r,
          )
      | inr e ↦ ground (arith, find-forget_dests (get_destinations_by_vni rt vni) rt, e)
    ]

  forget_hops-IsOwn :
      (p from : PeerRef) (vni : ℕ) (dest : Destination P) (nhs : List (NextHop A)) (rt : Routes A P)
      → IsOwn p rt
      → IsOwn p (forget_hops from vni dest nhs rt)
  forget_hops-IsOwn p from vni dest [] rt g = g
  forget_hops-IsOwn p from vni dest (nh ∷ nhs) rt g =
      forget_hops-IsOwn p from vni dest nhs _ (remove_next_hop-IsOwn p rt vni dest nh from g)

  forget_dests-IsOwn :
      (p from : PeerRef) (vni : ℕ) (m : Map (Destination P) (List (NextHop A))) (rt : Routes A P)
      → IsOwn p rt
      → IsOwn p (forget_dests from vni m rt)
  forget_dests-IsOwn p from vni [] rt g = g
  forget_dests-IsOwn p from vni ((dest, nhs) ∷ m) rt g =
      forget_dests-IsOwn p from vni m _ (forget_hops-IsOwn p from vni dest nhs rt g)

  pub forget_vni-IsOwn :
      (p from : PeerRef) (vni : ℕ) (rt : Routes A P) → IsOwn p rt → IsOwn p (forget_vni from vni rt)
  unfolding forget_vni
  forget_vni-IsOwn p from vni rt = forget_dests-IsOwn p from vni (get_destinations_by_vni rt vni) rt

module _ {A P S : Type 0} ⦃ca : Comparable A⦄ ⦃cp : Comparable P⦄ (env : Env A P S) where
  -- the peer's table after its `Unsubscribe`
  received-peer_unsubscribe :
      (p : PeerId) (vni : ℕ) (n : Node A P S) (q : PeerId)
      → ((peer_unsubscribe env p vni n).0.peer q).received_routes ≡ (
          if same p q && not (is_incoming (n.peer p).direction)
          then forget_vni (some p) vni (n.peer p).received_routes
          else (n.peer q).received_routes)
  unfolding peer_unsubscribe set_peer
  received-peer_unsubscribe p vni n q =
      let m =
        set_peer p
          (record (n.peer p) {
            received_routes = forget_vni (some p) vni (n.peer p).received_routes;
          })
          n in
      let kept =
        ap (λ (x : Peer A P). x.received_routes)
          ((send_message-Sends env p (Message.unsubscribe vni) m).peer q) in
      ground (arith, kept)

  -- one round of the loop of `Unsubscribe`
  abbrev cleared : PeerId → ℕ → Node A P S → Node A P S
  cleared p vni n =
      let n' = (peer_unsubscribe env p vni n).0 in
      set_route_table (retract_vni p vni n'.bond.route_table) n'

  routed-cleared :
      (p : PeerId) (vni v : ℕ) (d : Destination P) (h : NextHop A) (q : PeerId) (n : Node A P S)
      → routed (cleared p vni n) v d h q ≡ (not (same vni v && same p q) && routed n v d h q)
  unfolding set_route_table
  routed-cleared p vni v d h q n =
      let left = (peer_unsubscribe env p vni n).0 in
      let routes : routed left v d h q ≡ routed n v d h q =
        ap (λ (b : MetalBond A P). is_some (find b.route_table v d h (some q)))
          (peer_unsubscribe-bond env p vni n).0 in
      ground (arith, find-retract_vni p vni v d h (some q) left.bond.route_table, routes)

  -- what is routed still was routed, and not for the peer and the VNI
  still_routed :
      (p : PeerId) (vni v : ℕ) (d : Destination P) (h : NextHop A) (q : PeerId) (n : Node A P S)
      → routed (cleared p vni n) v d h q ≡ true
      → (not (same vni v && same p q) && routed n v d h q) ≡ true
  still_routed p vni v d h q n e = ground (arith, routed-cleared p vni v d h q n, e)

  cleared-IsBacked :
      (p : PeerId) (vni : ℕ) (n : Node A P S) → IsBacked n → IsBacked (cleared p vni n)
  unfolding set_route_table
  cleared-IsBacked p vni n b = record {
    backed = λ v d h q e.
        let kept =
          ap (λ (rt : Routes A P). is_some (find rt v d h (some q)))
            (received-peer_unsubscribe p vni n q) in
        ground (
          arith,
          kept,
          find-forget_vni (some p) vni v d h (some q) (n.peer p).received_routes,
          b.backed v d h q,
          still_routed p vni v d h q n e,
        );
    own = λ q.
        rw (received-peer_unsubscribe p vni n q)
          (elim (Bool-cases (same p q && not (is_incoming (n.peer p).direction))) [
            | inl e ↦
                let eq : p ≡ q = same_eq p q (ground (arith, e)) in
                let at_p : IsOwn (some q) (n.peer p).received_routes = rw (← eq) (b.own p) in
                rw e (forget_vni-IsOwn (some q) (some p) vni (n.peer p).received_routes at_p)
            | inr e ↦ rw e (b.own q)
          ]);
  }

  pub unsubscribe_peers-IsBacked :
      (vni : ℕ) (m : Map ℕ PeerId) (n : Node A P S)
      → IsBacked n
      → IsBacked (unsubscribe_peers env vni m n)
  unfolding unsubscribe_peers
  unsubscribe_peers-IsBacked vni [] n b = b
  unsubscribe_peers-IsBacked vni ((addr, p) ∷ m) n b =
      unsubscribe_peers-IsBacked vni m (cleared p vni n) (cleared-IsBacked p vni n b)

  pub bond_unsubscribe-IsBacked :
      (vni : ℕ) (n : Node A P S) → IsBacked n → IsBacked (bond_unsubscribe env vni n).0
  unfolding bond_unsubscribe set_subscriptions
  bond_unsubscribe-IsBacked vni n b = elim (Option-cases (get n.bond.my_subscriptions vni)) [
    | inl e ↦ rw (e, bond_unsubscribe) b
    | inr (x, e) ↦
        let left = unsubscribe_peers-IsBacked vni n.bond.peers n b in
        rw (e, bond_unsubscribe)
          (record { backed = λ v d h q k. left.backed v d h q k; own = left.own })
  ]
