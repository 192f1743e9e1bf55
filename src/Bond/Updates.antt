-- ===== src/Bond/Updates.antt =====
-- peer.go: `processRxUpdate`, and the table of the node against the peers' own tables.
use metalbond.Base.{
  true, same_refl, ℕ, ◌≡◌, some, inl, inr, Comparable, arith, refl, is_some, nat_comparable,
  Option-cases, ◌&&◌, ◌||◌, not, ap,
}
use metalbond.Types.{
  Destination, NextHop, destination_comparable, next_hop_comparable, MsgUpdate, add, remove,
  other_action, state_comparable, UpdateAction,
}
use metalbond.RouteTable.{find, add_next_hop, remove_next_hop}
use metalbond.RouteTable.Effects.{
  remove_next_hop-refused, same_route, find-add_next_hop, find-remove_next_hop,
}
use metalbond.Bond.{PeerId, peer_ref_comparable, Node, Env, Peer, set_peer}
use metalbond.Bond.Received.{
  add_received_route, remove_received_route, spread_route, client_add, set_route_table,
  client_remove, retract_route,
}
use metalbond.Bond.Session.{process_rx_update, receive_add, receive_remove}
use metalbond.Bond.Sends.{quiet, distribute-Sends}
use metalbond.Bond.Routing.{routed, add_received_route_lem, remove_received_route_lem}
use metalbond.RouteTable.Own.{IsOwn, add_next_hop-IsOwn, remove_next_hop-IsOwn}
use metalbond.Bond.Frame.{holds, IsBacked, set_peer-IsOwn}
use metalbond.Bond.Calls.{set_peer-Frame}

module _ {A P S : Type 0} ⦃ca : Comparable A⦄ ⦃cp : Comparable P⦄ (env : Env A P S) where
  -- what `addReceivedRoute` does to the peers: it only sends
  add_received_route-peer :
      (p : PeerId) (vni : ℕ) (dest : Destination P) (hop : NextHop A) (n : Node A P S) (q : PeerId)
      → quiet ((add_received_route env p vni dest hop n).0.peer q) ≡ quiet (n.peer q)
  unfolding add_received_route spread_route client_add set_route_table
  add_received_route-peer p vni dest hop n q =
      let m = set_route_table (add_next_hop n.bond.route_table vni dest hop (some p)).0 n in
      ground (arith, (distribute-Sends env add vni dest hop (some p) m).peer q)

  remove_received_route-peer :
      (p : PeerId) (vni : ℕ) (dest : Destination P) (hop : NextHop A) (n : Node A P S) (q : PeerId)
      → quiet ((remove_received_route env p vni dest hop n).0.peer q) ≡ quiet (n.peer q)
  unfolding remove_received_route retract_route client_remove set_route_table
  remove_received_route-peer p vni dest hop n q =
      let m = set_route_table (remove_next_hop n.bond.route_table vni dest hop (some p)).0 n in
      ground (arith, (distribute-Sends env remove vni dest hop (some p) m).peer q)

  -- `addReceivedRoute`, called for a route that the peer's own table holds
  pub add_received_route-IsBacked :
      (p : PeerId) (vni : ℕ) (dest : Destination P) (hop : NextHop A) (n : Node A P S)
      → holds n vni dest hop p ≡ true
      → IsBacked n
      → IsBacked (add_received_route env p vni dest hop n).0
  add_received_route-IsBacked p vni dest hop n held b = record {
    backed = λ v d h q e.
        let kept =
          ap (λ (x : Peer A P). is_some (find x.received_routes v d h (some q)))
            (add_received_route-peer p vni dest hop n q) in
        ground (
          arith,
          kept,
          (add_received_route_lem env p vni dest hop n v d h q).0,
          held,
          b.backed v d h q,
          e,
        );
    own = λ q.
        let kept =
          ap (λ (x : Peer A P). x.received_routes) (add_received_route-peer p vni dest hop n q) in
        rw kept (b.own q);
  }

  -- the first half of each branch of `processRxUpdate`: the peer's own table
  abbrev pub own_added : PeerId → MsgUpdate A P → Node A P S → Node A P S
  own_added p msg n =
      set_peer p
        (record (n.peer p) {
          received_routes =
              (add_next_hop (n.peer p).received_routes msg.vni msg.destination msg.next_hop
                (some p)).0;
        })
        n

  abbrev own_removed : PeerId → MsgUpdate A P → Node A P S → Node A P S
  own_removed p msg n =
      set_peer p
        (record (n.peer p) {
          received_routes =
              (remove_next_hop (n.peer p).received_routes msg.vni msg.destination msg.next_hop
                (some p)).0;
        })
        n

  module _ (p : PeerId) (msg : MsgUpdate A P) (n : Node A P S) (v : ℕ) (d : Destination P)
      (h : NextHop A) (q : PeerId) where
    holds-own_added : holds (own_added p msg n) v d h q ≡ (
        same_route msg.vni msg.destination msg.next_hop (some p) v d h (some q) || holds n v d h q)
    unfolding set_peer
    holds-own_added =
        let more =
          find-add_next_hop (n.peer p).received_routes msg.vni v msg.destination d msg.next_hop h
            (some p) (some q) in
        ground (arith, more.1)

    holds-own_removed : holds (own_removed p msg n) v d h q ≡ (
        not (same_route msg.vni msg.destination msg.next_hop (some p) v d h (some q))
        && holds n v d h q)
    unfolding set_peer
    holds-own_removed =
        let less =
          find-remove_next_hop (n.peer p).received_routes msg.vni v msg.destination d msg.next_hop h
            (some p) (some q) in
        ground (arith, less.1)

    routed-own_added : routed (own_added p msg n) v d h q ≡ routed n v d h q
    unfolding set_peer
    routed-own_added = refl

    routed-own_removed : routed (own_removed p msg n) v d h q ≡ routed n v d h q
    unfolding set_peer
    routed-own_removed = refl

  module _ (p : PeerId) (msg : MsgUpdate A P) (n : Node A P S) (b : IsBacked n) where
    pub own_added-IsBacked : IsBacked (own_added p msg n)
    own_added-IsBacked = record {
      backed = λ v d h q e. ground (
        arith,
        holds-own_added p msg n v d h q,
        routed-own_added p msg n v d h q,
        b.backed v d h q,
        e,
      );
      own =
          set_peer-IsOwn p _ n
            (add_next_hop-IsOwn (some p) (n.peer p).received_routes msg.vni msg.destination
              msg.next_hop (b.own p))
            b.own;
    }

    spread-IsBacked :
        IsBacked
          (add_received_route env p msg.vni msg.destination msg.next_hop (own_added p msg n)).0
    spread-IsBacked =
        add_received_route-IsBacked p msg.vni msg.destination msg.next_hop (own_added p msg n)
          (ground (
            arith,
            holds-own_added p msg n msg.vni msg.destination msg.next_hop p,
            same_refl msg.vni,
            same_refl msg.destination,
            same_refl msg.next_hop,
            same_refl (some p),
          ))
          own_added-IsBacked

    add-IsBacked : IsBacked (receive_add env p msg n)
    unfolding receive_add
    add-IsBacked =
        elim (Option-cases
          (add_next_hop (n.peer p).received_routes msg.vni msg.destination msg.next_hop
            (some p)).1) [
              | inl e ↦ rw (e, receive_add) spread-IsBacked
              | inr (x, e) ↦ rw (e, receive_add) own_added-IsBacked
            ]

    own_removed-IsOwn : (q : PeerId) → IsOwn (some q) ((own_removed p msg n).peer q).received_routes
    own_removed-IsOwn =
        set_peer-IsOwn p _ n
          (remove_next_hop-IsOwn (some p) (n.peer p).received_routes msg.vni msg.destination
            msg.next_hop (some p) (b.own p))
          b.own

    retract-IsBacked :
        IsBacked
          (remove_received_route env p msg.vni msg.destination msg.next_hop (own_removed p msg n)).0
    retract-IsBacked = record {
      backed = λ v d h q e.
          let m = own_removed p msg n in
          let same_peer = remove_received_route-peer p msg.vni msg.destination msg.next_hop m q in
          let kept =
            ap (λ (x : Peer A P). is_some (find x.received_routes v d h (some q))) same_peer in
          ground (
            arith,
            kept,
            (remove_received_route_lem env p msg.vni msg.destination msg.next_hop m v d h q).0,
            holds-own_removed p msg n v d h q,
            routed-own_removed p msg n v d h q,
            b.backed v d h q,
            e,
          );
      own = λ q.
          let same_peer =
            remove_received_route-peer p msg.vni msg.destination msg.next_hop (own_removed p msg n)
              q in
          let kept = ap (λ (x : Peer A P). x.received_routes) same_peer in
          rw kept (own_removed-IsOwn q);
    }

    remove-IsBacked : IsBacked (receive_remove env p msg n)
    unfolding receive_remove
    remove-IsBacked =
        elim (Option-cases
          (remove_next_hop (n.peer p).received_routes msg.vni msg.destination msg.next_hop
            (some p)).1.1) [
              | inl e ↦ rw (e, receive_remove) retract-IsBacked
              | inr (x, e) ↦
                  rw (e, receive_remove)
                    ((set_peer-Frame {view = λ y. n.peer p} p _ n refl (
                        remove_next_hop-refused (n.peer p).received_routes msg.vni msg.destination
                          msg.next_hop (some p) e)).backed
                      b)
            ]

  pub update-IsBacked :
      (p : PeerId) (msg : MsgUpdate A P) (a : UpdateAction) (n : Node A P S)
      → msg.action ≡ a
      → IsBacked n
      → IsBacked (process_rx_update env p msg n)
  unfolding process_rx_update receive_add receive_remove
  update-IsBacked p msg add n e b = rw e (add-IsBacked p msg n b)
  update-IsBacked p msg remove n e b = rw e (remove-IsBacked p msg n b)
  update-IsBacked p msg (other_action k) n e b = rw e b
