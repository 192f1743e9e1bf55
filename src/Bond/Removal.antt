-- ===== src/Bond/Removal.antt =====
-- metalbond.go: what `removeSubscriber` leaves alone.
use metalbond.Base.{
  ℕ, ◌≡◌, false, not, ◌&&◌, some, List, [], ◌∷◌, ◌∙◌, ap, inl, inr, Comparable, same, arith, refl,
  is_some, nat_comparable, Option-cases,
}
use metalbond.Base.Map.{Map, get, delete, get-delete}
use metalbond.Base.Map.Nested.{at, when, at-update}
use metalbond.Types.{Destination, NextHop, destination_comparable, next_hop_comparable, remove}
use metalbond.RouteTable.{find, remove_next_hop, get_destinations_by_vni}
use metalbond.RouteTable.Effects.{find-remove_next_hop, same_route}
use metalbond.Bond.{PeerId, peer_ref_comparable, Node, Env, Peer, set_peer, MetalBond}
use metalbond.Bond.Received.{
  remove_received_route, retract_route, client_remove, set_route_table, drop_route, drop_hops,
  drop_dests, delete_subscriber, remove_subscriber,
}
use metalbond.Bond.Sends.{quiet, distribute-Sends}
use metalbond.Bond.Routing.{remove_received_route_lem}
use metalbond.RouteTable.Own.{IsOwn, remove_next_hop-IsOwn}
use metalbond.Bond.Frame.{
  IsBacked, set_peer-IsOwn, holds, subscribed, Frame, Frame-refl, Frame-trans, session,
}

module _ {A P S : Type 0} ⦃ca : Comparable A⦄ ⦃cp : Comparable P⦄ (env : Env A P S) where
  -- what `removeReceivedRoute` leaves alone
  pub record Rest (n n' : Node A P S) : Type 0 where
    pub bond : n'.bond ≡ record n.bond { route_table = n'.bond.route_table }
    spawned : n'.spawned ≡ n.spawned
    peer : (q : PeerId) → quiet (n'.peer q) ≡ quiet (n.peer q)

  pub remove_received_route-Rest :
      (p : PeerId) (vni : ℕ) (dest : Destination P) (hop : NextHop A) (n : Node A P S)
      → Rest n (remove_received_route env p vni dest hop n).0
  unfolding remove_received_route retract_route client_remove set_route_table
  remove_received_route-Rest p vni dest hop n =
      let m = set_route_table (remove_next_hop n.bond.route_table vni dest hop (some p)).0 n in
      let s = distribute-Sends env remove vni dest hop (some p) m in
      record {
        bond = ground (arith, s.bond);
        spawned = ground (arith, s.spawned);
        peer = λ q. ground (arith, s.peer q);
      }

  -- the peer's table after the first half of a round
  after_remove : PeerId → ℕ → Destination P → NextHop A → Node A P S → Node A P S
  after_remove p vni dest hop n =
      set_peer p
        (record (n.peer p) {
          received_routes = (remove_next_hop (n.peer p).received_routes vni dest hop (some p)).0;
        })
        n

  holds-after_remove :
      (p : PeerId) (vni v : ℕ) (dest d : Destination P) (hop h : NextHop A) (q : PeerId)
      (n : Node A P S)
      → holds (after_remove p vni dest hop n) v d h q
        ≡ (not (same_route vni dest hop (some p) v d h (some q)) && holds n v d h q)
  unfolding after_remove set_peer
  holds-after_remove p vni v dest d hop h q n =
      let gone =
        find-remove_next_hop (n.peer p).received_routes vni v dest d hop h (some p) (some q) in
      ground (arith, gone.1)

  -- the peers' own tables after a round
  pub holds-drop_route :
      (p : PeerId) (vni v : ℕ) (dest d : Destination P) (hop h : NextHop A) (q : PeerId)
      (n : Node A P S)
      → holds (drop_route env p vni dest hop n) v d h q
        ≡ (not (same_route vni dest hop (some p) v d h (some q)) && holds n v d h q)
  unfolding drop_route after_remove
  holds-drop_route p vni v dest d hop h q n =
      let r = remove_received_route-Rest p vni dest hop (after_remove p vni dest hop n) in
      ap (λ (x : Peer A P). is_some (find x.received_routes v d h (some q))) (r.peer q)
      ∙ unfold after_remove in holds-after_remove p vni v dest d hop h q n

  after_remove-IsOwn :
      (p : PeerId) (vni : ℕ) (dest : Destination P) (hop : NextHop A) (n : Node A P S)
      → IsBacked n
      → (q : PeerId) → IsOwn (some q) ((after_remove p vni dest hop n).peer q).received_routes
  unfolding after_remove
  after_remove-IsOwn p vni dest hop n b =
      set_peer-IsOwn p _ n
        (remove_next_hop-IsOwn (some p) (n.peer p).received_routes vni dest hop (some p) (b.own p))
        b.own

  pub drop_route-Frame :
      (p : PeerId) (vni : ℕ) (dest : Destination P) (hop : NextHop A) (n : Node A P S)
      → Frame session n (drop_route env p vni dest hop n)
  unfolding drop_route after_remove set_peer
  drop_route-Frame p vni dest hop n =
      let m = after_remove p vni dest hop n in
      let r = remove_received_route-Rest p vni dest hop m in
      record {
        locked = ap (λ (b : MetalBond A P). b.subscribers_locked) r.bond;
        announcements = ap (λ (b : MetalBond A P). b.my_announcements) r.bond;
        subscriptions = ap (λ (b : MetalBond A P). b.my_subscriptions) r.bond;
        spawned = r.spawned;
        peer = λ q. ap session (r.peer q) ∙ ground arith;
        subscribers = λ v q h. rw (r.bond) h;
        backed = λ b. record {
          backed = λ v d h q e.
              let held =
                ap (λ (x : Peer A P). is_some (find x.received_routes v d h (some q))) (r.peer q) in
              ground (
                arith,
                held,
                (remove_received_route_lem env p vni dest hop m v d h q).0,
                holds-after_remove p vni v dest d hop h q n,
                b.backed v d h q,
                e,
              );
          own = λ q.
              let kept = ap (λ (x : Peer A P). x.received_routes) (r.peer q) in
              rw kept (after_remove-IsOwn p vni dest hop n b q);
        };
      }

  drop_hops-Frame :
      (p : PeerId) (vni : ℕ) (dest : Destination P) (hops : List (NextHop A)) (n : Node A P S)
      → Frame session n (drop_hops env p vni dest hops n)
  drop_hops-Frame p vni dest [] n = Frame-refl n
  drop_hops-Frame p vni dest (hop ∷ hops) n =
      Frame-trans (drop_route-Frame p vni dest hop n) (drop_hops-Frame p vni dest hops _)

  drop_dests-Frame :
      (p : PeerId) (vni : ℕ) (m : Map (Destination P) (List (NextHop A))) (n : Node A P S)
      → Frame session n (drop_dests env p vni m n)
  drop_dests-Frame p vni [] n = Frame-refl n
  drop_dests-Frame p vni ((dest, hops) ∷ m) n =
      Frame-trans (drop_hops-Frame p vni dest hops n) (drop_dests-Frame p vni m _)

  subscribed-delete_subscriber :
      (p : PeerId) (vni v : ℕ) (q : PeerId) (n : Node A P S)
      → subscribed (delete_subscriber p vni n) v q
        ≡ (not (same vni v && same p q) && subscribed n v q)
  unfolding delete_subscriber when
  subscribed-delete_subscriber p vni v q n = ground (
    arith,
    at-update n.bond.subscribers vni v (λ ps. delete ps p),
    get-delete (at n.bond.subscribers vni) p q,
  )

  subscribed-kept :
      (p : PeerId) (vni v : ℕ) (q : PeerId) (n : Node A P S)
      → subscribed n v q ≡ false
      → subscribed (delete_subscriber p vni n) v q ≡ false
  subscribed-kept p vni v q n h = ground (arith, subscribed-delete_subscriber p vni v q n)

  delete_subscriber-Frame :
      (p : PeerId) (vni : ℕ) (n : Node A P S) → Frame session n (delete_subscriber p vni n)
  unfolding delete_subscriber
  delete_subscriber-Frame p vni n = record {
    locked = refl;
    announcements = refl;
    subscriptions = refl;
    spawned = refl;
    peer = λ q. refl;
    subscribers = λ v q h. unfold delete_subscriber in subscribed-kept p vni v q n h;
    backed = λ b. record { backed = λ v d h q e. b.backed v d h q e; own = b.own };
  }

  -- `removeSubscriber` before it forgets the subscriber
  abbrev dropped : PeerId → ℕ → Node A P S → Node A P S
  dropped p vni n = drop_dests env p vni (get_destinations_by_vni (n.peer p).received_routes vni) n

  pub remove_subscriber-Frame :
      (p : PeerId) (vni : ℕ) (n : Node A P S) → Frame session n (remove_subscriber env p vni n).0
  unfolding remove_subscriber
  remove_subscriber-Frame p vni n = elim (Option-cases (get (at n.bond.subscribers vni) p)) [
    | inl e ↦ rw (e, remove_subscriber) (Frame-refl n)
    | inr (b, e) ↦
        rw (e, remove_subscriber)
          (Frame-trans
            (drop_dests-Frame p vni (get_destinations_by_vni (n.peer p).received_routes vni) n)
            (delete_subscriber-Frame p vni (dropped p vni n)))
  ]

  forgotten :
      (p : PeerId) (vni : ℕ) (n : Node A P S) → subscribed (delete_subscriber p vni n) vni p ≡ false
  forgotten p vni n = ground (arith, subscribed-delete_subscriber p vni vni p n)

  -- the peer is no subscriber any more, or was none
  pub subscribed-remove_subscriber :
      (p : PeerId) (vni : ℕ) (n : Node A P S)
      → subscribed (remove_subscriber env p vni n).0 vni p ≡ false
  unfolding remove_subscriber
  subscribed-remove_subscriber p vni n = elim (Option-cases (get (at n.bond.subscribers vni) p)) [
    | inl e ↦ rw (e, remove_subscriber) (rw e)
    | inr (b, e) ↦ rw (e, remove_subscriber) (forgotten p vni (dropped p vni n))
  ]
