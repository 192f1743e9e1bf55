-- ===== src/Bond/Queues.antt =====
-- peer.go and metalbond.go: `setState`, and what waits in the channels.
use metalbond.Base.{
  ℕ, some, List, [], ◌∷◌, Comparable, nat_comparable, same, Option-cases, Bool-cases, inl, inr,
  ◌==◌,
}
use metalbond.Base.Map.{Map, get, keys}
use metalbond.Base.Map.Nested.{at}
use metalbond.Types.{
  Destination, NextHop, destination_comparable, next_hop_comparable, ConnectionState, established,
  state_comparable, remove,
}
use metalbond.RouteTable.{get_vnis, get_destinations_by_vni, remove_next_hop}
use metalbond.Bond.{PeerId, peer_ref_comparable, Node, Env, set_peer}
use metalbond.Bond.Received.{
  remove_received_route, retract_route, client_remove, set_route_table, drop_route, drop_hops,
  drop_dests, delete_subscriber, remove_subscriber,
}
use metalbond.Bond.State.{write_state, vnis_of_subscriber, remove_subscriptions, set_state}
use metalbond.Bond.Sends.{
  Waits, Waits-set_peer, Sends, distribute-Sends, send_subscriptions-Sends,
  send_announcements-Sends,
}

-- what waits in a channel still waits there
pub record Queues {A P S : Type 0} (n n' : Node A P S) : Type 0 where
  pub queue :
      (q : PeerId) (pkt : List ℕ) → Waits pkt (n.peer q).tx_chan → Waits pkt (n'.peer q).tx_chan

module _ {A P S : Type 0} where
  Queues-refl : (n : Node A P S) → Queues n n
  Queues-refl n = record { queue = λ q pkt w. w }

  Queues-trans : {l m n : Node A P S} → Queues l m → Queues m n → Queues l n
  Queues-trans s t = record { queue = λ q pkt w. t.queue q pkt (s.queue q pkt w) }

  Sends-Queues : {n n' : Node A P S} → Sends n n' → Queues n n'
  Sends-Queues s = record { queue = λ q pkt w. s.queue q pkt w }

module _ {A P S : Type 0} ⦃ca : Comparable A⦄ ⦃cp : Comparable P⦄ (env : Env A P S) where
  remove_received_route-Queues :
      (p : PeerId) (vni : ℕ) (dest : Destination P) (hop : NextHop A) (n : Node A P S)
      → Queues n (remove_received_route env p vni dest hop n).0
  unfolding remove_received_route retract_route client_remove set_route_table
  remove_received_route-Queues p vni dest hop n =
      let (rt, (left, e)) = remove_next_hop n.bond.route_table vni dest hop (some p) in
      let told = distribute-Sends env remove vni dest hop (some p) (set_route_table rt n) in
      elim (Option-cases e) [
        | inl k ↦
            rw (k, remove_received_route)
              (elim (Bool-cases (left == 0)) [
                | inl z ↦ rw z (record { queue = λ q pkt w. told.queue q pkt w })
                | inr z ↦ rw z (record { queue = λ q pkt w. w })
              ])
        | inr (x, k) ↦ rw (k, remove_received_route) (record { queue = λ q pkt w. w })
      ]

  drop_route-Queues :
      (p : PeerId) (vni : ℕ) (dest : Destination P) (hop : NextHop A) (n : Node A P S)
      → Queues n (drop_route env p vni dest hop n)
  unfolding drop_route
  drop_route-Queues p vni dest hop n =
      Queues-trans (record { queue = λ q pkt w. Waits-set_peer p _ n (λ x v. v) q pkt w })
        (remove_received_route-Queues p vni dest hop _)

  drop_hops-Queues :
      (p : PeerId) (vni : ℕ) (dest : Destination P) (hops : List (NextHop A)) (n : Node A P S)
      → Queues n (drop_hops env p vni dest hops n)
  drop_hops-Queues p vni dest [] n = Queues-refl n
  drop_hops-Queues p vni dest (hop ∷ hops) n =
      Queues-trans (drop_route-Queues p vni dest hop n) (drop_hops-Queues p vni dest hops _)

  drop_dests-Queues :
      (p : PeerId) (vni : ℕ) (m : Map (Destination P) (List (NextHop A))) (n : Node A P S)
      → Queues n (drop_dests env p vni m n)
  drop_dests-Queues p vni [] n = Queues-refl n
  drop_dests-Queues p vni ((dest, hops) ∷ m) n =
      Queues-trans (drop_hops-Queues p vni dest hops n) (drop_dests-Queues p vni m _)

  remove_subscriber-Queues :
      (p : PeerId) (vni : ℕ) (n : Node A P S) → Queues n (remove_subscriber env p vni n).0
  unfolding remove_subscriber delete_subscriber
  remove_subscriber-Queues p vni n =
      let m = get_destinations_by_vni (n.peer p).received_routes vni in
      elim (Option-cases (get (at n.bond.subscribers vni) p)) [
        | inl e ↦ rw (e, remove_subscriber) (Queues-refl n)
        | inr (b, e) ↦
            rw (e, remove_subscriber)
              (record { queue = λ q pkt w. (drop_dests-Queues p vni m n).queue q pkt w })
      ]

  remove_subscriptions-Queues :
      (p : PeerId) (vnis : List ℕ) (n : Node A P S) → Queues n (remove_subscriptions env p vnis n)
  unfolding remove_subscriptions
  remove_subscriptions-Queues p [] n = Queues-refl n
  remove_subscriptions-Queues p (vni ∷ vnis) n =
      Queues-trans (remove_subscriber-Queues p vni n) (remove_subscriptions-Queues p vnis _)

  pub set_state-Queues :
      (p : PeerId) (new : ConnectionState) (n : Node A P S) → Queues n (set_state env p new n)
  unfolding set_state write_state
  set_state-Queues p new n =
      let m = set_peer p (record (n.peer p) { state = new }) n in
      let written : Queues n m = record {
        queue = λ q pkt w. Waits-set_peer p _ n (λ x v. v) q pkt w;
      } in
      elim (Bool-cases (same (n.peer p).state new)) [
        | inl e ↦ rw e written
        | inr e ↦ rw e (
            Queues-trans written (elim (Bool-cases (same new established)) [
              | inl k ↦ rw k (
                  Queues-trans
                    (Sends-Queues (send_subscriptions-Sends env p (keys m.bond.my_subscriptions) m))
                    (Sends-Queues
                      (send_announcements-Sends env p (get_vnis m.bond.my_announcements) _)))
              | inr k ↦
                  rw k (remove_subscriptions-Queues p (vnis_of_subscriber p m.bond.subscribers) m)
            ]))
      ]
