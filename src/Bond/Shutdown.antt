-- ===== src/Bond/Shutdown.antt =====
-- metalbond.go: what `RemovePeer` and `Shutdown` leave of the peers.
use metalbond.Base.{
  ℕ, ◌≡◌, ◌∙◌, refl, ap, arith, Bool, some, List, [], ◌∷◌, Comparable, nat_comparable, Option-cases,
  inl, inr,
}
use metalbond.Base.Map.{Map, get, keys}
use metalbond.Types.{
  remove, Destination, NextHop, ConnectionState, closed, state_comparable, destination_comparable,
  next_hop_comparable,
}
use metalbond.RouteTable.{get_vnis, get_destinations_by_vni, remove_next_hop}
use metalbond.Bond.{PeerId, MetalBond, Node, Env, peer_ref_comparable, set_peer}
use metalbond.Bond.Received.{
  remove_received_route, retract_route, client_remove, set_route_table, drop_route, drop_hops,
  drop_dests, delete_subscriber, remove_subscriber,
}
use metalbond.Bond.State.{
  write_state, signal_stop, send_subscriptions, remove_subscriptions, vnis_of_subscriber, set_state,
  close, remove_peer,
}
use metalbond.Bond.Lifecycle.{remove_peers, stop_all}
use metalbond.Bond.Distribute.{distribute_route_to_peers}
use metalbond.Bond.Sends.{distribute-Sends, send_subscriptions-Sends, send_announcements-Sends}
use metalbond.Bond.Removal.{remove_received_route-Rest}

module _ {A P S : Type 0} where
  -- what closing a session leaves alone
  abbrev pub kept : {V : Type 0} → (S → V) → Node A P S → Map ℕ PeerId × Bool × V
  kept view n = (n.bond.peers, n.bond.shutting_down, view n.client)

module _ {A P S : Type 0} ⦃ca : Comparable A⦄ ⦃cp : Comparable P⦄ (env : Env A P S) {V : Type 0}
    (view : S → V)
    (steady : (vni : ℕ) (d : Destination P) (h : NextHop A) (s : S)
      → view (env.client.remove_route vni d h s).0 ≡ view s) where
  remove_received_route-client :
      (p : PeerId) (vni : ℕ) (dest : Destination P) (hop : NextHop A) (n : Node A P S)
      → view (remove_received_route env p vni dest hop n).0.client ≡ view n.client
  unfolding remove_received_route retract_route client_remove set_route_table
  remove_received_route-client p vni dest hop n =
      let m = set_route_table (remove_next_hop n.bond.route_table vni dest hop (some p)).0 n in
      let s = distribute-Sends env remove vni dest hop (some p) m in
      ground (
        arith,
        s.client,
        ap view s.client,
        steady vni dest hop n.client,
        steady vni dest hop (distribute_route_to_peers env remove vni dest hop (some p) m).0.client,
      )

  drop_route-peers :
      (p : PeerId) (vni : ℕ) (dest : Destination P) (hop : NextHop A) (n : Node A P S)
      → kept view (drop_route env p vni dest hop n) ≡ kept view n
  unfolding drop_route set_peer
  drop_route-peers p vni dest hop n =
      let m =
        set_peer p
          (record (n.peer p) {
            received_routes = (remove_next_hop (n.peer p).received_routes vni dest hop (some p)).0;
          })
          n in
      let bond = (remove_received_route-Rest env p vni dest hop m).bond in
      let peers : (drop_route env p vni dest hop n).bond.peers ≡ n.bond.peers =
        ap (λ (b : MetalBond A P). b.peers) bond in
      let down : (drop_route env p vni dest hop n).bond.shutting_down ≡ n.bond.shutting_down =
        ap (λ (b : MetalBond A P). b.shutting_down) bond in
      let client : view (drop_route env p vni dest hop n).client ≡ view n.client =
        remove_received_route-client p vni dest hop m in
      λ i. (peers i, down i, client i)

  drop_hops-peers :
      (p : PeerId) (vni : ℕ) (dest : Destination P) (hops : List (NextHop A)) (n : Node A P S)
      → kept view (drop_hops env p vni dest hops n) ≡ kept view n
  drop_hops-peers p vni dest [] n = refl
  drop_hops-peers p vni dest (hop ∷ hops) n =
      drop_hops-peers p vni dest hops _ ∙ drop_route-peers p vni dest hop n

  drop_dests-peers :
      (p : PeerId) (vni : ℕ) (m : Map (Destination P) (List (NextHop A))) (n : Node A P S)
      → kept view (drop_dests env p vni m n) ≡ kept view n
  drop_dests-peers p vni [] n = refl
  drop_dests-peers p vni ((dest, hops) ∷ m) n =
      drop_dests-peers p vni m _ ∙ drop_hops-peers p vni dest hops n

  remove_subscriber-peers :
      (p : PeerId) (vni : ℕ) (n : Node A P S)
      → kept view (remove_subscriber env p vni n).0 ≡ kept view n
  unfolding remove_subscriber delete_subscriber
  remove_subscriber-peers p vni n =
      ground
        (arith, drop_dests-peers p vni (get_destinations_by_vni (n.peer p).received_routes vni) n)

  remove_subscriptions-peers :
      (p : PeerId) (vnis : List ℕ) (n : Node A P S)
      → kept view (remove_subscriptions env p vnis n) ≡ kept view n
  unfolding remove_subscriptions
  remove_subscriptions-peers p [] n = refl
  remove_subscriptions-peers p (vni ∷ vnis) n =
      remove_subscriptions-peers p vnis _ ∙ remove_subscriber-peers p vni n

  set_state-peers :
      (p : PeerId) (new : ConnectionState) (n : Node A P S)
      → kept view (set_state env p new n) ≡ kept view n
  unfolding set_state write_state set_peer
  set_state-peers p new n =
      let m = write_state p new n in
      let sent = send_subscriptions env p (keys m.bond.my_subscriptions) m in
      ground (
        arith,
        (send_subscriptions-Sends env p (keys m.bond.my_subscriptions) m).bond,
        ap view (send_subscriptions-Sends env p (keys m.bond.my_subscriptions) m).client,
        (send_announcements-Sends env p (get_vnis m.bond.my_announcements) sent).bond,
        ap view (send_announcements-Sends env p (get_vnis m.bond.my_announcements) sent).client,
        remove_subscriptions-peers p (vnis_of_subscriber p m.bond.subscribers) m,
      )

  close-peers : (p : PeerId) (n : Node A P S) → kept view (close env p n) ≡ kept view n
  unfolding close signal_stop set_peer
  close-peers p n = ground (arith, set_state-peers p closed n)

  remove_peer-view :
      (addr : ℕ) (n : Node A P S) → view (remove_peer env addr n).client ≡ view n.client
  unfolding remove_peer
  remove_peer-view addr n = elim (Option-cases (get n.bond.peers addr)) [
    | inl e ↦ rw (e, remove_peer) refl
    | inr (p, e) ↦ rw (e, remove_peer) (ap (λ m. m.2) (close-peers p n))
  ]

  remove_peers-view :
      (addrs : List ℕ) (n : Node A P S) → view (remove_peers env addrs n).client ≡ view n.client
  unfolding remove_peers
  remove_peers-view [] n = refl
  remove_peers-view (addr ∷ addrs) n = remove_peers-view addrs _ ∙ remove_peer-view addr n

  -- what the removal of a route leaves alone at the client, `Shutdown` does too
  pub stop_all-view : (n : Node A P S) → view (stop_all env n).client ≡ view n.client
  unfolding stop_all
  stop_all-view n = remove_peers-view (keys n.bond.peers) _
