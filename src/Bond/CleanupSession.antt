-- ===== src/Bond/CleanupSession.antt =====
-- peer.go: what `cleanup` leaves alone of the peers.
use metalbond.Base.{
  ℕ, ◌≡◌, ◌∙◌, refl, ap, arith, some, List, [], ◌∷◌, Comparable, nat_comparable, Option-cases, inl,
  inr,
}
use metalbond.Base.Map.{Map, get, keys}
use metalbond.Types.{
  Destination, NextHop, state_comparable, destination_comparable, next_hop_comparable, unsubscribe,
}
use metalbond.RouteTable.{get_vnis, get_destinations_by_vni}
use metalbond.Bond.{PeerId, Node, Env, peer_ref_comparable, set_peer}
use metalbond.Bond.Send.{peer_unsubscribe, forget_vni}
use metalbond.Bond.Received.{drop_route}
use metalbond.Bond.Subscriptions.{unsubscribe_peers, bond_unsubscribe, set_subscriptions}
use metalbond.Bond.Received.{set_route_table}
use metalbond.Bond.Cleanup.{unsubscribe_vnis, cleanup_hops, cleanup_dests, cleanup_vnis, cleanup}
use metalbond.Bond.Sends.{send_message-Sends}
use metalbond.Bond.Frame.{session}
use metalbond.Bond.Removal.{drop_route-Frame}

module _ {A P S : Type 0} ⦃ca : Comparable A⦄ ⦃cp : Comparable P⦄ (env : Env A P S) where
  -- `cleanup` leaves the session of each peer alone, but for its routes
  peer_unsubscribe-session :
      (p q : PeerId) (vni : ℕ) (n : Node A P S)
      → session ((peer_unsubscribe env p vni n).0.peer q) ≡ session (n.peer q)
  unfolding peer_unsubscribe set_peer
  peer_unsubscribe-session p q vni n =
      let m =
        set_peer p
          (record (n.peer p) {
            received_routes = forget_vni (some p) vni (n.peer p).received_routes;
          })
          n in
      let sent = ap session ((send_message-Sends env p (unsubscribe vni) m).peer q) in
      ground (arith, sent)

  unsubscribe_peers-session :
      (vni : ℕ) (m : Map ℕ PeerId) (q : PeerId) (n : Node A P S)
      → session ((unsubscribe_peers env vni m n).peer q) ≡ session (n.peer q)
  unfolding unsubscribe_peers set_route_table
  unsubscribe_peers-session vni [] q n = refl
  unsubscribe_peers-session vni ((addr, p) ∷ m) q n =
      unsubscribe_peers-session vni m q _ ∙ peer_unsubscribe-session p q vni n

  bond_unsubscribe-session :
      (vni : ℕ) (q : PeerId) (n : Node A P S)
      → session ((bond_unsubscribe env vni n).0.peer q) ≡ session (n.peer q)
  unfolding bond_unsubscribe set_subscriptions
  bond_unsubscribe-session vni q n = elim (Option-cases (get n.bond.my_subscriptions vni)) [
    | inl e ↦ rw (e, bond_unsubscribe) refl
    | inr (x, e) ↦ rw (e, bond_unsubscribe) (unsubscribe_peers-session vni n.bond.peers q n)
  ]

  unsubscribe_vnis-session :
      (vnis : List ℕ) (q : PeerId) (n : Node A P S)
      → session ((unsubscribe_vnis env vnis n).peer q) ≡ session (n.peer q)
  unfolding unsubscribe_vnis
  unsubscribe_vnis-session [] q n = refl
  unsubscribe_vnis-session (vni ∷ vnis) q n =
      unsubscribe_vnis-session vnis q _ ∙ bond_unsubscribe-session vni q n

  cleanup_hops-session :
      (p : PeerId) (vni : ℕ) (dest : Destination P) (nhs : List (NextHop A)) (q : PeerId)
      (n : Node A P S)
      → session ((cleanup_hops env p vni dest nhs n).0.peer q) ≡ session (n.peer q)
  unfolding cleanup_hops drop_route set_peer
  cleanup_hops-session p vni dest [] q n = refl
  cleanup_hops-session p vni dest (nh ∷ nhs) q n = ground (
    arith,
    cleanup_hops-session p vni dest nhs q (drop_route env p vni dest nh n),
    (drop_route-Frame env p vni dest nh n).peer q,
  )

  cleanup_dests-session :
      (p : PeerId) (vni : ℕ) (m : Map (Destination P) (List (NextHop A))) (q : PeerId)
      (n : Node A P S)
      → session ((cleanup_dests env p vni m n).0.peer q) ≡ session (n.peer q)
  unfolding cleanup_dests
  cleanup_dests-session p vni [] q n = refl
  cleanup_dests-session p vni ((dest, nhs) ∷ m) q n = ground (
    arith,
    cleanup_dests-session p vni m q (cleanup_hops env p vni dest nhs n).0,
    cleanup_hops-session p vni dest nhs q n,
  )

  cleanup_vnis-session :
      (p : PeerId) (vnis : List ℕ) (q : PeerId) (n : Node A P S)
      → session ((cleanup_vnis env p vnis n).0.peer q) ≡ session (n.peer q)
  unfolding cleanup_vnis
  cleanup_vnis-session p [] q n = refl
  cleanup_vnis-session p (vni ∷ vnis) q n =
      let m = get_destinations_by_vni (n.peer p).received_routes vni in
      ground (
        arith,
        cleanup_vnis-session p vnis q (cleanup_dests env p vni m n).0,
        cleanup_dests-session p vni m q n,
      )

  pub cleanup-session :
      (p q : PeerId) (n : Node A P S) → session ((cleanup env p n).peer q) ≡ session (n.peer q)
  unfolding cleanup
  cleanup-session p q n =
      let vnis = keys (n.peer p).subscribed_vnis in
      let n' = unsubscribe_vnis env vnis n in
      cleanup_vnis-session p (get_vnis (n'.peer p).received_routes) q n'
      ∙ unsubscribe_vnis-session vnis q n
