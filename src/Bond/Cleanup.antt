-- ===== src/Bond/Cleanup.antt =====
-- peer.go: `cleanup`, which `handle` runs when its session ends.
use metalbond.Base.{
  ℕ, ◌≡◌, Bool, true, false, not, ◌&&◌, none, some, List, [], ◌∷◌, ◌∙◌, refl, arith, Comparable,
  if◌then◌else◌, contains, nat_comparable,
}
use metalbond.Base.Map.{Map, keys}
use metalbond.Types.{Destination, NextHop, destination_comparable, next_hop_comparable}
use metalbond.RouteTable.{remove_next_hop, get_vnis, get_destinations_by_vni}
use metalbond.Bond.{PeerId, peer_ref_comparable, Node, Env, set_peer}
use metalbond.Bond.Received.{remove_received_route, drop_route}
use metalbond.Bond.Subscriptions.{bond_unsubscribe, is_subscribed}
use metalbond.Bond.Removal.{drop_route-Frame}
use metalbond.Bond.Unsubscribed.{is_subscribed-bond_unsubscribe}

module _ {A P S : Type 0} ⦃ca : Comparable A⦄ ⦃cp : Comparable P⦄ (env : Env A P S) where
  -- the loop over `subscribedVNIs`; an error is logged
  unfoldable pub unsubscribe_vnis : List ℕ → Node A P S → Node A P S
  unsubscribe_vnis [] n = n
  unsubscribe_vnis (vni ∷ vnis) n = unsubscribe_vnis vnis (bond_unsubscribe env vni n).0

  -- The loops over the received routes. An error of the peer's own table ends the method, and then
  -- the flag is false.
  unfoldable pub cleanup_hops :
      PeerId → ℕ → Destination P → List (NextHop A) → Node A P S → Node A P S × Bool
  cleanup_hops p vni dest [] n = (n, true)
  cleanup_hops p vni dest (nh ∷ nhs) n =
      let (rt, (left, e)) = remove_next_hop (n.peer p).received_routes vni dest nh (some p) in
      let n' = set_peer p (record (n.peer p) { received_routes = rt }) n in
      let rest = cleanup_hops p vni dest nhs (remove_received_route env p vni dest nh n').0 in
      elim e [ some _ ↦ (n', false) | none ↦ rest ]

  unfoldable pub cleanup_dests :
      PeerId → ℕ → Map (Destination P) (List (NextHop A)) → Node A P S → Node A P S × Bool
  cleanup_dests p vni [] n = (n, true)
  cleanup_dests p vni ((dest, nhs) ∷ m) n =
      let (n', go_on) = cleanup_hops p vni dest nhs n in
      let rest = cleanup_dests p vni m n' in if go_on then rest else (n', false)

  unfoldable pub cleanup_vnis : PeerId → List ℕ → Node A P S → Node A P S × Bool
  cleanup_vnis p [] n = (n, true)
  cleanup_vnis p (vni ∷ vnis) n =
      let (n', go_on) =
        cleanup_dests p vni (get_destinations_by_vni (n.peer p).received_routes vni) n in
      let rest = cleanup_vnis p vnis n' in if go_on then rest else (n', false)

  unfoldable pub cleanup : PeerId → Node A P S → Node A P S
  cleanup p n =
      let n' = unsubscribe_vnis (keys (n.peer p).subscribed_vnis) n in
      (cleanup_vnis p (get_vnis (n'.peer p).received_routes) n').0

  cleanup_hops-subscribed :
      (p : PeerId) (vni v : ℕ) (dest : Destination P) (nhs : List (NextHop A)) (n : Node A P S)
      → is_subscribed v (cleanup_hops p vni dest nhs n).0 ≡ is_subscribed v n
  unfolding cleanup_hops is_subscribed drop_route set_peer
  cleanup_hops-subscribed p vni v dest [] n = refl
  cleanup_hops-subscribed p vni v dest (nh ∷ nhs) n =
      let step = (drop_route-Frame env p vni dest nh n).subscriptions in
      ground
        (arith, step, cleanup_hops-subscribed p vni v dest nhs (drop_route env p vni dest nh n))

  cleanup_dests-subscribed :
      (p : PeerId) (vni v : ℕ) (m : Map (Destination P) (List (NextHop A))) (n : Node A P S)
      → is_subscribed v (cleanup_dests p vni m n).0 ≡ is_subscribed v n
  unfolding cleanup_dests
  cleanup_dests-subscribed p vni v [] n = refl
  cleanup_dests-subscribed p vni v ((dest, nhs) ∷ m) n =
      let n' = (cleanup_hops p vni dest nhs n).0 in
      ground
        (arith, cleanup_hops-subscribed p vni v dest nhs n, cleanup_dests-subscribed p vni v m n')

  cleanup_vnis-subscribed :
      (p : PeerId) (v : ℕ) (vnis : List ℕ) (n : Node A P S)
      → is_subscribed v (cleanup_vnis p vnis n).0 ≡ is_subscribed v n
  unfolding cleanup_vnis
  cleanup_vnis-subscribed p v [] n = refl
  cleanup_vnis-subscribed p v (vni ∷ vnis) n =
      let m = get_destinations_by_vni (n.peer p).received_routes vni in
      ground (
        arith,
        cleanup_dests-subscribed p vni v m n,
        cleanup_vnis-subscribed p v vnis (cleanup_dests p vni m n).0,
      )

  unsubscribe_vnis-subscribed :
      (v : ℕ) (vnis : List ℕ) (n : Node A P S)
      → is_subscribed v (unsubscribe_vnis vnis n) ≡ (not (contains vnis v) && is_subscribed v n)
  unfolding unsubscribe_vnis contains
  unsubscribe_vnis-subscribed v [] n = ground arith
  unsubscribe_vnis-subscribed v (vni ∷ vnis) n =
      let n' = (bond_unsubscribe env vni n).0 in
      ground
        (arith, unsubscribe_vnis-subscribed v vnis n', is_subscribed-bond_unsubscribe env vni v n)

  -- When the session of a peer ends, the node itself is no longer subscribed to the VNIs that this
  -- peer subscribed to, and its other subscriptions stay.
  pub is_subscribed-cleanup :
      (p : PeerId) (v : ℕ) (n : Node A P S)
      → is_subscribed v (cleanup p n)
        ≡ (not (contains (keys (n.peer p).subscribed_vnis) v) && is_subscribed v n)
  unfolding cleanup
  is_subscribed-cleanup p v n =
      let vnis = keys (n.peer p).subscribed_vnis in
      let n' = unsubscribe_vnis vnis n in
      cleanup_vnis-subscribed p v (get_vnis (n'.peer p).received_routes) n'
      ∙ unsubscribe_vnis-subscribed v vnis n
