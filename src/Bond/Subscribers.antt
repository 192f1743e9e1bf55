-- ===== src/Bond/Subscribers.antt =====
-- metalbond.go and peer.go: who is a subscriber after `addSubscriber` and after a session is lost.
use metalbond.Base.{
  ℕ, ◌≡◌, Bool, true, false, Comparable, same, arith, is_some, nat_comparable, ◌||◌, not, List, [],
  ◌∷◌, contains,
}
use metalbond.Base.Map.{Map, get}
use metalbond.Base.Map.Nested.{at}
use metalbond.Types.{
  destination_comparable, next_hop_comparable, ConnectionState, established, state_comparable,
}
use metalbond.Bond.{PeerId, peer_ref_comparable, Node, Env}
use metalbond.Bond.Received.{remove_subscriber}
use metalbond.Bond.State.{vnis_of_subscriber, write_state, remove_subscriptions, set_state}
use metalbond.Bond.Frame.{subscribed}
use metalbond.Bond.Removal.{remove_subscriber-Frame, subscribed-remove_subscriber}

-- the VNIs that are gone through are all at which the peer stands
contains-vnis_of_subscriber :
    (p : PeerId) (m : Map ℕ (Map PeerId Bool)) (v : ℕ)
    → is_some (get (at m v) p) ≡ true
    → contains (vnis_of_subscriber p m) v ≡ true
unfolding contains at get
contains-vnis_of_subscriber p [] v h = ground arith
contains-vnis_of_subscriber p ((vni, ps) ∷ m) v h =
    ground (arith, contains-vnis_of_subscriber p m v, h)

module _ {A P S : Type 0} ⦃ca : Comparable A⦄ ⦃cp : Comparable P⦄ (env : Env A P S) where
  remove_subscriptions-listed :
      (p : PeerId) (vnis : List ℕ) (n : Node A P S) (v : ℕ)
      → (contains vnis v || not (subscribed n v p)) ≡ true
      → subscribed (remove_subscriptions env p vnis n) v p ≡ false
  unfolding remove_subscriptions contains
  remove_subscriptions-listed p [] n v h = ground (arith, h)
  remove_subscriptions-listed p (vni ∷ vnis) n v h =
      let m = (remove_subscriber env p vni n).0 in
      let left : (contains vnis v || not (subscribed m v p)) ≡ true = ground (
        arith,
        h,
        (remove_subscriber-Frame env p vni n).subscribers v p,
        subscribed-remove_subscriber env p vni n,
      ) in
      remove_subscriptions-listed p vnis m v left

  covered :
      (p : PeerId) (n : Node A P S) (v : ℕ)
      → (contains (vnis_of_subscriber p n.bond.subscribers) v || not (subscribed n v p)) ≡ true
  covered p n v = ground (arith, contains-vnis_of_subscriber p n.bond.subscribers v)

  -- A session that leaves its state for another than ESTABLISHED loses all its subscriptions.
  pub subscribed-set_state :
      (p : PeerId) (new : ConnectionState) (n : Node A P S) (v : ℕ)
      → same (n.peer p).state new ≡ false
      → same new established ≡ false
      → subscribed (set_state env p new n) v p ≡ false
  unfolding set_state
  subscribed-set_state p new n v h k =
      rw (h, k)
        (remove_subscriptions-listed p _ (write_state p new n) v
          (covered p (write_state p new n) v))
