-- ===== src/Bond/Subscriptions.antt =====
-- metalbond.go: the node's own subscriptions.
use metalbond.Base.{
  ℕ, Bool, true, Option, none, some, List, [], ◌∷◌, Comparable, if◌then◌else◌, nat_comparable,
  is_some,
}
use metalbond.Base.Map.{Map, get, put, delete}
use metalbond.Types.{
  Destination, NextHop, ConnectionState, closed, destination_comparable, next_hop_comparable,
}
use metalbond.RouteTable.{next_hop_exists, remove_next_hop, get_destinations_by_vni}
use metalbond.Bond.{
  PeerId, peer_ref_comparable, Routes, Error, vni_already_subscribed, vni_already_unsubscribed,
  peer_does_not_exist, Node, Env, Method,
}
use metalbond.Bond.Send.{peer_subscribe, peer_unsubscribe}
use metalbond.Bond.Received.{set_route_table}

module _ {A P S : Type 0} where
  unfoldable pub set_subscriptions : Map ℕ Bool → Node A P S → Node A P S
  set_subscriptions m n = record n { bond = record n.bond { my_subscriptions = m } }

  -- `IsSubscribed`
  unfoldable pub is_subscribed : ℕ → Node A P S → Bool
  is_subscribed vni n = is_some (get n.bond.my_subscriptions vni)

  -- `PeerState`
  unfoldable pub peer_state : ℕ → Node A P S → ConnectionState × Option Error
  peer_state addr n = elim (get n.bond.peers addr) [
    | none ↦ (closed, some peer_does_not_exist)
    | some p ↦ ((n.peer p).state, none)
  ]

module _ {A P S : Type 0} (env : Env A P S) where
  -- the loop of `Subscribe`: the first error ends it
  unfoldable pub subscribe_peers : ℕ → Map ℕ PeerId → Method A P S
  subscribe_peers vni [] n = (n, none)
  subscribe_peers vni ((addr, p) ∷ m) n =
      let (n', e) = peer_subscribe env p vni n in
      let rest = subscribe_peers vni m n' in elim e [ none ↦ rest | some x ↦ (n', some x) ]

  -- `Subscribe`
  unfoldable pub bond_subscribe : ℕ → Method A P S
  bond_subscribe vni n = elim (get n.bond.my_subscriptions vni) [
    | some _ ↦ (n, some vni_already_subscribed)
    | none ↦
        subscribe_peers vni n.bond.peers
          (set_subscriptions (put n.bond.my_subscriptions vni true) n)
  ]

module _ {A P : Type 0} ⦃ca : Comparable A⦄ ⦃cp : Comparable P⦄ where
  -- the loops of `Unsubscribe` over the routes of the VNI; an error is logged
  unfoldable pub retract_hops :
      PeerId → ℕ → Destination P → List (NextHop A) → Routes A P → Routes A P
  retract_hops p vni dest [] rt = rt
  retract_hops p vni dest (nh ∷ nhs) rt =
      let (rt', found) = next_hop_exists rt vni dest nh (some p) in
      retract_hops p vni dest nhs
        (if found then (remove_next_hop rt' vni dest nh (some p)).0 else rt')

  unfoldable pub retract_dests :
      PeerId → ℕ → Map (Destination P) (List (NextHop A)) → Routes A P → Routes A P
  retract_dests p vni [] rt = rt
  retract_dests p vni ((dest, nhs) ∷ m) rt = retract_dests p vni m (retract_hops p vni dest nhs rt)

  unfoldable pub retract_vni : PeerId → ℕ → Routes A P → Routes A P
  retract_vni p vni rt = retract_dests p vni (get_destinations_by_vni rt vni) rt

module _ {A P S : Type 0} ⦃ca : Comparable A⦄ ⦃cp : Comparable P⦄ (env : Env A P S) where
  -- the loop of `Unsubscribe`; an error of the peer's `Unsubscribe` is logged
  unfoldable pub unsubscribe_peers : ℕ → Map ℕ PeerId → Node A P S → Node A P S
  unsubscribe_peers vni [] n = n
  unsubscribe_peers vni ((addr, p) ∷ m) n =
      let n' = (peer_unsubscribe env p vni n).0 in
      unsubscribe_peers vni m (set_route_table (retract_vni p vni n'.bond.route_table) n')

  -- `Unsubscribe`
  unfoldable pub bond_unsubscribe : ℕ → Method A P S
  bond_unsubscribe vni n = elim (get n.bond.my_subscriptions vni) [
    | none ↦ (n, some vni_already_unsubscribed)
    | some _ ↦
        let n' = unsubscribe_peers vni n.bond.peers n in
        (set_subscriptions (delete n'.bond.my_subscriptions vni) n', none)
  ]
