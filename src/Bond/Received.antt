-- ===== src/Bond/Received.antt =====
-- metalbond.go: `addReceivedRoute`, `removeReceivedRoute` and `removeSubscriber`.
use metalbond.Base.{
  ℕ, Bool, true, false, none, some, List, [], ◌∷◌, Comparable, if◌then◌else◌, ◌&&◌, length, ltb,
  ◌==◌, nat_comparable,
}
use metalbond.Base.Map.{Map, get, delete}
use metalbond.Base.Map.Nested.{at, update}
use metalbond.Types.{
  Destination, NextHop, NextHopType, standard, add, remove, destination_comparable,
  next_hop_comparable,
}
use metalbond.RouteTable.{
  add_next_hop, remove_next_hop, get_nexthops_by_destination, get_destinations_by_vni,
}
use metalbond.Bond.{
  PeerId, peer_ref_comparable, table, not_subscribed, Node, Env, Method, Routes, set_peer,
}
use metalbond.Bond.Distribute.{distribute_route_to_peers}

abbrev pub is_standard : NextHopType → Bool
is_standard standard = true
is_standard _ = false

module _ {A P S : Type 0} where
  unfoldable pub set_route_table : Routes A P → Node A P S → Node A P S
  set_route_table rt n = record n { bond = record n.bond { route_table = rt } }

  -- `delete(m.subscribers[vni], peer)`
  unfoldable pub delete_subscriber : PeerId → ℕ → Node A P S → Node A P S
  delete_subscriber p vni n = record n {
    bond = record n.bond { subscribers = update n.bond.subscribers vni (λ ps. delete ps p) };
  }

module _ {A P S : Type 0} (env : Env A P S) where
  -- the calls of the client; an error is logged
  unfoldable pub client_add : ℕ → Destination P → NextHop A → Node A P S → Node A P S
  client_add vni dest hop n = record n { client = (env.client.add_route vni dest hop n.client).0 }

  unfoldable pub client_remove : ℕ → Destination P → NextHop A → Node A P S → Node A P S
  client_remove vni dest hop n = record n {
    client = (env.client.remove_route vni dest hop n.client).0;
  }

module _ {A P S : Type 0} ⦃ca : Comparable A⦄ ⦃cp : Comparable P⦄ (env : Env A P S) where
  -- the node announces a route to this destination
  abbrev pub announces : Node A P S → ℕ → Destination P → Bool
  announces n vni dest =
      ltb 0 (length (get_nexthops_by_destination n.bond.my_announcements vni dest))

  -- the rest of `addReceivedRoute` where `AddNextHop` gave no error
  unfoldable pub spread_route : PeerId → ℕ → Destination P → NextHop A → Node A P S → Node A P S
  spread_route from vni dest hop n =
      client_add env vni dest hop (distribute_route_to_peers env add vni dest hop (some from) n).0

  unfoldable pub add_received_route : PeerId → ℕ → Destination P → NextHop A → Method A P S
  add_received_route from vni dest hop n =
      if is_standard hop.hop_type && announces n vni dest
      then (n, none)
      else let (rt, e) = add_next_hop n.bond.route_table vni dest hop (some from) in
        let n' = set_route_table rt n in
        elim e [ some x ↦ (n', some (table x)) | none ↦ (spread_route from vni dest hop n', none) ]

  -- the rest of `removeReceivedRoute` where `RemoveNextHop` gave no error
  unfoldable pub retract_route :
      PeerId → ℕ → Destination P → NextHop A → ℕ → Node A P S → Node A P S
  retract_route from vni dest hop remaining n = client_remove env vni dest hop (
      if remaining == 0
      then (distribute_route_to_peers env remove vni dest hop (some from) n).0
      else n)

  unfoldable pub remove_received_route : PeerId → ℕ → Destination P → NextHop A → Method A P S
  remove_received_route from vni dest hop n =
      let (rt, (remaining, e)) = remove_next_hop n.bond.route_table vni dest hop (some from) in
      let n' = set_route_table rt n in
      elim e [
        | some x ↦ (n', some (table x))
        | none ↦ (retract_route from vni dest hop remaining n', none)
      ]

  -- one round of the loop of `removeSubscriber`; both errors are logged
  unfoldable pub drop_route : PeerId → ℕ → Destination P → NextHop A → Node A P S → Node A P S
  drop_route p vni dest hop n =
      (remove_received_route p vni dest hop (
        set_peer p
          (record (n.peer p) {
            received_routes = (remove_next_hop (n.peer p).received_routes vni dest hop (some p)).0;
          })
          n)).0

  abbrev pub drop_hops : PeerId → ℕ → Destination P → List (NextHop A) → Node A P S → Node A P S
  drop_hops p vni dest [] n = n
  drop_hops p vni dest (nh ∷ nhs) n = drop_hops p vni dest nhs (drop_route p vni dest nh n)

  abbrev pub drop_dests :
      PeerId → ℕ → Map (Destination P) (List (NextHop A)) → Node A P S → Node A P S
  drop_dests p vni [] n = n
  drop_dests p vni ((dest, nhs) ∷ m) n = drop_dests p vni m (drop_hops p vni dest nhs n)

  unfoldable pub remove_subscriber : PeerId → ℕ → Method A P S
  remove_subscriber p vni n = elim (get (at n.bond.subscribers vni) p) [
    | none ↦ (n, some not_subscribed)
    | some _ ↦ (
      delete_subscriber p vni
          (drop_dests p vni (get_destinations_by_vni (n.peer p).received_routes vni) n),
      none,
    )
  ]
