-- ===== src/Examples/Restarts.antt =====
-- peer.go and metalbond.go: sessions that end, at nodes of Examples/Bonds and Examples/Runs.
use metalbond.Base.{
  if◌then◌else◌, ◌≡◌, ◌≤◌, ◌<◌, ◌*◌, refl, Bool, true, false, Option, none, some, List, [], ◌∷◌,
  arith, nat_comparable,
}
use metalbond.Base.Map.{get}
use metalbond.Types.{
  established, Message, add, outgoing, hello_sent, state_comparable, destination_comparable,
  next_hop_comparable,
}
use metalbond.Bond.{never_returns, Node, peer_ref_comparable, set_peer}
use metalbond.Bond.State.{reset, add_subscriber}
use metalbond.Bond.Loops.{keepalive_timeout_of, keepalive_timeout_of_lem}
use metalbond.Bond.Replayed.{sends_some, entered, subscribe_unready_lem}
use metalbond.Bond.Session.{process_rx_subscribe}
use metalbond.RouteTable.{get_destinations_by_vni_with_peer}
use metalbond.Examples.Hosts.{Bytes, TestPrefix, bytes_comparable, prefix_comparable}
use metalbond.Examples.Bonds.{env, dest, hop, node}
use metalbond.Examples.Runs.{told}

-- the node of Examples/Runs with a route of its peer, as one that has opened the connection
abbrev heard : Node Bytes TestPrefix (Unit {0})
heard = set_peer 0 (record (told.peer 0) { direction = outgoing; state = established }) told

-- the node of Examples/Bonds, where a peer to which it connects has not answered yet
-- and where the VNI 200 has a route
abbrev greeting : Node Bytes TestPrefix (Unit {0})
greeting =
    set_peer 2 (record (node.peer 2) { direction = outgoing })
      (record node {
        bond = record node.bond {
          route_table = (200, (dest, (hop, (some 0, true) ∷ []) ∷ []) ∷ []) ∷ [];
        };
      })

subscribe_unready_lem_example :
    (process_rx_subscribe env 2 200 greeting ≡ (
      if sends_some 2 (get_destinations_by_vni_with_peer greeting.bond.route_table 200)
      then reset env 2 (entered env 2 200 greeting)
      else entered env 2 200 greeting))
    × ((add_subscriber env 2 200 greeting).1 ≡ (
        if sends_some 2 (get_destinations_by_vni_with_peer greeting.bond.route_table 200)
        then some never_returns
        else none))
unfolding set_peer metalbond.Base.ℕ_discrete metalbond.Types.ConnectionState-discrete
    metalbond.Base.Map.get metalbond.Base.Map.Nested.at
subscribe_unready_lem_example = subscribe_unready_lem env 2 200 greeting refl refl refl refl refl

keepalive_timeout_of_lem_example :
    (5 ≤ 1844674407 → keepalive_timeout_of 5 ≡ (false, 5 * 2500000000))
    × (1844674407 < 5 → 5 ≤ 3689348814 → (keepalive_timeout_of 5).0 ≡ true)
keepalive_timeout_of_lem_example = keepalive_timeout_of_lem 5
