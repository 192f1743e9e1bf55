-- ===== src/Examples/Commands.antt =====
-- metalbond.go: what the node is told to announce and to subscribe to, at the nodes of Examples/Bonds
-- and Examples/Sessions.
use metalbond.Base.{
  ℕ, ◌≡◌, some, none, [], ◌∷◌, not, ◌&&◌, ◌||◌, same, contains, if◌then◌else◌, nat_comparable, true,
}
use metalbond.Types.{destination_comparable, next_hop_comparable}
use metalbond.RouteTable.{nexthop_already_exists}
use metalbond.RouteTable.Effects.{same_route}
use metalbond.Bond.{
  Node, PeerRef, peer_ref_comparable, table, not_established, vni_already_subscribed,
}
use metalbond.Bond.Announce.{announce_route, withdraw_route}
use metalbond.Bond.Announced.{announced, all_up, announce_route_lem, withdraw_route_lem}
use metalbond.Bond.Subscriptions.{bond_subscribe, bond_unsubscribe, is_subscribed}
use metalbond.Bond.Unsubscribed.{values, bond_subscribe_lem, bond_unsubscribe_lem}
use metalbond.Bond.Routing.{routed}
use metalbond.Bond.Cleanup.{cleanup, is_subscribed-cleanup}
use metalbond.Base.Map.{keys}
use metalbond.Examples.Hosts.{Bytes, TestPrefix, bytes_comparable, prefix_comparable}
use metalbond.Examples.Bonds.{env, dest, hop, node, route_packed}
use metalbond.Examples.Sessions.{shared}

-- the node with a route from two peers, subscribed to its VNI
abbrev asked : Node Bytes TestPrefix (Unit {0})
asked = record shared { bond = record shared.bond { my_subscriptions = (100, true) ∷ [] } }

announce_route_lem_example :
    ((announce_route env 100 dest hop node).1 ≡ (
      if announced node 100 dest hop
      then some (table nexthop_already_exists)
      else if all_up node.bond.peers node
      then none
      else some not_established))
    × (announced (announce_route env 100 dest hop node).0 100 dest hop ≡ (
        same_route {R = PeerRef} 100 dest hop none 100 dest hop none
        || announced node 100 dest hop))
announce_route_lem_example = announce_route_lem env 100 dest hop node 100 dest hop route_packed

withdraw_route_lem_example :
    (announced (withdraw_route env 100 dest hop node).0 100 dest hop ≡ (
      not (same_route {R = PeerRef} 100 dest hop none 100 dest hop none)
      && announced node 100 dest hop))
    × ((withdraw_route env 100 dest hop node).0.bond.route_table ≡ node.bond.route_table)
    × ((withdraw_route env 100 dest hop node).0.client ≡ node.client)
withdraw_route_lem_example = withdraw_route_lem env 100 dest hop node 100 dest hop

bond_unsubscribe_lem_example :
    (routed (bond_unsubscribe env 100 asked).0 100 dest hop 1 ≡ (
      not
        (is_subscribed 100 asked && (same {A = ℕ} 100 100 && contains (values asked.bond.peers) 1))
      && routed asked 100 dest hop 1))
    × ((bond_unsubscribe env 100 asked).0.client ≡ asked.client)
    × (is_subscribed 100 (bond_unsubscribe env 100 asked).0
        ≡ (not (same {A = ℕ} 100 100) && is_subscribed 100 asked))
bond_unsubscribe_lem_example = bond_unsubscribe_lem env 100 100 dest hop 1 asked

bond_subscribe_lem_example :
    (is_subscribed 200 (bond_subscribe env 200 node).0
      ≡ (same {A = ℕ} 200 200 || is_subscribed 200 node))
    × ((bond_subscribe env 200 (bond_subscribe env 200 node).0).1 ≡ some vni_already_subscribed)
bond_subscribe_lem_example = bond_subscribe_lem env 200 200 node

-- the same node once its peers subscribed to the VNI
abbrev served : Node Bytes TestPrefix (Unit {0})
served = record asked { peer = λ q. record (asked.peer q) { subscribed_vnis = (100, true) ∷ [] } }

is_subscribed-cleanup_example :
    is_subscribed 100 (cleanup env 1 served)
    ≡ (not (contains (keys (served.peer 1).subscribed_vnis) 100) && is_subscribed 100 served)
is_subscribed-cleanup_example = is_subscribed-cleanup env 1 100 served
