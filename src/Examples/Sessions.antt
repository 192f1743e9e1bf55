-- ===== src/Examples/Sessions.antt =====
-- metalbond.go and peer.go: the theorems on received routes and on sessions, at the node of
-- Examples/Bonds and at one whose table has a route from two peers.
use metalbond.Base.{
  zero, suc, ◌≡◌, Bool, true, false, some, none, [], ◌∷◌, not, ◌&&◌, ◌||◌, refl, same,
  if◌then◌else◌, nat_comparable, ◌==◌,
}
use metalbond.Types.{
  standard, add, Message, MsgUpdate, MsgHello, destination_comparable, next_hop_comparable,
  hello_sent, hello_received, established, retry,
}
use metalbond.RouteTable.Effects.{same_route}
use metalbond.Bond.{Node, PeerRef, peer_ref_comparable, keepalive_loop, reset_loop}
use metalbond.Bond.Received.{add_received_route, remove_received_route}
use metalbond.Bond.Announce.{is_route_announced}
use metalbond.Bond.Send.{is_incoming}
use metalbond.Bond.State.{set_state}
use metalbond.Bond.Session.{process_rx_hello, process_rx_keepalive, keepalive_loop_crashes}
use metalbond.Bond.Routing.{
  routed, takes, add_received_route_lem, remove_received_route_lem,
  add_received_route-is_route_announced,
}
use metalbond.Bond.Frame.{subscribed}
use metalbond.Bond.Handshake.{
  accepts, lower, process_rx_keepalive_lem, process_rx_hello_lem,
  keepalive_loop_crashes-process_rx_hello,
}
use metalbond.Bond.Subscribers.{subscribed-set_state}
use metalbond.Examples.Hosts.{Bytes, TestPrefix, bytes_comparable, prefix_comparable}
use metalbond.Examples.Bonds.{env, dest, hop, bond, node}

run : Unit {0}
unfolding metalbond.RouteTable.find metalbond.Base.Map.Nested.at metalbond.Base.Map.get
    metalbond.Base.ℕ_discrete metalbond.Types.Destination-discrete
    metalbond.Types.IpVersion-discrete metalbond.Examples.Hosts.TestPrefix-discrete
    metalbond.Examples.Hosts.Bytes-discrete metalbond.Types.NextHop-discrete
    metalbond.Types.NextHopType-discrete metalbond.Bond.PeerRef-discrete
    metalbond.Types.ConnectionState-discrete
run = tt

-- the route came from the peers 0 and 1
abbrev pub shared : Node Bytes TestPrefix (Unit {0})
shared = record node {
  bond = record bond {
    route_table = (100, (dest, (hop, (some 0, true) ∷ (some 1, true) ∷ []) ∷ []) ∷ []) ∷ [];
  };
}

add_received_route_lem_example :
    (routed (add_received_route env 0 100 dest hop node).0 100 dest hop 0 ≡ (
      (takes env 0 100 dest hop node
        && same_route {R = PeerRef} 100 dest hop (some 0) 100 dest hop (some 0))
      || routed node 100 dest hop 0))
    × ((add_received_route env 0 100 dest hop node).0.client ≡ (
        if takes env 0 100 dest hop node
        then (env.client.add_route 100 dest hop node.client).0
        else node.client))
add_received_route_lem_example = add_received_route_lem env 0 100 dest hop node 100 dest hop 0

remove_received_route_lem_example :
    (routed (remove_received_route env 0 100 dest hop shared).0 100 dest hop 1 ≡ (
      not (same_route {R = PeerRef} 100 dest hop (some 0) 100 dest hop (some 1))
      && routed shared 100 dest hop 1))
    × ((remove_received_route env 0 100 dest hop shared).0.client ≡ (
        if routed shared 100 dest hop 0
        then (env.client.remove_route 100 dest hop shared.client).0
        else shared.client))
remove_received_route_lem_example =
    remove_received_route_lem env 0 100 dest hop shared 100 dest hop 1

add_received_route-is_route_announced_example :
    add_received_route env 0 100 dest hop (is_route_announced 100 dest hop node).0
    ≡ ((is_route_announced 100 dest hop node).0, none)
add_received_route-is_route_announced_example =
    add_received_route-is_route_announced env 0 100 dest hop node hop refl

process_rx_keepalive_lem_example :
    (((process_rx_keepalive env 2 node).peer 2).state
      ≡ (if accepts env 2 node then established else (node.peer 2).state))
    × ((process_rx_keepalive env 2 node).spawned
        ≡ (if accepts env 2 node then node.spawned else reset_loop 2 ∷ node.spawned))
process_rx_keepalive_lem_example = process_rx_keepalive_lem env 2 node

abbrev no_interval : MsgHello
no_interval = record { keepalive_interval = 0; is_server = false }

process_rx_hello_lem_example :
    (((process_rx_hello env 2 no_interval node).peer 2).state
      ≡ (if is_incoming (node.peer 2).direction then hello_sent else hello_received))
    × (((process_rx_hello env 2 no_interval node).peer 2).keepalive_interval ≡ lower 0 5)
    × ((process_rx_hello env 2 no_interval node).spawned ≡ keepalive_loop 2 ∷ node.spawned)
unfolding run
process_rx_hello_lem_example = process_rx_hello_lem env 2 node no_interval refl

keepalive_loop_crashes-process_rx_hello_example :
    keepalive_loop_crashes 2 (process_rx_hello env 2 no_interval node) ≡ (0 == 0 || 5 == 0)
unfolding run
keepalive_loop_crashes-process_rx_hello_example =
    keepalive_loop_crashes-process_rx_hello env 2 node no_interval refl

subscribed-set_state_example : subscribed (set_state env 1 retry node) 100 1 ≡ false
unfolding run
subscribed-set_state_example = subscribed-set_state env 1 retry node 100 refl refl
