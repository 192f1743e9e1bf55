-- ===== src/Examples/Runs.antt =====
-- metalbond.go and peer.go: a node that takes up a connection and a route of the new peer.
use metalbond.Base.{
  ◌++◌, arith, ◌<◌, ℕ, ◌≡◌, Bool, true, false, some, none, contains, ◌&&◌, List, [], ◌∷◌, refl,
  nat_comparable,
}
use metalbond.Types.{
  Message, Destination, NextHop, add, incoming, outgoing, established, destination_comparable,
  next_hop_comparable, MsgHello, hello, keepalive, state_comparable,
}
use metalbond.Bond.{Node, PeerRef, peer_ref_comparable, keepalive_loop, rx_loop, tx_loop}
use metalbond.Bond.Cleanup.{cleanup}
use metalbond.Bond.Lifecycle.{send_keepalive, connected, new_metal_bond, new_peer, accept_peer}
use metalbond.Bond.Session.{handle_message}
use metalbond.Bond.Routing.{routed}
use metalbond.Bond.Frame.{IsBacked, holds}
use metalbond.Bond.Cleaned.{routed-cleanup}
use metalbond.Bond.Steps.{IsNew, Reachable, begins, steps, accepts, received, Reachable-IsBacked}
use metalbond.Http.{entry, get_json_routes, get_json_routes_lem}
use metalbond.RouteTable.Own.{IsOwn, add_next_hop-IsOwn, new_route_table-IsOwn}
use metalbond.RouteTable.{RouteTable, new_route_table, add_next_hop, get_nexthops_by_destination}
use metalbond.RouteTable.Refinement.{Call, adds, removes, asks, run, run_set, Holds, run-RouteSet}
use metalbond.Examples.Hosts.{test_netip, Bytes, TestPrefix, bytes_comparable, prefix_comparable}
use metalbond.Bond.Handshake.{lower}
use metalbond.Wire.Serialize.{ok}
use metalbond.Wire.Packet.{bytes_read, packet_of}
use metalbond.Bond.Sends.{Waits}
use metalbond.Examples.Codecs.{test_proto, flag}
use metalbond.Bond.Connect.{sent_response}
use metalbond.Bond.Relay.{hear}
use metalbond.Bond.Wired.{client_done, server_done, handshake_completes}
use metalbond.Client.{dummy_client}
use metalbond.Examples.Bonds.{env, dest, hop, node}

abbrev pub blank : Node Bytes TestPrefix (Unit {0})
blank = record {
  bond = new_metal_bond 0;
  peer = λ q. new_peer 0 5 incoming;
  client = tt;
  spawned = [];
}

abbrev pub opened_up : Node Bytes TestPrefix (Unit {0})
opened_up = accept_peer 0 1000 blank

abbrev pub told : Node Bytes TestPrefix (Unit {0})
told =
    handle_message env 0
      (Message.update (record { action = add; vni = 100; destination = dest; next_hop = hop }))
      opened_up

opened_view : Unit {0}
unfolding metalbond.RouteTable.find metalbond.Base.Map.Nested.at metalbond.Base.Map.get
    metalbond.Bond.Lifecycle.new_metal_bond metalbond.Bond.Lifecycle.accept_peer
    metalbond.Bond.Lifecycle.register_peer metalbond.Bond.Lifecycle.new_peer
    metalbond.RouteTable.new_route_table
opened_view = tt

pub blank-IsNew : IsNew 0 blank
unfolding opened_view
blank-IsNew = record { bond = refl; peer = λ p. refl; spawned = refl }

pub told-Reachable : Reachable env told
unfolding opened_view
told-Reachable =
    steps (steps (begins blank-IsNew) (accepts 0 1000 (λ vni d h. refl))) (received 0 _)

Reachable-IsBacked_example : IsBacked told
Reachable-IsBacked_example = Reachable-IsBacked env told-Reachable

routed-cleanup_example :
    (routed (cleanup env 0 told) 100 dest hop 0 ≡ false)
    × (holds (cleanup env 0 told) 100 dest hop 0 ≡ false)
routed-cleanup_example = routed-cleanup env 0 told 100 dest hop Reachable-IsBacked_example

-- a client that opens a connection, with the interval 3, to the node of Examples/Bonds
abbrev opener : Node Bytes TestPrefix (Unit {0})
opener = record {
  bond = new_metal_bond 3;
  peer = λ q. new_peer 1000 3 outgoing;
  client = tt;
  spawned = [];
}

abbrev hello_packet : MsgHello → Bytes
hello_packet m = 1 ∷ 0 ∷ 2 ∷ 1 ∷ m.keepalive_interval ∷ flag m.is_server ∷ []

hello_packed : (m : MsgHello) → packet_of env.net env.proto (hello m) ≡ ok (hello_packet m)
unfolding metalbond.Examples.Messages.run
hello_packed m = refl

abbrev beat : Bytes
beat = 1 ∷ 0 ∷ 0 ∷ 2 ∷ []

keepalive_packed : packet_of env.net env.proto keepalive ≡ ok beat
unfolding metalbond.Examples.Messages.run
keepalive_packed = refl

-- the answer of the server says that it is one, and the buffers have a byte behind each packet
abbrev hello_bytes : Bytes
hello_bytes = hello_packet (record { keepalive_interval = 3; is_server = false })

abbrev answer_bytes : Bytes
answer_bytes = hello_packet (sent_response env env 7 2 opener node)

abbrev client_end : Node Bytes TestPrefix (Unit {0})
client_end =
    client_done test_netip test_proto dummy_client dummy_client 7 2 opener node hello_bytes
      answer_bytes beat (0 ∷ []) (0 ∷ []) (0 ∷ []) (0 ∷ [])

abbrev server_end : Node Bytes TestPrefix (Unit {0})
server_end =
    server_done test_netip test_proto dummy_client dummy_client 7 2 opener node hello_bytes
      answer_bytes beat (0 ∷ []) (0 ∷ []) (0 ∷ []) (0 ∷ [])

handshake_completes_example :
    ((client_end.peer 7).state ≡ established)
    × ((server_end.peer 2).state ≡ established)
    × ((client_end.peer 7).keepalive_interval ≡ lower 3 5)
    × ((server_end.peer 2).keepalive_interval ≡ lower 3 5)
    × (client_end.spawned ≡ keepalive_loop 7 ∷ tx_loop 7 ∷ rx_loop 7 ∷ opener.spawned)
    × (server_end.spawned ≡ keepalive_loop 2 ∷ node.spawned)
    × Waits hello_bytes ((connected env 7 opener).peer 7).tx_chan
    × Waits answer_bytes ((hear env 2 (hello_bytes ++ 0 ∷ []) (bytes_read 6) node).peer 2).tx_chan
    × Waits beat
        ((send_keepalive env 7
            (hear env 7 (answer_bytes ++ 0 ∷ []) (bytes_read 6) (connected env 7 opener))).peer
          7).tx_chan
    × Waits beat (server_end.peer 2).tx_chan
unfolding opened_view metalbond.Types.ConnectionState-discrete
handshake_completes_example =
    handshake_completes test_netip test_proto dummy_client dummy_client 7 2 opener node hello_bytes
      answer_bytes beat (0 ∷ []) (0 ∷ []) (0 ∷ []) (0 ∷ []) refl refl refl refl refl refl
      (hello_packed _) (hello_packed _) keepalive_packed (omega arith) (omega arith) (omega arith)
      (omega arith)

-- a route that is added twice, asked about and taken back
abbrev calls : List (Call (Destination TestPrefix) (NextHop Bytes) PeerRef)
calls =
    adds 100 dest hop (some 0)
    ∷ adds 100 dest hop (some 0)
    ∷ asks 100 dest hop (some 1)
    ∷ removes 100 dest hop (some 0)
    ∷ []

run-RouteSet_example :
    Holds (run calls new_route_table).0 (run_set calls (λ v d n r. false)).0
    × ((run calls new_route_table).1 ≡ (run_set calls (λ v d n r. false)).1)
run-RouteSet_example = run-RouteSet calls

-- a table with one route
abbrev one_route : RouteTable (Destination TestPrefix) (NextHop Bytes) PeerRef
one_route = (add_next_hop new_route_table 100 dest hop (some 0)).0

one_route-IsOwn : IsOwn (some 0) one_route
one_route-IsOwn = add_next_hop-IsOwn (some 0) _ 100 dest hop (new_route_table-IsOwn (some 0))

get_json_routes_lem_example :
    contains (entry (entry (get_json_routes (λ x y. true) one_route) 100) dest) hop
    ≡ contains (get_nexthops_by_destination one_route 100 dest) hop
get_json_routes_lem_example =
    get_json_routes_lem one_route (λ x y. true) 100 dest hop one_route-IsOwn.maps

-- the route stands in both tables
told-routed : (routed told 100 dest hop 0 && holds told 100 dest hop 0) ≡ true
unfolding opened_view handle_message metalbond.Bond.Session.process_rx_update
    metalbond.Bond.Session.receive_add add_next_hop metalbond.RouteTable.ensure_path
    metalbond.RouteTable.insert_next_hop metalbond.Bond.Received.add_received_route
    metalbond.Bond.Received.spread_route metalbond.Bond.Received.client_add
    metalbond.Bond.Received.set_route_table metalbond.Bond.set_peer
    metalbond.Bond.Distribute.distribute_route_to_peers
    metalbond.Bond.Distribute.send_to_subscribers get_nexthops_by_destination
    metalbond.Base.Map.Nested.ensure metalbond.Base.Map.Nested.update metalbond.Base.Map.put
    metalbond.Base.Map.delete metalbond.Base.ℕ_discrete metalbond.Types.Destination-discrete
    metalbond.Types.IpVersion-discrete metalbond.Examples.Hosts.TestPrefix-discrete
    metalbond.Examples.Hosts.Bytes-discrete metalbond.Types.NextHop-discrete
    metalbond.Types.NextHopType-discrete metalbond.Bond.PeerRef-discrete metalbond.Bond.start
told-routed = refl
