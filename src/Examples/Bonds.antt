-- ===== src/Examples/Bonds.antt =====
-- metalbond.go and peer.go at a node with three peers: a server that announced a route, a connected
-- subscriber, and a subscriber that is still shaking hands.
use metalbond.Base.{
  ℕ, zero, suc, ◌≡◌, Bool, true, false, some, none, [], ◌∷◌, ◌++◌, contains, not, ◌&&◌, refl,
  if◌then◌else◌, nat_comparable,
}
use metalbond.Base.Map.{keys}
use metalbond.Base.Map.Nested.{at}
use metalbond.Types.{
  ipv4, standard, add, Destination, NextHop, Message, ConnectionState, hello_sent, established,
  incoming,
}
use metalbond.Wire.Serialize.{ok}
use metalbond.Wire.Packet.{packet_of}
use metalbond.Client.{dummy_client}
use metalbond.Bond.{unset, Node, Env, Peer, MetalBond, PeerId}
use metalbond.Bond.Distribute.{distribute_route_to_peers, passed_over}
use metalbond.Bond.Fanout.{tx, is_up, tx-distribute}
use metalbond.Examples.Hosts.{Bytes, TestPrefix, test_netip, bytes_comparable, prefix_comparable}
use metalbond.Examples.Codecs.{test_proto}

abbrev pub env : Env Bytes TestPrefix (Unit {0})
env = record { net = test_netip; proto = test_proto; client = dummy_client }

abbrev pub dest : Destination TestPrefix
dest = record { ip_version = ipv4; prefix = (10 ∷ 0 ∷ 0 ∷ 0 ∷ [], 24) }

abbrev pub hop : NextHop Bytes
hop = record {
  target_address = 10 ∷ 9 ∷ 8 ∷ 7 ∷ [];
  target_vni = 0;
  hop_type = standard;
  nat_port_range_from = 0;
  nat_port_range_to = 0;
}

abbrev pub fresh_peer : ConnectionState → Bool → ℕ → Peer Bytes TestPrefix
fresh_peer s server addr = record {
  remote_addr = addr;
  direction = incoming;
  is_server = server;
  state = s;
  received_routes = [];
  subscribed_vnis = [];
  keepalive_interval = 5;
  tx_chan = [];
  tx_chan_close = 0;
  shutdown = 0;
  keepalive_stop = 0;
}

abbrev pub heap : PeerId → Peer Bytes TestPrefix
heap zero = fresh_peer established true 1000
heap (suc zero) = fresh_peer established false 1001
heap (suc (suc p)) = fresh_peer hello_sent false 1002

abbrev pub bond : MetalBond Bytes TestPrefix
bond = record {
  route_table = [];
  my_announcements = [];
  my_subscriptions = [];
  subscribers = (100, (0, true) ∷ (1, true) ∷ (2, true) ∷ []) ∷ [];
  subscribers_locked = false;
  peers = (1000, 0) ∷ (1001, 1) ∷ (1002, 2) ∷ [];
  keepalive_interval = 5;
  is_server = true;
  shutting_down = false;
  lis = unset;
}

abbrev pub node : Node Bytes TestPrefix (Unit {0})
node = record { bond = bond; peer = heap; client = tt; spawned = [] }

run : Unit {0}
unfolding metalbond.Examples.Messages.run
run = tt

abbrev pub route_packet : Bytes
route_packet =
    1 ∷ 0 ∷ 19 ∷ 5 ∷ 0 ∷ 100 ∷ 1 ∷ 0 ∷ 24 ∷ 4 ∷ 10 ∷ 0 ∷ 0 ∷ 0 ∷ 1 ∷ 0 ∷ 0 ∷ 0 ∷ 0 ∷ 10 ∷ 9 ∷ 8 ∷ 7
    ∷ []

pub route_packed :
    packet_of env.net env.proto
      (Message.update (record { action = add; vni = 100; destination = dest; next_hop = hop }))
    ≡ ok route_packet
unfolding run
route_packed = refl

tx-distribute_example : tx (distribute_route_to_peers env add 100 dest hop (some 0) node).0 1 ≡ (
    if (contains (keys (at node.bond.subscribers 100)) 1 && not (passed_over env 0 1 node))
      && is_up node 1
    then tx node 1 ++ route_packet ∷ []
    else tx node 1)
unfolding at metalbond.Base.Map.get metalbond.Base.ℕ_discrete contains
tx-distribute_example =
    tx-distribute env add 100 dest hop 0 1 node route_packed (refl, (refl, (refl, tt)))
