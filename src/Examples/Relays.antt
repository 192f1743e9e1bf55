-- ===== src/Examples/Relays.antt =====
-- metalbond.go and peer.go: a route on its way over a server with two clients.
use metalbond.Base.{
  ℕ, ◌≡◌, ◌<◌, Bool, true, false, not, ◌&&◌, ◌||◌, List, [], ◌∷◌, ◌++◌, refl, arith, some, contains,
  IsDistinct, same, if◌then◌else◌, nat_comparable,
}
use metalbond.Base.Map.{keys}
use metalbond.Base.Map.Nested.{at}
use metalbond.Types.{
  established, closed, retry, state_comparable, Destination, NextHop, destination_comparable,
  next_hop_comparable,
}
use metalbond.Client.{dummy_client}
use metalbond.Wire.Packet.{bytes_read}
use metalbond.Wire.RoundTrip.{IsSendable}
use metalbond.RouteTable.Own.{new_route_table-IsOwn}
use metalbond.Bond.{Node, peer_ref_comparable}
use metalbond.Bond.Announce.{announce_route}
use metalbond.Bond.Sends.{Waits}
use metalbond.Bond.Fanout.{tx}
use metalbond.Bond.Routing.{routed}
use metalbond.Bond.Frame.{IsBacked}
use metalbond.Bond.Relay.{added, hear}
use metalbond.Bond.Reflected.{CanHear, reflected_lem}
use metalbond.Examples.Hosts.{Bytes, TestPrefix, test_netip, bytes_comparable, prefix_comparable}
use metalbond.Examples.Codecs.{test_proto}
use metalbond.Examples.Bonds.{env, dest, hop, bond, node, fresh_peer, route_packet, route_packed}

run : Unit {0}
unfolding metalbond.RouteTable.find metalbond.Base.Map.Nested.at metalbond.Base.Map.get
    metalbond.Base.ℕ_discrete metalbond.Types.ConnectionState-discrete
    metalbond.RouteTable.get_nexthops_by_destination metalbond.RouteTable.new_route_table contains
    metalbond.Examples.Messages.run
run = tt

-- the server: both clients subscribed
abbrev hub : Node Bytes TestPrefix (Unit {0})
hub = record node {
  peer = fresh_peer established false;
  bond = record bond {
    subscribers = (100, (1, true) ∷ (2, true) ∷ []) ∷ [];
    peers = (1, 1) ∷ (2, 2) ∷ [];
  };
}

-- a client of the server
abbrev spoke : Node Bytes TestPrefix (Unit {0})
spoke = record node {
  peer = fresh_peer established true;
  bond = record bond { subscribers = []; peers = (7, 7) ∷ []; is_server = false };
}

hub-IsBacked : IsBacked hub
unfolding run
hub-IsBacked = record { backed = λ v d h p e. cc; own = λ p. new_route_table-IsOwn (some p) }

spoke-IsBacked : IsBacked spoke
unfolding run
spoke-IsBacked = record { backed = λ v d h p e. cc; own = λ p. new_route_table-IsOwn (some p) }

sent-IsSendable : IsSendable test_netip (added 100 dest hop)
unfolding run
sent-IsSendable = record {
  bits = 24;
  has_bits = refl;
  valid = refl;
  no_zone = refl;
  from_word = omega arith;
  to_word = omega arith;
  no_ports = λ e. (refl, refl);
}

hub-CanHear : CanHear 100 dest hop env 1 hub
unfolding run
hub-CanHear = record {
  is_open = refl;
  in_step = hub-IsBacked;
  is_new = refl;
  wanted = refl;
  distinct = (refl, (refl, tt));
}

spoke-CanHear : CanHear 100 dest hop env 7 spoke
unfolding run
spoke-CanHear = record {
  is_open = refl;
  in_step = spoke-IsBacked;
  is_new = refl;
  wanted = refl;
  distinct = tt;
}

reflected_lem_example :
    Waits route_packet (tx (announce_route env 100 dest hop spoke).0 7)
    × Waits route_packet (tx (hear env 1 (route_packet ++ 0 ∷ []) (bytes_read 23) hub) 2)
    × (routed (hear env 7 (route_packet ++ 9 ∷ []) (bytes_read 23) spoke) 100 dest hop 7 ≡ true)
    × ((hear env 7 (route_packet ++ 9 ∷ []) (bytes_read 23) spoke).client
        ≡ (env.client.add_route 100 dest hop spoke.client).0)
unfolding run
reflected_lem_example =
    reflected_lem test_netip test_proto dummy_client dummy_client dummy_client 100 dest hop 7 1 2 7
      spoke hub spoke (0 ∷ []) (9 ∷ []) route_packed sent-IsSendable (omega arith) (omega arith)
      refl refl refl hub-CanHear refl refl refl spoke-CanHear
