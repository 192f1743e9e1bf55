-- ===== src/Examples/Messages.antt =====
-- types.go and peer.go at concrete messages.
use metalbond.Base.{◌≡◌, ◌↔◌, true, some, none, [], ◌∷◌, ◌++◌, refl, arith, map}
use metalbond.Types.{
  ipv4, ipv6, standard, nat, loadbalancer_target, add, MsgHello, MsgUpdate, Message, Destination,
  ConnectionState, hello_sent, closed, retry, state_comparable,
}
use metalbond.Wire.Library.{PbUpdate, pb_add, pb_ipv4}
use metalbond.Wire.Serialize.{
  ok, crash, serialize, serialize_hello, serialize_update, deserialize_hello,
  deserialize_subscription, deserialize_update, destination_of, next_hop_of, pb_update_of, checked,
  pb_action_of, pb_version_of,
}
use metalbond.Wire.RoundTrip.{IsSendable, deserialize_update-serialize}
use metalbond.Wire.Packet.{
  packet_of, header, parse_packets, parse_packet, parse_v1, parse_message, rx_round, bytes_read,
  read_on, stopped,
}
use metalbond.Wire.Stream.{received, all_packets, rx_round-all_packets}
use metalbond.Wire.Rejects.{deserialize_update_crash}
use metalbond.Examples.Hosts.{Bytes, TestPrefix, test_netip}
use metalbond.Examples.Codecs.{test_proto}

unfoldable pub run : Unit {0}
unfolding serialize packet_of header all_packets parse_packets parse_packet parse_v1 parse_message
    rx_round checked serialize_update serialize_hello pb_update_of pb_action_of pb_version_of
    deserialize_hello deserialize_subscription deserialize_update destination_of next_hop_of
    metalbond.Types.ConnectionState-discrete
run = tt

abbrev server_hello : MsgHello
server_hello = record { keepalive_interval = 5; is_server = true }

abbrev route : MsgUpdate Bytes TestPrefix
route = record {
  action = add;
  vni = 100;
  destination = record { ip_version = ipv4; prefix = (10 ∷ 0 ∷ 0 ∷ 0 ∷ [], 24) };
  next_hop = record {
    target_address = 32 ∷ 1 ∷ 13 ∷ 184 ∷ 0 ∷ 0 ∷ 0 ∷ 0 ∷ 0 ∷ 0 ∷ 0 ∷ 0 ∷ 0 ∷ 0 ∷ 0 ∷ 1 ∷ [];
    target_vni = 0;
    hop_type = nat;
    nat_port_range_from = 1024;
    nat_port_range_to = 2047;
  };
}

route-IsSendable : IsSendable test_netip route
route-IsSendable = record {
  bits = 24;
  has_bits = refl;
  valid = refl;
  no_zone = refl;
  from_word = omega arith;
  to_word = omega arith;
  no_ports = λ e. cc;
}

abbrev route_bytes : Bytes
route_bytes =
    0 ∷ 100 ∷ 1 ∷ 0 ∷ 24 ∷ 4 ∷ 10 ∷ 0 ∷ 0 ∷ 0 ∷ 1 ∷ 0 ∷ 1 ∷ 1024 ∷ 2047
    ∷ route.next_hop.target_address

route_serialized : serialize_update test_netip test_proto route ≡ ok route_bytes
unfolding run
route_serialized = refl

deserialize_update-serialize_example :
    deserialize_update test_netip test_proto route_bytes ≡ ok route
deserialize_update-serialize_example =
    deserialize_update-serialize test_netip test_proto route route_bytes route-IsSendable
      route_serialized

-- a KEEPALIVE and the HELLO of a server
abbrev stream : Bytes
stream = 1 ∷ 0 ∷ 0 ∷ 2 ∷ 1 ∷ 0 ∷ 2 ∷ 1 ∷ 5 ∷ 1 ∷ []

rx_round-all_packets_example :
    rx_round test_netip test_proto hello_sent (stream ++ 0 ∷ []) (bytes_read 10)
    ≡ (map received (Message.keepalive ∷ Message.hello server_hello ∷ []), read_on)
unfolding run
rx_round-all_packets_example =
    rx_round-all_packets test_netip test_proto hello_sent Message.keepalive
      (Message.hello server_hello ∷ []) stream (0 ∷ []) refl (tt, (tt, tt)) refl (omega arith)

-- a type that the protocol does not have ends the loop, and the peer is not reset
unknown_type :
    rx_round test_netip test_proto hello_sent (1 ∷ 0 ∷ 0 ∷ 9 ∷ 0 ∷ []) (bytes_read 4)
    ≡ ([], stopped)
unfolding run
unknown_type = refl

-- half of a packet, read alone, is read with what was left in the buffer
stale_bytes :
    rx_round test_netip test_proto hello_sent (1 ∷ 0 ∷ 1 ∷ 3 ∷ 77 ∷ 0 ∷ []) (bytes_read 4)
    ≡ (Message.subscribe 77 ∷ [], read_on)
unfolding run
stale_bytes = refl

-- an UPDATE without a next hop
abbrev no_hop : PbUpdate
no_hop = record {
  action = pb_add;
  vni = 100;
  destination =
      some (record { ip_version = pb_ipv4; prefix = 10 ∷ 0 ∷ 0 ∷ 0 ∷ []; prefix_length = 24 });
  next_hop = none;
}

deserialize_update_crash_example :
    (deserialize_update test_netip test_proto (0 ∷ 100 ∷ 1 ∷ 0 ∷ 24 ∷ 4 ∷ 10 ∷ 0 ∷ 0 ∷ 0 ∷ 0 ∷ [])
      ≡ crash)
    ↔ (((d : Destination TestPrefix) × (destination_of test_netip no_hop.destination ≡ ok d))
        × (no_hop.next_hop ≡ none))
deserialize_update_crash_example =
    deserialize_update_crash test_netip test_proto
      (0 ∷ 100 ∷ 1 ∷ 0 ∷ 24 ∷ 4 ∷ 10 ∷ 0 ∷ 0 ∷ 0 ∷ 0 ∷ []) no_hop refl
