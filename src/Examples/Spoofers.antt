-- ===== src/Examples/Spoofers.antt =====
-- extras/arp_spoofer: a spoofer of the network 10.0.0.0/8, whose handle keeps the frames that it wrote.
use metalbond.Base.{◌≡◌, refl, Bool, true, false, none, some, List, [], ◌∷◌, ◌++◌, arith}
use metalbond.ArpSpoofer.Network.{Bytes, network_of}
use metalbond.ArpSpoofer.Replies.{
  AllTargets, arps_before_end, ending, close_if, write_replies, run_spoofer_lem,
}
use metalbond.ArpSpoofer.{
  Arp, Ethernet, Pcap, Spoofer, Event, stop, packet, no_packet, run_spoofer, ended,
}

-- the handle is open or not, and has written these frames, the last one first
abbrev Handle : Type 0
Handle = Bool × List Bytes

-- a frame of the fields that the receiver reads
abbrev pcap : Pcap Handle
pcap = record {
  serialize_layers = λ eth arp.
      some (eth.dst_mac ++ (arp.operation ∷ arp.source_hw_address) ++ arp.source_prot_address);
  write_packet_data = λ bytes s. ((s.0, bytes ∷ s.1), false);
  close = λ s. (false, s.1);
}

abbrev mac : Bytes
mac = 2 ∷ 0 ∷ 0 ∷ 0 ∷ 0 ∷ 1 ∷ []

abbrev network : Bytes
network = 10 ∷ 0 ∷ 0 ∷ 0 ∷ []

-- a request of 10.9.9.9 for this address
abbrev request : Bytes → Arp
request target = record {
  addr_type = 1;
  protocol = 2048;
  hw_address_size = 6;
  prot_address_size = 4;
  operation = 1;
  source_hw_address = 2 ∷ 0 ∷ 0 ∷ 0 ∷ 0 ∷ 9 ∷ [];
  source_prot_address = 10 ∷ 9 ∷ 9 ∷ 9 ∷ [];
  dst_hw_address = 0 ∷ 0 ∷ 0 ∷ 0 ∷ 0 ∷ 0 ∷ [];
  dst_prot_address = target;
}

-- two requests, of which one is for an address outside, a packet without an ARP layer, the stop, and
-- a request after it
abbrev events : List Event
events =
    packet (some (request (10 ∷ 1 ∷ 2 ∷ 3 ∷ [])))
    ∷ (packet (some (request (11 ∷ 1 ∷ 2 ∷ 3 ∷ [])))
        ∷ (packet none ∷ (stop ∷ (packet (some (request (10 ∷ 1 ∷ 2 ∷ 4 ∷ []))) ∷ []))))

answered :
    run_spoofer pcap (record { mac = mac; ip_network = network_of network 8 }) events (true, [])
    ≡ ((false, ((2 ∷ 0 ∷ 0 ∷ 0 ∷ 0 ∷ 9 ∷ []) ++ (2 ∷ mac) ++ (10 ∷ 1 ∷ 2 ∷ 3 ∷ [])) ∷ []), ended)
unfolding run_spoofer metalbond.ArpSpoofer.handle_packet metalbond.ArpSpoofer.send_reply network_of
    metalbond.ArpSpoofer.Network.contains_ip metalbond.ArpSpoofer.Network.network_number_and_mask
    metalbond.ArpSpoofer.Network.to4 metalbond.ArpSpoofer.Network.cidr_mask
    metalbond.ArpSpoofer.Network.and_bytes metalbond.ArpSpoofer.Network.mask_for
    metalbond.ArpSpoofer.Network.equal_masked metalbond.ArpSpoofer.Network.or_else
answered = refl

events_targets : AllTargets (arps_before_end events)
unfolding arps_before_end
events_targets = omega arith

run_spoofer_lem_example :
    run_spoofer pcap (record { mac = mac; ip_network = network_of network 8 }) events (true, []) ≡ (
      close_if pcap mac
          (ending events)
          (write_replies pcap mac network 8 (arps_before_end events) (true, [])),
      ending events,
    )
run_spoofer_lem_example =
    run_spoofer_lem pcap mac network 8 events (true, []) refl (omega arith) events_targets
