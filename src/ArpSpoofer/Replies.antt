-- ===== src/ArpSpoofer/Replies.antt =====
-- extras/arp_spoofer: which packets the loop answers, and with what.
use metalbond.Base.{
  ℕ, ◌≡◌, refl, arith, Bool, ◌&&◌, none, some, List, [], ◌∷◌, length, ◌==◌, if◌then◌else◌,
}
use metalbond.ArpSpoofer.Network.{Bytes, network_of, to4}
use metalbond.ArpSpoofer.Prefixes.{AllBytes, has_bits, contains_ip-prefix}
use metalbond.ArpSpoofer.{
  Arp, Pcap, Spoofer, Event, stop, packet, no_packet, LoopState, ended, panicked, waiting,
  send_reply, handle_packet, run_spoofer,
}

-- the ARP layers of the packets that come before the loop ends
unfoldable pub arps_before_end : List Event → List Arp
arps_before_end [] = []
arps_before_end (stop ∷ events) = []
arps_before_end (no_packet ∷ events) = []
arps_before_end (packet none ∷ events) = arps_before_end events
arps_before_end (packet (some arp) ∷ events) = arp ∷ arps_before_end events

-- how the loop ends, and what it does to the handle then
unfoldable pub ending : List Event → LoopState
ending [] = waiting
ending (stop ∷ events) = ended
ending (no_packet ∷ events) = panicked
ending (packet p ∷ events) = ending events

-- the target addresses are of bytes
abbrev pub AllTargets : List Arp → Type 0
AllTargets [] = Unit
AllTargets (arp ∷ arps) = AllBytes arp.dst_prot_address × AllTargets arps

-- The reply of RFC 826: sender and target change places, the sender's hardware address is this one,
-- and the operation is a reply.
abbrev pub reply_to : Bytes → Arp → Arp
reply_to mac arp = record arp {
  operation = 2;
  source_hw_address = mac;
  source_prot_address = arp.dst_prot_address;
  dst_hw_address = arp.source_hw_address;
  dst_prot_address = arp.source_prot_address;
}

-- a request for an address whose first bits are these
abbrev pub is_asked : Bytes → ℕ → Arp → Bool
is_asked addr ones arp = arp.operation == 1 && has_bits addr ones (to4 arp.dst_prot_address)

module _ {S : Type 0} (pcap : Pcap S) (mac : Bytes) where
  -- the reply goes out to the asker, as far as it can be made a frame
  unfoldable pub write_reply : Arp → S → S
  write_reply arp s =
      elim (pcap.serialize_layers
        (record { src_mac = mac; dst_mac = arp.source_hw_address; ethernet_type = 2054 })
        (reply_to mac arp)) [ none ↦ s | some bytes ↦ (pcap.write_packet_data bytes s).0 ]

  -- one reply for each of these that is asked for
  unfoldable pub write_replies : Bytes → ℕ → List Arp → S → S
  write_replies addr ones [] s = s
  write_replies addr ones (arp ∷ arps) s =
      write_replies addr ones arps (if is_asked addr ones arp then write_reply arp s else s)

  abbrev pub close_if : LoopState → S → S
  close_if ended s = pcap.close s
  close_if panicked s = pcap.close s
  close_if waiting s = s

  handle_packet-none : (spoofer : Spoofer) (s : S) → handle_packet pcap spoofer none s ≡ s
  unfolding handle_packet
  handle_packet-none spoofer s = refl

  handle_packet_lem :
      (addr : Bytes) (ones : ℕ) (arp : Arp) (s : S)
      → length addr ≡ 4
      → AllBytes addr
      → AllBytes arp.dst_prot_address
      → handle_packet pcap (record { mac = mac; ip_network = network_of addr ones }) (some arp) s
        ≡ (if is_asked addr ones arp then write_reply arp s else s)
  unfolding handle_packet send_reply write_reply
  handle_packet_lem addr ones arp s e h k =
      ground (arith, contains_ip-prefix addr arp.dst_prot_address ones)

  -- The program writes a reply for each ARP request before its stop that asks for an address whose
  -- first bits are those of its prefix, in their order, and writes nothing else; the reply goes to the asker, with
  -- sender and target exchanged and the hardware address of the interface. It ends at the
  -- stop, panics at the end of the packets, and closes its handle in both cases.
  pub run_spoofer_lem :
      (addr : Bytes) (ones : ℕ) (events : List Event) (s : S)
      → length addr ≡ 4
      → AllBytes addr
      → AllTargets (arps_before_end events)
      → run_spoofer pcap (record { mac = mac; ip_network = network_of addr ones }) events s ≡ (
        close_if (ending events) (write_replies addr ones (arps_before_end events) s),
        ending events,
      )
  unfolding run_spoofer write_replies arps_before_end ending
  run_spoofer_lem addr ones [] s e h k = refl
  run_spoofer_lem addr ones (stop ∷ events) s e h k = refl
  run_spoofer_lem addr ones (no_packet ∷ events) s e h k = refl
  run_spoofer_lem addr ones (packet none ∷ events) s e h k =
      rw handle_packet-none (run_spoofer_lem addr ones events s e h k)
  run_spoofer_lem addr ones (packet (some arp) ∷ events) s e h k =
      rw (handle_packet_lem addr ones arp s e h k.0) (run_spoofer_lem addr ones events _ e h k.1)
