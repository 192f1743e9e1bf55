-- ===== src/ArpSpoofer.antt =====
-- extras/arp_spoofer: a program that answers the ARP requests for the addresses of one network with
-- the hardware address of its interface. Network is what it uses of Go's `net`, Program its `main`.
pub mod Network
pub mod Prefixes
pub mod Program
pub mod Replies
use metalbond.Base.{ℕ, Bool, true, not, Option, none, some, List, [], ◌∷◌, ◌==◌, if◌then◌else◌}
use metalbond.ArpSpoofer.Network.{Bytes, IpNet, contains_ip}

-- `layers.ARP` and `layers.Ethernet` of gopacket, as far as the program sets and reads them
pub record Arp : Type 0 where
  pub addr_type : ℕ
  pub protocol : ℕ
  pub hw_address_size : ℕ
  pub prot_address_size : ℕ
  pub operation : ℕ
  pub source_hw_address : Bytes
  pub source_prot_address : Bytes
  pub dst_hw_address : Bytes
  pub dst_prot_address : Bytes

pub record Ethernet : Type 0 where
  pub src_mac : Bytes
  pub dst_mac : Bytes
  pub ethernet_type : ℕ

-- `layers.ARPRequest`, `layers.ARPReply` and `layers.EthernetTypeARP`
abbrev pub arp_request : ℕ
arp_request = 1

abbrev pub arp_reply : ℕ
arp_reply = 2

abbrev pub ethernet_type_arp : ℕ
ethernet_type_arp = 0x0806

-- What is asked of gopacket: `SerializeLayers`, which may fail, and `WritePacketData` and `Close` of
-- the handle, whose state is `S`; a write says whether it failed.
pub record Pcap (S : Type 0) : Type 0 where
  pub serialize_layers : Ethernet → Arp → Option Bytes
  pub write_packet_data : Bytes → S → S × Bool
  pub close : S → S

-- `ARPSpoofer`; its handle is the state
pub record Spoofer : Type 0 where
  pub mac : Bytes
  pub ip_network : IpNet

-- What `select` receives: a stop signal, a packet with its ARP layer if it has one, or the nil that
-- the closed channel of packets gives.
pub data Event : Type 0 where
  stop : Event
  packet : Option Arp → Event
  no_packet : Event

-- The loop of `Start` has ended, has panicked at a nil packet, or waits for the next event.
pub data LoopState : Type 0 where
  ended panicked waiting : LoopState

module _ {S : Type 0} (pcap : Pcap S) (spoofer : Spoofer) where
  -- the reply, from its two layers on; an error is logged
  unfoldable pub send_reply : Arp → S → S
  send_reply arp s =
      let eth : Ethernet = record {
        src_mac = spoofer.mac;
        dst_mac = arp.source_hw_address;
        ethernet_type = ethernet_type_arp;
      } in
      let reply : Arp = record {
        addr_type = arp.addr_type;
        protocol = arp.protocol;
        hw_address_size = arp.hw_address_size;
        prot_address_size = arp.prot_address_size;
        operation = arp_reply;
        source_hw_address = spoofer.mac;
        source_prot_address = arp.dst_prot_address;
        dst_hw_address = arp.source_hw_address;
        dst_prot_address = arp.source_prot_address;
      } in
      elim (pcap.serialize_layers eth reply) [
        | none ↦ s
        | some bytes ↦ (pcap.write_packet_data bytes s).0
      ]

  unfoldable pub handle_packet : Option Arp → S → S
  handle_packet none s = s
  handle_packet (some arp) s =
      if not (arp.operation == arp_request)
      then s
      else if not (contains_ip spoofer.ip_network arp.dst_prot_address)
      then s
      else send_reply arp s

  -- The goroutine of `Start`, at these events. Its deferred `Close` runs at its end and at a panic.
  unfoldable pub run_spoofer : List Event → S → S × LoopState
  run_spoofer [] s = (s, waiting)
  run_spoofer (stop ∷ events) s = (pcap.close s, ended)
  run_spoofer (no_packet ∷ events) s = (pcap.close s, panicked)
  run_spoofer (packet p ∷ events) s = run_spoofer events (handle_packet p s)
