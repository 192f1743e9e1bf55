-- ===== src/ArpSpoofer/Program.antt =====
-- extras/arp_spoofer/main.go, and `NewARPSpoofer`: the handle is opened and closed.
use metalbond.Base.{
  ℕ, ◌≡◌, refl, arith, Bool, true, false, ◌||◌, Option, none, some, List, [], ◌∷◌, if◌then◌else◌,
}
use metalbond.Base.Text.{Text}
use metalbond.ArpSpoofer.Network.{Bytes, network_of}
use metalbond.ArpSpoofer.{
  Arp, Pcap, Spoofer, Event, stop, packet, no_packet, LoopState, ended, panicked, waiting,
  send_reply, handle_packet, run_spoofer,
}

-- What the program is given: `net.ParseCIDR`, with the 4 or 16 bytes of the address and the length of
-- the prefix, the hardware address of an interface, and the handles of gopacket. A handle is open from
-- `OpenLive` to `Close`, and a write or a filter, failing or not, does not change that.
pub record Host (S : Type 0) : Type 0 where
  pub pcap : Pcap S
  pub parse_cidr : Text → Option (Bytes × ℕ)
  pub interface_by_name : Text → Option Bytes
  pub open_live : Text → S → Option S
  pub set_bpf_filter : S → S × Bool
  pub is_open : S → Bool
  pub is_open-close : (s : S) → is_open (pcap.close s) ≡ false
  pub is_open-write :
      (bytes : Bytes) (s : S) → is_open (pcap.write_packet_data bytes s).0 ≡ is_open s
  pub is_open-filter : (s : S) → is_open (set_bpf_filter s).0 ≡ is_open s

-- the errors of `NewARPSpoofer`
pub data SpooferError : Type 0 where
  invalid_prefix interface_not_found cannot_open cannot_filter : SpooferError

pub data Made : Type 0 where
  made : Spoofer → Made
  failed : SpooferError → Made

-- how `main` ends, or that it still runs
pub data Exit : Type 0 where
  shows_version nothing_given exits crashes runs : Exit
  fails : SpooferError → Exit

abbrev pub is_empty : Text → Bool
is_empty [] = true
is_empty (_ ∷ _) = false

unfoldable pub exit_of : LoopState → Exit
exit_of ended = exits
exit_of panicked = crashes
exit_of waiting = runs

module _ {S : Type 0} (host : Host S) where
  unfoldable pub new_arp_spoofer : Text → Text → S → S × Made
  new_arp_spoofer iface ip_prefix s = elim (host.parse_cidr ip_prefix) [
    | none ↦ (s, failed invalid_prefix)
    | some (addr, ones) ↦ elim (host.interface_by_name iface) [
      | none ↦ (s, failed interface_not_found)
      | some mac ↦ elim (host.open_live iface s) [
        | none ↦ (s, failed cannot_open)
        | some s' ↦
            let (filtered, is_bad) = host.set_bpf_filter s' in
            if is_bad
            then (host.pcap.close filtered, failed cannot_filter)
            else (filtered, made (record { mac = mac; ip_network = network_of addr ones }))
      ]
    ]
  ]

  -- the rest of `main` once the spoofer is made or not; the signal is the stop among the events
  unfoldable pub start_made : List Event → S × Made → S × Exit
  start_made events (s, failed e) = (s, fails e)
  start_made events (s, made spoofer) =
      let (s', how) = run_spoofer host.pcap spoofer events s in (s', exit_of how)

  -- `main`, with its flags `Version`, `Interface` and `IPPrefix`
  unfoldable pub arp_main : Bool → Text → Text → List Event → S → S × Exit
  arp_main version iface ip_prefix events s =
      if version
      then (s, shows_version)
      else if is_empty iface || is_empty ip_prefix
      then (s, nothing_given)
      else start_made events (new_arp_spoofer iface ip_prefix s)

  -- the program has ended in one of its own ways
  abbrev pub has_ended : Exit → Bool
  has_ended crashes = false
  has_ended runs = false
  has_ended _ = true

  handle_packet-is_open :
      (spoofer : Spoofer) (p : Option Arp) (s : S)
      → host.is_open (handle_packet host.pcap spoofer p s) ≡ host.is_open s
  unfolding handle_packet send_reply
  handle_packet-is_open spoofer none s = refl
  handle_packet-is_open spoofer (some arp) s = grind (arith, host.is_open-write)

  run_spoofer-is_open :
      (spoofer : Spoofer) (events : List Event) (s : S)
      → (run_spoofer host.pcap spoofer events s).1 ≡ ended
      → host.is_open (run_spoofer host.pcap spoofer events s).0 ≡ false
  unfolding run_spoofer
  run_spoofer-is_open spoofer [] s h = cc
  run_spoofer-is_open spoofer (stop ∷ events) s h = host.is_open-close s
  run_spoofer-is_open spoofer (no_packet ∷ events) s h = cc
  run_spoofer-is_open spoofer (packet p ∷ events) s h =
      run_spoofer-is_open spoofer events (handle_packet host.pcap spoofer p s) h

  -- an error leaves nothing open
  new_arp_spoofer-is_open :
      (iface ip_prefix : Text) (s : S) (e : SpooferError)
      → host.is_open s ≡ false
      → (new_arp_spoofer iface ip_prefix s).1 ≡ failed e
      → host.is_open (new_arp_spoofer iface ip_prefix s).0 ≡ false
  unfolding new_arp_spoofer
  new_arp_spoofer-is_open iface ip_prefix s e h k = grind (arith, host.is_open-close)

  start_made-is_open :
      (events : List Event) (s : S) (m : Made)
      → ((e : SpooferError) → m ≡ failed e → host.is_open s ≡ false)
      → has_ended (start_made events (s, m)).1 ≡ true
      → host.is_open (start_made events (s, m)).0 ≡ false
  unfolding start_made exit_of
  start_made-is_open events s (failed e) h k = h e refl
  start_made-is_open events s (made spoofer) h k =
      run_spoofer-is_open spoofer events s (ground arith)

  -- Whenever the program ends without a panic, also where it could not start, no handle is left open, if none was before.
  pub arp_main-is_open :
      (version : Bool) (iface ip_prefix : Text) (events : List Event) (s : S)
      → host.is_open s ≡ false
      → has_ended (arp_main version iface ip_prefix events s).1 ≡ true
      → host.is_open (arp_main version iface ip_prefix events s).0 ≡ false
  unfolding arp_main
  arp_main-is_open version iface ip_prefix events s h e =
      let (s', m) = new_arp_spoofer iface ip_prefix s in
      ground
        (arith, start_made-is_open events s' m (λ x. new_arp_spoofer-is_open iface ip_prefix s x h))
