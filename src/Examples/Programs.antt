-- ===== src/Examples/Programs.antt =====
-- cmd/metalbond/main.go: a client that installs the routes of VNI 100 in the table 7 of the kernel of
-- Examples/Cleanups.
use metalbond.Netlink.KernelRoutes.{slot_comparable}
use metalbond.Base.{
  none, some, map, false, ℕ, ◌≡◌, ◌≤◌, ◌+◌, ◌*◌, ◌⊎◌, refl, Bool, true, false, Option, none, some,
  List, [], ◌∷◌, length, contains, arith, map, is_some, nat_comparable,
}
use metalbond.Base.Map.{get}
use metalbond.Base.Text.{Text, codes}
use metalbond.Types.{Destination, NextHop, incoming, standard}
use metalbond.Bond.{Node, Peer, PeerId}
use metalbond.Bond.Subscriptions.{is_subscribed}
use metalbond.Bond.Announced.{announced}
use metalbond.Bond.Lifecycle.{new_peer}
use metalbond.CommandLine.{goes_on}
use metalbond.CommandLine.RoundTrip.{parse_announcement-print}
use metalbond.CommandLine.Running.{Reads, all_read, one_read, lists_route}
use metalbond.CommandLine.Wait.{
  Round, wait_for_peers, timed_out, up, IsLate, IsUp, second, wait_for_peers_lem,
}
use metalbond.CommandLine.Program.{
  AnyClient, netlink, new_node, choose_client, ClientFlags, client_env, start_client, finish_client,
  any_add_route, clean_client,
}
use metalbond.CommandLine.Whole.{kernel_of, start_client_lem, finish_client_lem}
use metalbond.Examples.Hosts.{Bytes, TestPrefix, bytes_comparable, prefix_comparable, test_netip}
use metalbond.Examples.Codecs.{test_proto}
use metalbond.Examples.Bonds.{node, dest, hop}
use metalbond.CommandLine.Tables.{print_mapping, adds, unused}
use metalbond.Bond.Lifecycle.{stop_all}
use metalbond.Examples.Cleanups.{host, RouteList, place, stale, new_client}
use metalbond.Examples.Clients.{txt, announcement, route, prefix, addr}

abbrev flags : ClientFlags
flags = record {
  servers = (0, 1000) ∷ (1, 1001) ∷ [];
  subscribe = 23 ∷ 42 ∷ [];
  announce = announcement ∷ [];
  install_routes = codes "100#7" ∷ [];
  ipv4_only = false;
  keepalive = 5;
  http = true;
  cleanup = true;
}

abbrev no_peers : PeerId → Peer Bytes TestPrefix
no_peers q = new_peer 0 5 incoming

-- the route in the table 7 is gone, the one in the table 9 stays
abbrev made : AnyClient Bytes TestPrefix RouteList
made = netlink new_client ((place 9, []) ∷ [])

chosen : choose_client host flags.install_routes flags.ipv4_only (some 3) stale ≡ goes_on made
unfolding choose_client metalbond.CommandLine.vni_table_map metalbond.CommandLine.mapping_of
    metalbond.Base.Text.split metalbond.Base.Text.parse_uint metalbond.Base.Text.fits
    metalbond.Base.Text.number_from metalbond.Base.Map.put
    metalbond.Netlink.Cleanup.new_netlink_client metalbond.Netlink.Cleanup.cleanup
    metalbond.Netlink.Cleanup.clean_tables metalbond.Netlink.Cleanup.delete_all
    metalbond.Base.Map.get metalbond.Base.Map.delete metalbond.Base.ℕ_discrete
    metalbond.Netlink.KernelRoutes.Slot-discrete
chosen = refl

announcement-Reads : Reads (client_env host test_proto) txt flags.announce (route ∷ [])
announcement-Reads =
    one_read
      (parse_announcement-print test_netip txt 23 prefix addr standard 0 0 refl refl refl refl refl)
      all_read

start_client_lem_example :
    (m : Node Bytes TestPrefix (AnyClient Bytes TestPrefix RouteList)) × (start_client host
        test_proto txt flags no_peers
        (some 3)
        stale
      ≡ goes_on m)
    × (m.client ≡ made)
    × ((v : ℕ) → is_subscribed v m ≡ contains flags.subscribe v)
    × ((v : ℕ) (d : Destination TestPrefix) (h : NextHop Bytes)
        → announced m v d h ≡ lists_route (route ∷ []) v d h)
    × ((a : ℕ) → is_some (get m.bond.peers a) ≡ contains (map (λ s. s.1) flags.servers) a)
unfolding contains metalbond.Base.ℕ_discrete
start_client_lem_example =
    start_client_lem host test_proto txt flags no_peers (some 3) stale made (route ∷ []) chosen
      (refl, (refl, tt)) announcement-Reads (refl, tt) (refl, (refl, tt))

-- the client that was made, after it has put a route into the table 7
abbrev busy : AnyClient Bytes TestPrefix RouteList
busy = (any_add_route host 100 dest hop made).0

abbrev ending : Node Bytes TestPrefix (AnyClient Bytes TestPrefix RouteList)
ending = new_node 5 no_peers busy

abbrev ended : Node Bytes TestPrefix (AnyClient Bytes TestPrefix RouteList)
ended =
    let n = stop_all (client_env host test_proto) ending in
    record n { client = (clean_client host true n.client).0 }

ends_well : finish_client host test_proto flags ending ≡ some (ended, false)
unfolding finish_client metalbond.CommandLine.Program.clean_client new_node
    metalbond.Bond.Lifecycle.shut_down metalbond.Bond.Lifecycle.stop_all
    metalbond.Bond.Lifecycle.remove_peers metalbond.Bond.Lifecycle.new_metal_bond
    metalbond.Netlink.Cleanup.cleanup metalbond.Netlink.Cleanup.clean_tables
    metalbond.Netlink.Cleanup.delete_all metalbond.Base.Map.get metalbond.Base.Map.delete
    metalbond.Base.ℕ_discrete metalbond.Netlink.KernelRoutes.Slot-discrete any_add_route
    metalbond.Netlink.add_route metalbond.Netlink.install metalbond.Netlink.replace_route
    metalbond.Base.Map.put metalbond.Netlink.Sort.sort_func contains
ends_well = refl

written_mapping : flags.install_routes ≡ map print_mapping ((100, 7) ∷ [])
unfolding metalbond.Base.Text.decimal metalbond.Base.Text.digits
written_mapping = refl

finish_client_lem_example : get (kernel_of host test_proto ended.client) (place 7) ≡ none
unfolding contains new_node metalbond.Base.ℕ_discrete
finish_client_lem_example =
    finish_client_lem host test_proto flags ((100, 7) ∷ []) (some 3) stale made ending ended
      (place 7) written_mapping (refl, tt) chosen (adds 100 dest hop unused) refl ends_well refl

-- the node of Examples/Bonds, each second anew
abbrev looks : ℕ → Round Bytes TestPrefix (Unit {0})
looks s = record { node = node; now = s * second }

abbrev thirteen : List (Round Bytes TestPrefix (Unit {0}))
thirteen =
    looks 0
    ∷ looks 1
    ∷ looks 2
    ∷ looks 3
    ∷ looks 4
    ∷ looks 5
    ∷ looks 6
    ∷ looks 7
    ∷ looks 8
    ∷ looks 9
    ∷ looks 10
    ∷ looks 11
    ∷ looks 12
    ∷ []

wait_for_peers_lem_example :
    ((wait_for_peers (1000 ∷ 1001 ∷ []) 0 thirteen ≡ timed_out)
      × IsLate (1000 ∷ 1001 ∷ []) (0 + 10 * second) thirteen)
    ⊎ ((n : Node Bytes TestPrefix (Unit {0})) × (wait_for_peers (1000 ∷ 1001 ∷ []) 0 thirteen
          ≡ up n)
        × ((a : ℕ) → contains (1000 ∷ 1001 ∷ []) a ≡ true → IsUp n a))
wait_for_peers_lem_example =
    wait_for_peers_lem (1000 ∷ 1001 ∷ []) 0 thirteen (omega arith) (omega arith)
