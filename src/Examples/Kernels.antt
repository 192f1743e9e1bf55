-- ===== src/Examples/Kernels.antt =====
-- netlink.go on a kernel whose routes are a function from places to multipaths.
use metalbond.Base.{
  same_eq, ℕ, ◌≡◌, ◌≢◌, Bool, true, false, not, ◌&&◌, ◌||◌, Option, none, some, List, [], ◌∷◌,
  is_some, same, contains, nat_comparable, if◌then◌else◌, refl, arith, map, leb,
}
use metalbond.Base.Map.{get, put, delete}
use metalbond.Types.{
  ipv4, standard, Destination, NextHop, destination_comparable, next_hop_comparable,
}
use metalbond.Netlink.KernelRoutes.{Slot, HopInfo, Kernel, slot_comparable}
use metalbond.Netlink.{
  Host, NetlinkClient, RouteKey, Error, unknown_table, add_route, remove_route,
  route_key_comparable, install, uninstall, keep_hops, replace_route, remove_kernel_route, slot,
  hop_infos, without,
}
use metalbond.Netlink.Sort.{sort_func}
use metalbond.Netlink.Effects.{key_of, Unchanged, error-Unchanged}
use metalbond.Netlink.Synced.{IsSynced, IsSeparate, calls-IsSynced}
use metalbond.Netlink.Contents.{knows, add_route-knows, remove_route-knows}
use metalbond.Examples.Hosts.{Bytes, TestPrefix, test_netip, bytes_comparable, prefix_comparable}

abbrev TestKernel : Type 0
TestKernel = Slot → Option (List HopInfo)

abbrev replace : Slot → List HopInfo → TestKernel → TestKernel × Bool
replace s hops k = (λ t. if same s t then some hops else k t, false)

-- a route that is not there cannot be deleted
abbrev del : Slot → TestKernel → TestKernel × Bool
del s k = if is_some (k s) then (λ t. if same s t then none else k t, false) else (k, true)

del_lem :
    (s t : Slot) (k : TestKernel)
    → (del s k).0 t ≡ (if (del s k).1 then k t else if same s t then none else k t)
del_lem s t k = ground arith

-- the kernel fails to list a table
no_list :
    (table : ℕ) (t : Slot) (k : TestKernel) (slots : List Slot)
    → none ≡ some slots
    → contains slots t ≡ (same table t.table && is_some (k t))
no_list table t k slots h = absurd (ground (arith, h))

abbrev test_kernel : Kernel TestKernel
test_kernel = record {
  route_replace = replace;
  route_del = del;
  route_list = λ table k. none;
  installed = λ k s. k s;
  replace_effect = λ s t hops k. refl;
  del_effect = del_lem;
  list_effect = no_list;
}

abbrev host : Host Bytes TestPrefix TestKernel
host = record { net = test_netip; kernel = test_kernel; compare_le = λ a b. true }

-- VNI 100 has the table 7
abbrev empty_client : NetlinkClient Bytes TestPrefix
empty_client = record {
  config = record { vni_table_map = (100, 7) ∷ []; ipv4_only = true };
  link_index = 3;
  routes = [];
}

abbrev dest : Destination TestPrefix
dest = record { ip_version = ipv4; prefix = (10 ∷ 0 ∷ 0 ∷ 0 ∷ [], 24) }

abbrev hop : NextHop Bytes
hop = record {
  target_address = 10 ∷ 9 ∷ 8 ∷ 7 ∷ [];
  target_vni = 0;
  hop_type = standard;
  nat_port_range_from = 0;
  nat_port_range_to = 0;
}

abbrev no_routes : TestKernel
no_routes s = none

run : Unit {0}
unfolding add_route remove_route install uninstall keep_hops replace_route remove_kernel_route get
    put delete sort_func metalbond.Base.ℕ_discrete metalbond.Base.contains without
    metalbond.Netlink.RouteKey-discrete
run = tt

empty-IsSynced : IsSynced host empty_client no_routes
unfolding get
empty-IsSynced = record {
  installed = λ key table hops e1 e2. cc;
  known = λ key e. cc;
  accounted = λ s e1 e2. absurd (e2 refl);
}

empty-IsSeparate : IsSeparate host empty_client (key_of 100 dest)
unfolding get
empty-IsSeparate = record { apart = λ other table t hops e1 e2 e3 e4. cc }

added : (add_route host empty_client 100 dest hop no_routes).1 ≡ none
unfolding run
added = refl

no_table : (add_route host empty_client 5 dest hop no_routes).1 ≡ some unknown_table
unfolding run
no_table = refl

error-Unchanged_example :
    ((add_route host empty_client 5 dest hop no_routes).1 ≡ some unknown_table
      → Unchanged host empty_client no_routes 5 dest hop
          (add_route host empty_client 5 dest hop no_routes).0)
    × ((remove_route host empty_client 5 dest hop no_routes).1 ≡ some unknown_table
        → Unchanged host empty_client no_routes 5 dest hop
            (remove_route host empty_client 5 dest hop no_routes).0)
error-Unchanged_example = error-Unchanged host empty_client no_routes 5 dest hop unknown_table

add_route-knows_example :
    knows (add_route host empty_client 100 dest hop no_routes).0.0 (key_of 100 dest) hop ≡ (
      (same (key_of 100 dest) (key_of 100 dest) && same hop hop)
      || knows empty_client (key_of 100 dest) hop)
add_route-knows_example =
    add_route-knows host empty_client no_routes 100 dest hop (key_of 100 dest) hop refl added

-- the client and the kernel after the route was added
abbrev full_client : NetlinkClient Bytes TestPrefix
full_client = record empty_client { routes = (key_of 100 dest, hop ∷ []) ∷ [] }

abbrev full_routes : TestKernel
full_routes = (replace (slot host dest.prefix 7) (hop_infos host 3 (hop ∷ [])) no_routes).0

removed : (remove_route host full_client 100 dest hop full_routes).1 ≡ none
unfolding run metalbond.Types.Destination-discrete metalbond.Types.IpVersion-discrete
    metalbond.Examples.Hosts.TestPrefix-discrete metalbond.Examples.Hosts.Bytes-discrete
    metalbond.Types.NextHop-discrete metalbond.Types.NextHopType-discrete
    metalbond.Netlink.KernelRoutes.Slot-discrete
removed = refl

remove_route-knows_example :
    knows (remove_route host full_client 100 dest hop full_routes).0.0 (key_of 100 dest) hop ≡ (
      not (same (key_of 100 dest) (key_of 100 dest) && same hop hop)
      && knows full_client (key_of 100 dest) hop)
remove_route-knows_example =
    remove_route-knows host full_client full_routes 100 dest hop (key_of 100 dest) hop refl removed

full-IsSynced : IsSynced host full_client full_routes
unfolding run
full-IsSynced =
    (calls-IsSynced host empty_client no_routes 100 dest hop empty-IsSynced empty-IsSeparate).0

full-IsSeparate : IsSeparate host full_client (key_of 100 dest)
unfolding get
full-IsSeparate = record {
  apart = λ other table t hops e1 e2 e3 e4. same_eq (key_of 100 dest) other (ground (arith, e1));
}

calls-IsSynced_example :
    IsSynced host
      (add_route host full_client 100 dest hop full_routes).0.0
      (add_route host full_client 100 dest hop full_routes).0.1
    × IsSynced host
        (remove_route host full_client 100 dest hop full_routes).0.0
        (remove_route host full_client 100 dest hop full_routes).0.1
calls-IsSynced_example =
    calls-IsSynced host full_client full_routes 100 dest hop full-IsSynced full-IsSeparate
