-- ===== src/Examples/Cleanups.antt =====
-- netlink.go on a kernel that is a list of its routes: the start of a client.
use metalbond.Base.{
  ℕ, ◌≡◌, Bool, true, false, ◌&&◌, Option, none, some, List, [], ◌∷◌, contains, is_some, same,
  if◌then◌else◌, refl, arith, nat_comparable,
}
use metalbond.Base.Map.{Map, get, put, delete, get-put, get-delete}
use metalbond.Netlink.KernelRoutes.{Slot, HopInfo, Kernel, slot_comparable}
use metalbond.Netlink.{Host, NetlinkClient, NetlinkClientConfig}
use metalbond.Netlink.Cleanup.{tables_of, new_netlink_client, new_netlink_client_lem}
use metalbond.Examples.Hosts.{Bytes, TestPrefix, test_netip}

abbrev pub RouteList : Type 0
RouteList = Map Slot (List HopInfo)

abbrev pub del : Slot → RouteList → RouteList × Bool
del s k = if is_some (get k s) then (delete k s, false) else (k, true)

pub del_lem :
    (s t : Slot) (k : RouteList)
    → get (del s k).0 t ≡ (if (del s k).1 then get k t else if same s t then none else get k t)
del_lem s t k = ground (arith, get-delete k s t)

-- the places of the routes of the table
abbrev pub of_table : ℕ → RouteList → List Slot
of_table table [] = []
of_table table ((s, hops) ∷ k) =
    let rest = of_table table k in if same table s.table then s ∷ rest else rest

contains-of_table :
    (table : ℕ) (t : Slot) (k : RouteList)
    → contains (of_table table k) t ≡ (same table t.table && is_some (get k t))
unfolding contains get
contains-of_table table t [] = ground arith
contains-of_table table t ((s, hops) ∷ k) = ground (arith, contains-of_table table t k)

pub list_lem :
    (table : ℕ) (t : Slot) (k : RouteList) (slots : List Slot)
    → some (of_table table k) ≡ some slots
    → contains slots t ≡ (same table t.table && is_some (get k t))
list_lem table t k slots h = ground (arith, h, contains-of_table table t k)

abbrev pub listed_kernel : Kernel RouteList
listed_kernel = record {
  route_replace = λ s hops k. (put k s hops, false);
  route_del = del;
  route_list = λ table k. some (of_table table k);
  installed = λ k s. get k s;
  replace_effect = λ s t hops k. get-put k s t hops;
  del_effect = del_lem;
  list_effect = list_lem;
}

abbrev pub host : Host Bytes TestPrefix RouteList
host = record { net = test_netip; kernel = listed_kernel; compare_le = λ a b. true }

abbrev pub place : ℕ → Slot
place table = record { table = table; ip = 10 ∷ 0 ∷ 0 ∷ 0 ∷ []; bits = some 24 }

-- a route in the table 7 of VNI 100, and one in another table
abbrev pub stale : RouteList
stale = (place 7, []) ∷ (place 9, []) ∷ []

abbrev pub config : NetlinkClientConfig
config = record { vni_table_map = (100, 7) ∷ []; ipv4_only = false }

abbrev pub new_client : NetlinkClient Bytes TestPrefix
new_client = record { config = config; link_index = 3; routes = [] }

started : (new_netlink_client host config (some 3) stale).0 ≡ some new_client
unfolding new_netlink_client metalbond.Netlink.Cleanup.cleanup
    metalbond.Netlink.Cleanup.clean_tables metalbond.Netlink.Cleanup.delete_all get delete
    metalbond.Base.ℕ_discrete metalbond.Netlink.KernelRoutes.Slot-discrete
started = refl

new_netlink_client_lem_example :
    (new_client.routes ≡ [])
    × ((t : Slot)
        → get (new_netlink_client host config (some 3) stale).1 t
          ≡ (if contains (tables_of config.vni_table_map) t.table then none else get stale t))
new_netlink_client_lem_example =
    new_netlink_client_lem host config (some 3) stale new_client started
