-- ===== src/Netlink/Synced.antt =====
-- netlink.go: the client's map and the kernel's routes agree.
use metalbond.Netlink.Cleanup.{tables_of}
use metalbond.Base.{
  true, false, same, same_eq, Bool-cases, inl, inr, if◌then◌else◌, contains, none, ℕ, Option, some,
  List, [], ◌≡◌, ◌≢◌, Comparable, nat_comparable, arith,
}
use metalbond.Base.Map.{put, delete, get, get-put, get-delete}
use metalbond.Types.{Destination, NextHop, destination_comparable, next_hop_comparable}
use metalbond.Netlink.KernelRoutes.{slot_comparable, Slot}
use metalbond.Netlink.{
  RouteKey, NetlinkClient, Error, route_key_comparable, slot, hop_infos, install, uninstall,
  add_route, remove_route, Host, replace_route, remove_kernel_route,
}
use metalbond.Netlink.Effects.{
  Run, add_route-Run, remove_route-Run, key_of, idle, replaced, removed,
}

-- an entry of the client that stands at the place
pub record Entry {A P K : Type 0} ⦃cp : Comparable P⦄ (host : Host A P K) (c : NetlinkClient A P)
    (s : Slot) : Type 0 where
  pub key : RouteKey P
  pub table : ℕ
  pub hops : List (NextHop A)
  pub mapped : get c.config.vni_table_map key.vni ≡ some table
  pub entered : get c.routes key ≡ some hops
  pub placed : slot host key.dest.prefix table ≡ s

-- Each entry of the client stands in the kernel, cut to the first three next hops, and is not empty;
-- and each route of the protocol that the kernel has in a table of the client is at the place of an
-- entry.
pub record IsSynced {A P K : Type 0} ⦃cp : Comparable P⦄ (host : Host A P K) (c : NetlinkClient A P)
    (k : K) : Type 0 where
  pub installed :
      (key : RouteKey P) (table : ℕ) (hops : List (NextHop A))
      → get c.config.vni_table_map key.vni ≡ some table
      → get c.routes key ≡ some hops
      → host.kernel.installed k (slot host key.dest.prefix table)
        ≡ some (hop_infos host c.link_index hops)
  pub known : (key : RouteKey P) → get c.routes key ≢ some []
  pub accounted :
      (s : Slot)
      → contains (tables_of c.config.vni_table_map) s.table ≡ true
      → host.kernel.installed k s ≢ none
      → Entry host c s

-- No other entry of the client stands at the same place in the kernel: two VNIs with one table, or
-- two destinations with one prefix, would overwrite each other's routes.
pub record IsSeparate {A P K : Type 0} ⦃cp : Comparable P⦄ (host : Host A P K)
    (c : NetlinkClient A P) (key : RouteKey P) : Type 0 where
  pub apart :
      (other : RouteKey P) (table t : ℕ) (hops : List (NextHop A))
      → get c.routes other ≡ some hops
      → get c.config.vni_table_map key.vni ≡ some table
      → get c.config.vni_table_map other.vni ≡ some t
      → slot host key.dest.prefix table ≡ slot host other.dest.prefix t
      → key ≡ other

module _ {A P K : Type 0} ⦃ca : Comparable A⦄ ⦃cp : Comparable P⦄ (host : Host A P K)
    (c : NetlinkClient A P) (k : K) (vni : ℕ) (dest : Destination P) (hop : NextHop A) where
  -- an entry stays where it was when another route is written, and is gone only at its own key
  put-Entry :
      (next : List (NextHop A)) {x : Slot}
      → Entry host c x
      → Entry host (record c { routes = put c.routes (key_of vni dest) next }) x
  put-Entry next en = record {
    key = en.key;
    table = en.table;
    mapped = en.mapped;
    placed = en.placed;
    hops = if same (key_of vni dest) en.key then next else en.hops;
    entered = ground (arith, get-put c.routes (key_of vni dest) en.key next, en.entered);
  }

  delete-Entry :
      (table : ℕ) {x : Slot}
      → get c.config.vni_table_map vni ≡ some table
      → same (slot host dest.prefix table) x ≡ false
      → Entry host c x
      → Entry host (record c { routes = delete c.routes (key_of vni dest) }) x
  delete-Entry table {x} e apart en = record {
    key = en.key;
    table = en.table;
    hops = en.hops;
    mapped = en.mapped;
    placed = en.placed;
    entered = ground (
      arith,
      get-delete c.routes (key_of vni dest) en.key,
      en.entered,
      en.mapped,
      en.placed,
      e,
      apart,
    );
  }

  replaced-accounted :
      (table : ℕ) (next : List (NextHop A))
      → get c.config.vni_table_map vni ≡ some table
      → IsSynced host c k
      → (x : Slot)
      → contains
          (tables_of (install host c (key_of vni dest) next table k).0.0.config.vni_table_map)
          x.table
        ≡ true
      → host.kernel.installed (install host c (key_of vni dest) next table k).0.1 x ≢ none
      → Entry host (install host c (key_of vni dest) next table k).0.0 x
  unfolding install replace_route
  replaced-accounted table next e s x e1 e2 =
      let there = slot host dest.prefix table in
      let infos = hop_infos host c.link_index next in
      let e3 : contains (tables_of c.config.vni_table_map) x.table ≡ true = ground (arith, e1) in
      let effect = host.kernel.replace_effect there x infos k in
      elim (Bool-cases (host.kernel.route_replace there infos k).1) [
        | inl bad ↦ rw bad (s.accounted x e3 (λ h. e2 (ground (arith, effect, bad, h))))
        | inr good ↦ rw good (elim (Bool-cases (same there x)) [
          | inl here ↦ record {
            key = key_of vni dest;
            table = table;
            hops = next;
            mapped = e;
            entered = ground (arith, get-put c.routes (key_of vni dest) (key_of vni dest) next);
            placed = same_eq there x here;
          }
          | inr away ↦
              put-Entry next (s.accounted x e3 (λ h. e2 (ground (arith, effect, good, away, h))))
        ])
      ]

  removed-accounted :
      (table : ℕ)
      → get c.config.vni_table_map vni ≡ some table
      → IsSynced host c k
      → (x : Slot)
      → contains
          (tables_of (uninstall host c (key_of vni dest) table k).0.0.config.vni_table_map)
          x.table
        ≡ true
      → host.kernel.installed (uninstall host c (key_of vni dest) table k).0.1 x ≢ none
      → Entry host (uninstall host c (key_of vni dest) table k).0.0 x
  unfolding uninstall remove_kernel_route
  removed-accounted table e s x e1 e2 =
      let there = slot host dest.prefix table in
      let e3 : contains (tables_of c.config.vni_table_map) x.table ≡ true = ground (arith, e1) in
      let effect = host.kernel.del_effect there x k in
      elim (Bool-cases (host.kernel.route_del there k).1) [
        | inl bad ↦ rw bad (s.accounted x e3 (λ h. e2 (ground (arith, effect, bad, h))))
        | inr good ↦ rw good (elim (Bool-cases (same there x)) [
          | inl here ↦ absurd (e2 (ground (arith, effect, good, here)))
          | inr away ↦
              delete-Entry table e away
                (s.accounted x e3 (λ h. e2 (ground (arith, effect, good, away, h))))
        ])
      ]

  Run-IsSynced :
      {r : (NetlinkClient A P × K) × Option Error}
      → Run host c k vni dest hop r
      → IsSynced host c k
      → IsSeparate host c (key_of vni dest)
      → IsSynced host r.0.0 r.0.1
  unfolding install uninstall replace_route remove_kernel_route
  Run-IsSynced (idle o) s a = s
  Run-IsSynced (replaced table next e n) s a = record {
    installed = λ j t hops e1 e2. ground (
      arith,
      host.kernel.replace_effect (slot host dest.prefix table) (slot host j.dest.prefix t)
          (hop_infos host c.link_index next) k,
      get-put c.routes (key_of vni dest) j next,
      s.installed j t hops,
      a.apart j table t hops,
    );
    known = λ j e1. ground (arith, get-put c.routes (key_of vni dest) j next, s.known j, n);
    accounted = λ x e1 e2. replaced-accounted table next e s x e1 e2;
  }
  Run-IsSynced (removed table e) s a = record {
    installed = λ j t hops e1 e2. ground (
      arith,
      host.kernel.del_effect (slot host dest.prefix table) (slot host j.dest.prefix t) k,
      get-delete c.routes (key_of vni dest) j,
      s.installed j t hops,
      a.apart j table t hops,
    );
    known = λ j e1. ground (arith, get-delete c.routes (key_of vni dest) j, s.known j);
    accounted = λ x e1 e2. removed-accounted table e s x e1 e2;
  }

  -- If no other entry of the client shares the route's place in the kernel, `AddRoute` and
  -- `RemoveRoute` keep the kernel's routes in step with the client's, failing or not: each entry of
  -- the client stands in the kernel, cut to three next hops, and each route of the protocol in a table
  -- of the client has an entry.
  pub calls-IsSynced :
      IsSynced host c k
      → IsSeparate host c (key_of vni dest)
      → IsSynced host (add_route host c vni dest hop k).0.0 (add_route host c vni dest hop k).0.1
        × IsSynced host
            (remove_route host c vni dest hop k).0.0
            (remove_route host c vni dest hop k).0.1
  calls-IsSynced s a = (
    Run-IsSynced (add_route-Run host c k vni dest hop) s a,
    Run-IsSynced (remove_route-Run host c k vni dest hop) s a,
  )
