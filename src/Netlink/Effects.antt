-- ===== src/Netlink/Effects.antt =====
-- netlink.go: what `AddRoute` and `RemoveRoute` do to the client's map and to the kernel.
use metalbond.Base.{
  ℕ, Bool, not, ◌&&◌, Option, none, some, List, [], ◌∷◌, ◌++◌, length, contains, ◌≡◌, ◌≢◌, refl,
  Comparable, nat_comparable, ◌==◌, arith, Option-cases, Bool-cases, inl, inr,
}
use metalbond.Base.Map.{get}
use metalbond.Types.{Destination, NextHop, destination_comparable, next_hop_comparable}
use metalbond.Netlink.KernelRoutes.{Slot, slot_comparable}
use metalbond.Netlink.Sort.{sort_func-ne}
use metalbond.Netlink.{
  RouteKey, NetlinkClient, Error, unknown_table, unknown_route, route_key_comparable, is_ipv4,
  without, slot, hop_infos, current_hops, install, uninstall, add_route, remove_route, Host,
  keep_hops, replace_route, remove_kernel_route,
}

-- the client does not look at routes of this version
abbrev pub skips : {A P : Type 0} → NetlinkClient A P → Destination P → Bool
skips c dest = c.config.ipv4_only && not (is_ipv4 dest.ip_version)

abbrev pub key_of : {P : Type 0} → ℕ → Destination P → RouteKey P
key_of vni dest = record { vni = vni; dest = dest }

module _ {A P K : Type 0} ⦃ca : Comparable A⦄ ⦃cp : Comparable P⦄ (host : Host A P K)
    (c : NetlinkClient A P) (k : K) (vni : ℕ) (dest : Destination P) (hop : NextHop A) where
  -- what a call can come to: nothing, a call of `replaceRoute`, or a call of `removeRoute`
  pub data Run : (NetlinkClient A P × K) × Option Error → Type 0 where
    idle : (o : Option Error) → Run ((c, k), o)
    replaced :
        (table : ℕ) (next : List (NextHop A))
        → get c.config.vni_table_map vni ≡ some table
        → next ≢ []
        → Run (install host c (key_of vni dest) next table k)
    removed :
        (table : ℕ)
        → get c.config.vni_table_map vni ≡ some table
        → Run (uninstall host c (key_of vni dest) table k)

  append-ne : (xs : List (NextHop A)) → xs ++ hop ∷ [] ≢ []
  append-ne [] e = cc
  append-ne (x ∷ xs) e = cc

  pub add_route-Run : Run (add_route host c vni dest hop k)
  unfolding add_route
  add_route-Run = elim (Bool-cases (skips c dest)) [
    | inl e ↦ rw e (idle none)
    | inr e ↦ rw e (elim (Option-cases (get c.config.vni_table_map vni)) [
      | inl e2 ↦ rw e2 (idle (some unknown_table))
      | inr (table, e2) ↦
          rw e2 (elim (Bool-cases (contains (current_hops c (key_of vni dest)) hop)) [
            | inl e3 ↦ rw e3 (idle none)
            | inr e3 ↦ rw e3 (
                replaced table _ e2
                  (sort_func-ne host.compare_le _ (append-ne (current_hops c (key_of vni dest)))))
          ])
    ])
  ]

  keep_hops-Run :
      (next : List (NextHop A)) (table : ℕ)
      → get c.config.vni_table_map vni ≡ some table
      → Run (keep_hops host c (key_of vni dest) next table k)
  unfolding keep_hops
  keep_hops-Run [] table e = removed table e
  keep_hops-Run (x ∷ xs) table e = replaced table (x ∷ xs) e (λ h. cc)

  pub remove_route-Run : Run (remove_route host c vni dest hop k)
  unfolding remove_route
  remove_route-Run = elim (Bool-cases (skips c dest)) [
    | inl e ↦ rw e (idle none)
    | inr e ↦ rw e (elim (Option-cases (get c.config.vni_table_map vni)) [
      | inl e2 ↦ rw e2 (idle (some unknown_table))
      | inr (table, e2) ↦ rw e2 (elim (Option-cases (get c.routes (key_of vni dest))) [
        | inl e3 ↦ rw e3 (idle (some unknown_route))
        | inr (current, e3) ↦
            rw e3 (elim (Bool-cases (length current == length (without current hop))) [
              | inl e4 ↦ rw e4 (idle none)
              | inr e4 ↦ rw e4 (keep_hops-Run (without current hop) table e2)
            ])
      ])
    ])
  ]

  -- The client's routes and the kernel's are what they were.
  pub record Unchanged (r : NetlinkClient A P × K) : Type 0 where
    pub client : r.0 ≡ c
    pub kernel_routes : (s : Slot) → host.kernel.installed r.1 s ≡ host.kernel.installed k s

  Run-error :
      {r : (NetlinkClient A P × K) × Option Error} {e : Error}
      → Run r
      → r.1 ≡ some e
      → Unchanged r.0
  unfolding install uninstall replace_route remove_kernel_route
  Run-error (idle o) h = record { client = refl; kernel_routes = λ s. refl }
  Run-error (replaced table next e n) h = record {
    client = ground arith;
    kernel_routes = λ s. ground (
      arith,
      host.kernel.replace_effect (slot host dest.prefix table) s (hop_infos host c.link_index next)
          k,
    );
  }
  Run-error (removed table e) h = record {
    client = ground arith;
    kernel_routes = λ s. ground (arith, host.kernel.del_effect (slot host dest.prefix table) s k);
  }

  -- A call of `AddRoute` or of `RemoveRoute` that returns an error leaves the routes of the client
  -- and of the kernel as they were.
  pub error-Unchanged :
      (e : Error)
      → ((add_route host c vni dest hop k).1 ≡ some e
          → Unchanged (add_route host c vni dest hop k).0)
        × ((remove_route host c vni dest hop k).1 ≡ some e
            → Unchanged (remove_route host c vni dest hop k).0)
  error-Unchanged e = (Run-error add_route-Run, Run-error remove_route-Run)
