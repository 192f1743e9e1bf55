-- ===== src/Netlink.antt =====
-- netlink.go: the client that keeps the kernel's route tables. The kernel is the parameter of
-- Netlink/KernelRoutes; `slices.SortFunc` is in Netlink/Sort.
pub mod KernelRoutes
pub mod Sort
pub mod Effects
pub mod Synced
pub mod Contents
pub mod Cleanup
use metalbond.Base.{
  ℕ, suc, zero, Bool, true, false, not, ◌&&◌, Option, none, some, List, [], ◌∷◌, ◌++◌, map, length,
  take, contains, Comparable, nat_comparable, same, if◌then◌else◌, ℕ_discrete, ◌==◌,
}
use metalbond.Base.Map.{Map, get, put, delete}
use metalbond.Types.{
  IpVersion-discrete, ipv4, Destination, NextHop, destination_comparable, next_hop_comparable,
  Destination-discrete, IpVersion,
}
use metalbond.Client.{Client}
use metalbond.Wire.Library.{Netip}
use KernelRoutes.{Slot, HopInfo, Kernel}
use Sort.{sort_func}

pub record RouteKey (P : Type 0) : Type 0 where
  pub vni : ℕ
  pub dest : Destination P

unfoldable pub RouteKey-discrete : {P : Type 0} ⦃c : Comparable P⦄ → Discrete (RouteKey P)
RouteKey-discrete ⦃c⦄ = hlevel (ℕ_discrete, Destination-discrete ⦃c = c⦄)

instance abbrev pub route_key_comparable : {P : Type 0} ⦃c : Comparable P⦄ → Comparable (RouteKey P)
route_key_comparable = record { equals = RouteKey-discrete }

-- `NetlinkClientConfig`; the link's name has become its index
pub record NetlinkClientConfig : Type 0 where
  pub vni_table_map : Map ℕ ℕ
  pub ipv4_only : Bool

pub record NetlinkClient (A P : Type 0) : Type 0 where
  pub config : NetlinkClientConfig
  pub link_index : ℕ
  pub routes : Map (RouteKey P) (List (NextHop A))

pub data Error : Type 0 where
  unknown_table unknown_route cannot_replace cannot_remove : Error

abbrev pub is_ipv4 : IpVersion → Bool
is_ipv4 ipv4 = true
is_ipv4 _ = false

-- `slices.DeleteFunc(slices.Clone(current), func(e) { return e == hop })`
unfoldable pub without {ℓ} : {B : Type ℓ} ⦃c : Comparable B⦄ → List B → B → List B
without [] b = []
without (x ∷ xs) b = let rest = without xs b in if same x b then rest else x ∷ rest

-- the most next hops that `replaceRoute` hands to the kernel
abbrev pub max_next_hops : ℕ
max_next_hops = 3

-- `c.routes[key]`, nil where there is no entry
abbrev pub current_hops :
    {A P : Type 0} ⦃cp : Comparable P⦄ → NetlinkClient A P → RouteKey P → List (NextHop A)
current_hops c key = elim (get c.routes key) [ none ↦ [] | some hops ↦ hops ]

-- what the client runs on: addresses, their order by `Compare`, and the kernel
pub record Host (A P K : Type 0) : Type 0 where
  pub net : Netip A P
  pub kernel : Kernel K
  pub compare_le : A → A → Bool

module _ {A P K : Type 0} (host : Host A P K) where
  -- the `Dst` and `Table` of a route
  abbrev pub slot : P → ℕ → Slot
  slot dst table = record {
    table = table;
    ip = host.net.as_slice (host.net.prefix_addr dst);
    bits = host.net.prefix_bits dst;
  }

  abbrev pub hop_info : ℕ → NextHop A → HopInfo
  hop_info link hop = record { link_index = link; encap_dst = host.net.as_slice hop.target_address }

  -- the multipath of a route
  abbrev pub hop_infos : ℕ → List (NextHop A) → List HopInfo
  hop_infos link hops = map (hop_info link) (take max_next_hops hops)

  unfoldable pub replace_route : NetlinkClient A P → P → List (NextHop A) → ℕ → K → K × Bool
  replace_route c dst hops table =
      host.kernel.route_replace (slot dst table) (hop_infos c.link_index hops)

  unfoldable pub remove_kernel_route : P → ℕ → K → K × Bool
  remove_kernel_route dst table = host.kernel.route_del (slot dst table)

module _ {A P K : Type 0} ⦃ca : Comparable A⦄ ⦃cp : Comparable P⦄ (host : Host A P K) where
  -- the rest of `AddRoute`, from the call of `replaceRoute` on
  unfoldable pub install :
      NetlinkClient A P
      → RouteKey P
      → List (NextHop A)
      → ℕ
      → K
      → (NetlinkClient A P × K) × Option Error
  unfolding replace_route
  install c key next table k =
      let (k', bad) = replace_route host c key.dest.prefix next table k in
      if bad
      then ((c, k'), some cannot_replace)
      else ((record c { routes = put c.routes key next }, k'), none)

  unfoldable pub add_route :
      NetlinkClient A P → ℕ → Destination P → NextHop A → K → (NetlinkClient A P × K) × Option Error
  add_route c vni dest hop k =
      let key : RouteKey P = record { vni = vni; dest = dest } in
      let current = current_hops c key in
      if c.config.ipv4_only && not (is_ipv4 dest.ip_version)
      then ((c, k), none)
      else elim (get c.config.vni_table_map vni) [
        | none ↦ ((c, k), some unknown_table)
        | some table ↦
            if contains current hop
            then ((c, k), none)
            else install c key (sort_func host.compare_le (current ++ hop ∷ [])) table k
      ]

  -- the rest of `RemoveRoute` where no hop is left
  unfoldable pub uninstall :
      NetlinkClient A P → RouteKey P → ℕ → K → (NetlinkClient A P × K) × Option Error
  unfolding remove_kernel_route
  uninstall c key table k =
      let (k', bad) = remove_kernel_route host key.dest.prefix table k in
      if bad
      then ((c, k'), some cannot_remove)
      else ((record c { routes = delete c.routes key }, k'), none)

  -- the rest of `RemoveRoute`, from the test of `len(next)` on
  unfoldable pub keep_hops :
      NetlinkClient A P
      → RouteKey P
      → List (NextHop A)
      → ℕ
      → K
      → (NetlinkClient A P × K) × Option Error
  keep_hops c key [] table k = uninstall c key table k
  keep_hops c key (hop ∷ hops) table k = install c key (hop ∷ hops) table k

  unfoldable pub remove_route :
      NetlinkClient A P → ℕ → Destination P → NextHop A → K → (NetlinkClient A P × K) × Option Error
  remove_route c vni dest hop k =
      let key : RouteKey P = record { vni = vni; dest = dest } in
      if c.config.ipv4_only && not (is_ipv4 dest.ip_version)
      then ((c, k), none)
      else elim (get c.config.vni_table_map vni) [
        | none ↦ ((c, k), some unknown_table)
        | some table ↦ elim (get c.routes key) [
          | none ↦ ((c, k), some unknown_route)
          | some current ↦
              let next = without current hop in
              if length current == length next then ((c, k), none) else keep_hops c key next table k
        ]
      ]
