-- ===== src/Netlink/Cleanup.antt =====
-- netlink.go: `Cleanup` and `NewNetlinkClient`.
use metalbond.Base.{
  ℕ, ◌≡◌, Bool, true, false, ◌||◌, Option, none, some, List, [], ◌∷◌, contains, nat_comparable,
  arith, refl, if◌then◌else◌, Option-cases, inl, inr,
}
use metalbond.Base.Map.{Map}
use metalbond.Netlink.KernelRoutes.{Slot, slot_comparable, Kernel}
use metalbond.Netlink.{Host, NetlinkClient, NetlinkClientConfig}

-- `range m` for its values
abbrev pub tables_of : Map ℕ ℕ → List ℕ
tables_of [] = []
tables_of ((vni, table) ∷ m) = table ∷ tables_of m

module _ {K : Type 0} (kernel : Kernel K) where
  -- the loop over the routes of a table; the flag says whether some call failed
  unfoldable pub delete_all : List Slot → K → K × Bool
  delete_all [] k = (k, false)
  delete_all (s ∷ slots) k =
      let (k1, bad) = kernel.route_del s k in
      let (k2, worse) = delete_all slots k1 in (k2, bad || worse)

  -- the loop over the tables: a table that cannot be listed is passed over
  unfoldable pub clean_tables : List ℕ → K → K × Bool
  clean_tables [] k = (k, false)
  clean_tables (table ∷ tables) k = elim (kernel.route_list table k) [
    | none ↦ let (k1, bad) = clean_tables tables k in (k1, true)
    | some slots ↦
        let (k1, bad) = delete_all slots k in
        let (k2, worse) = clean_tables tables k1 in (k2, bad || worse)
  ]

  delete_all-installed :
      (slots : List Slot) (k : K) (t : Slot)
      → ((delete_all slots k).1 ≡ false
          → kernel.installed (delete_all slots k).0 t
            ≡ (if contains slots t then none else kernel.installed k t))
        × (contains slots t ≡ false
            → kernel.installed (delete_all slots k).0 t ≡ kernel.installed k t)
  unfolding delete_all contains
  delete_all-installed [] k t = (λ h. refl, λ h. refl)
  delete_all-installed (s ∷ slots) k t =
      let rest = delete_all-installed slots (kernel.route_del s k).0 t in
      (
        λ h. ground (arith, rest.0, kernel.del_effect s t k, h),
        λ h. ground (arith, rest.1, kernel.del_effect s t k, h),
      )

  clean_tables-installed :
      (tables : List ℕ) (k : K) (t : Slot)
      → ((clean_tables tables k).1 ≡ false
          → kernel.installed (clean_tables tables k).0 t
            ≡ (if contains tables t.table then none else kernel.installed k t))
        × (contains tables t.table ≡ false
            → kernel.installed (clean_tables tables k).0 t ≡ kernel.installed k t)
  unfolding clean_tables contains
  clean_tables-installed [] k t = (λ h. refl, λ h. refl)
  clean_tables-installed (table ∷ tables) k t = elim (Option-cases (kernel.route_list table k)) [
    | inl e ↦
        let rest = clean_tables-installed tables k t in
        rw (e, clean_tables) (λ h. absurd (ground (arith, h)), λ h. ground (arith, rest.1, h))
    | inr (slots, e) ↦
        let first = delete_all-installed slots k t in
        let rest = clean_tables-installed tables (delete_all slots k).0 t in
        let listed = kernel.list_effect table t k slots e in
        rw (e, clean_tables)
          (
            λ h. ground (arith, first.0, rest.0, listed, h),
            λ h. ground (arith, first.1, rest.1, listed, h),
          )
  ]

module _ {A P K : Type 0} (host : Host A P K) where
  unfoldable pub cleanup : NetlinkClient A P → K → K × Bool
  cleanup c k = clean_tables host.kernel (tables_of c.config.vni_table_map) k

  pub cleanup-installed :
      (c : NetlinkClient A P) (k : K) (t : Slot)
      → (cleanup c k).1 ≡ false
      → host.kernel.installed (cleanup c k).0 t ≡ (
          if contains (tables_of c.config.vni_table_map) t.table
          then none
          else host.kernel.installed k t)
  unfolding cleanup
  cleanup-installed c k t h =
      (clean_tables-installed host.kernel (tables_of c.config.vni_table_map) k t).0 h

  -- `NewNetlinkClient`, given what `netlink.LinkByName` finds
  unfoldable pub new_netlink_client :
      NetlinkClientConfig → Option ℕ → K → Option (NetlinkClient A P) × K
  new_netlink_client config none k = (none, k)
  new_netlink_client config (some link) k =
      let c : NetlinkClient A P = record { config = config; link_index = link; routes = [] } in
      let (k', bad) = cleanup c k in if bad then (none, k') else (some c, k')

  -- If `NewNetlinkClient` returns a client, it knows no route, the kernel has no route of the protocol
  -- in any table of the configuration, and the routes in the other tables are as they were.
  pub new_netlink_client_lem :
      (config : NetlinkClientConfig) (link : Option ℕ) (k : K) (c : NetlinkClient A P)
      → (new_netlink_client config link k).0 ≡ some c
      → (c.routes ≡ [])
        × ((t : Slot)
            → host.kernel.installed (new_netlink_client config link k).1 t ≡ (
                if contains (tables_of config.vni_table_map) t.table
                then none
                else host.kernel.installed k t))
  unfolding new_netlink_client cleanup
  new_netlink_client_lem config none k c h = absurd (ground (arith, h))
  new_netlink_client_lem config (some link) k c h =
      let clean = clean_tables-installed host.kernel (tables_of config.vni_table_map) k in
      (ground (arith, h), λ t. ground (arith, h, (clean t).0))
