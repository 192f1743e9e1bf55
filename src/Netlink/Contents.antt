-- ===== src/Netlink/Contents.antt =====
-- netlink.go: which next hops the client holds after `AddRoute` and `RemoveRoute`.
use metalbond.Base.{
  ℕ, Bool, true, false, not, ◌&&◌, ◌||◌, none, List, [], ◌∷◌, ◌++◌, length, contains,
  contains-append, ◌≡◌, refl, ◌≤◌, Comparable, same, if◌then◌else◌, ◌==◌, arith, Option-cases, inl,
  inr, nat_comparable,
}
use metalbond.Base.Map.{get, put, delete, get-put, get-delete}
use metalbond.Types.{Destination, NextHop, destination_comparable, next_hop_comparable}
use metalbond.Netlink.Sort.{sort_func, contains-sort_func}
use metalbond.Netlink.{
  Host, RouteKey, NetlinkClient, route_key_comparable, without, current_hops, install, uninstall,
  keep_hops, add_route, remove_route,
}
use metalbond.Netlink.Effects.{skips, key_of}

module _ {B : Type 0} ⦃c : Comparable B⦄ where
  contains-without :
      (xs : List B) (b a : B) → contains (without xs b) a ≡ (not (same b a) && contains xs a)
  unfolding contains without
  contains-without [] b a = ground arith
  contains-without (x ∷ xs) b a = ground (arith, contains-without xs b a)

  length-without-le : (xs : List B) (b : B) → length (without xs b) ≤ length xs
  unfolding without
  length-without-le [] b = omega arith
  length-without-le (x ∷ xs) b = ground (arith, length-without-le xs b)

  length-without :
      (xs : List B) (b : B) → (length xs == length (without xs b)) ≡ true → contains xs b ≡ false
  unfolding contains without
  length-without [] b h = refl
  length-without (x ∷ xs) b h = ground (arith, length-without xs b, length-without-le xs b)

-- the client holds the next hop for the key
abbrev pub knows :
    {A P : Type 0} ⦃ca : Comparable A⦄ ⦃cp : Comparable P⦄
    → NetlinkClient A P
    → RouteKey P
    → NextHop A
    → Bool
knows c key hop = contains (current_hops c key) hop

module _ {A P K : Type 0} ⦃ca : Comparable A⦄ ⦃cp : Comparable P⦄ (host : Host A P K)
    (c : NetlinkClient A P) (k : K) (vni : ℕ) (dest : Destination P) (hop : NextHop A) where
  current-put :
      (next : List (NextHop A)) (j : RouteKey P)
      → current_hops (record c { routes = put c.routes (key_of vni dest) next }) j
        ≡ (if same (key_of vni dest) j then next else current_hops c j)
  current-put next j = ground (arith, get-put c.routes (key_of vni dest) j next)

  current-delete :
      (j : RouteKey P)
      → current_hops (record c { routes = delete c.routes (key_of vni dest) }) j
        ≡ (if same (key_of vni dest) j then [] else current_hops c j)
  current-delete j = ground (arith, get-delete c.routes (key_of vni dest) j)

  install-knows :
      (table : ℕ) (next : List (NextHop A)) (j : RouteKey P) (h : NextHop A)
      → (install host c (key_of vni dest) next table k).1 ≡ none
      → knows (install host c (key_of vni dest) next table k).0.0 j h
        ≡ (if same (key_of vni dest) j then contains next h else knows c j h)
  unfolding install
  install-knows table next j h e = ground (arith, current-put next j)

  uninstall-knows :
      (table : ℕ) (j : RouteKey P) (h : NextHop A)
      → (uninstall host c (key_of vni dest) table k).1 ≡ none
      → knows (uninstall host c (key_of vni dest) table k).0.0 j h
        ≡ (if same (key_of vni dest) j then false else knows c j h)
  unfolding uninstall contains
  uninstall-knows table j h e = ground (arith, current-delete j)

  keep_hops-knows :
      (table : ℕ) (next : List (NextHop A)) (j : RouteKey P) (h : NextHop A)
      → (keep_hops host c (key_of vni dest) next table k).1 ≡ none
      → knows (keep_hops host c (key_of vni dest) next table k).0.0 j h
        ≡ (if same (key_of vni dest) j then contains next h else knows c j h)
  unfolding keep_hops contains
  keep_hops-knows table [] j h e = uninstall-knows table j h e
  keep_hops-knows table (x ∷ xs) j h e = install-knows table (x ∷ xs) j h e

  contains-next :
      (h : NextHop A)
      → contains (sort_func host.compare_le (current_hops c (key_of vni dest) ++ hop ∷ [])) h
        ≡ (same hop h || contains (current_hops c (key_of vni dest)) h)
  unfolding contains
  contains-next h = rw (contains-sort_func, contains-append) (ground arith)

  -- A call of `AddRoute` for a route that the client does not skip either fails or adds this next hop
  -- to the ones of its VNI and destination, and no other.
  pub add_route-knows :
      (j : RouteKey P) (h : NextHop A)
      → skips c dest ≡ false
      → (add_route host c vni dest hop k).1 ≡ none
      → knows (add_route host c vni dest hop k).0.0 j h
        ≡ ((same (key_of vni dest) j && same hop h) || knows c j h)
  unfolding add_route
  add_route-knows j h s e = elim (Option-cases (get c.config.vni_table_map vni)) [
    | inl t ↦ absurd (ground arith)
    | inr (table, t) ↦
        let current = current_hops c (key_of vni dest) in
        let next = sort_func host.compare_le (current ++ hop ∷ []) in
        ground (arith, install-knows table next j h, contains-next h)
  ]

  -- A call of `RemoveRoute` for a route that the client does not skip either fails or takes this next
  -- hop from the ones of its VNI and destination, and no other.
  pub remove_route-knows :
      (j : RouteKey P) (h : NextHop A)
      → skips c dest ≡ false
      → (remove_route host c vni dest hop k).1 ≡ none
      → knows (remove_route host c vni dest hop k).0.0 j h
        ≡ (not (same (key_of vni dest) j && same hop h) && knows c j h)
  unfolding remove_route
  remove_route-knows j h s e = elim (Option-cases (get c.config.vni_table_map vni)) [
    | inl t ↦ absurd (ground arith)
    | inr (table, t) ↦ elim (Option-cases (get c.routes (key_of vni dest))) [
      | inl r ↦ absurd (ground arith)
      | inr (current, r) ↦ ground (
        arith,
        keep_hops-knows table (without current hop) j h,
        contains-without current hop h,
        length-without current hop,
      )
    ]
  ]
