-- ===== src/RouteTable/Listing.antt =====
-- routetable.go: what the methods that read a table list, against the routes that it holds.
use metalbond.Base.{
  ℕ, ◌≡◌, Bool, true, some, [], ◌∷◌, Comparable, nat_comparable, arith, refl, is_some, contains,
  Option-cases, inl, inr, ap, ◌↔◌, same_refl,
}
use mathlib.Core.Option
use metalbond.Base.Map.{Map, keys, get, get-contains, contains-get, get-head, contains-keys}
use metalbond.Base.Map.Nested.{at, nested_laws, entry_laws, at_of_get}
use metalbond.RouteTable.{
  RouteTable, find, ensure_path, next_hop_exists, get_vnis, get_destinations_by_vni,
  get_destinations_by_vni_with_peer, get_nexthops_by_destination, nexthops_of,
  nexthops_with_peers_of, peers_of,
}
use metalbond.RouteTable.Effects.{find-ensure_path}
use metalbond.RouteTable.Pruned.{IsPruned}

module _ {N R : Type 0} ⦃cn : Comparable N⦄ where
  get-peers_of : (m : Map N (Map R Bool)) (n : N) → get (peers_of m) n ≡ Option.map keys (get m n)
  unfolding get
  get-peers_of [] d = refl
  get-peers_of ((j, hops) ∷ m) d = ground (arith, get-peers_of m d)

  keys-peers_of : (m : Map N (Map R Bool)) → keys (peers_of m) ≡ keys m
  keys-peers_of [] = refl
  keys-peers_of ((n, x) ∷ m) = ap (◌∷◌ n) (keys-peers_of m)

module _ {K J V : Type 0} ⦃c : Comparable K⦄ where
  keys-at :
      (m : Map K (Map J V)) (k : K) → Option.get_or (Option.map keys (get m k)) [] ≡ keys (at m k)
  unfolding at
  keys-at m k = ground arith

module _ {D N R : Type 0} ⦃cd : Comparable D⦄ ⦃cn : Comparable N⦄ ⦃cr : Comparable R⦄ where
  -- a next hop that the table holds a route to is listed
  pub find-listed :
      (rt : RouteTable D N R) (vni : ℕ) (dest : D) (nh : N) (r : R) {b : Bool}
      → find rt vni dest nh r ≡ some b
      → contains (get_nexthops_by_destination rt vni dest) nh ≡ true
  unfolding find get_nexthops_by_destination at get
  find-listed rt vni dest nh r h = elim (Option-cases (get (at (at rt vni) dest) nh)) [
    | inl e ↦ absurd (ground arith)
    | inr (x, e) ↦ get-contains (at (at rt vni) dest) nh x e
  ]

  first_peer :
      (rt : RouteTable D N R) (vni : ℕ) (dest : D) (nh : N) (x : Map R Bool)
      → IsPruned rt
      → get (at (at rt vni) dest) nh ≡ some x
      → (r : R) × (is_some (find rt vni dest nh r) ≡ true)
  unfolding find
  first_peer rt vni dest nh [] p h = absurd (p.hops vni dest nh h)
  first_peer rt vni dest nh ((r, b) ∷ x) p h =
      (r, rw (at_of_get (at (at rt vni) dest) nh ((r, b) ∷ x) h, get-head r b x))

  -- In a table with nothing empty, `GetNextHopsByDestination` lists exactly the next hops that some
  -- peer's route leads to.
  pub listed_iff :
      (rt : RouteTable D N R) (vni : ℕ) (dest : D) (nh : N)
      → IsPruned rt
      → (contains (get_nexthops_by_destination rt vni dest) nh ≡ true)
        ↔ ((r : R) × (is_some (find rt vni dest nh r) ≡ true))
  unfolding get_nexthops_by_destination
  listed_iff rt vni dest nh p = (
    λ h. let (x, e) = contains-get (at (at rt vni) dest) nh h in first_peer rt vni dest nh x p e,
    λ (r, h). elim (Option-cases (find rt vni dest nh r)) [
      | inl e ↦ absurd (ground arith)
      | inr (b, e) ↦ unfold get_nexthops_by_destination in find-listed rt vni dest nh r e
    ],
  )

  first_hop :
      (rt : RouteTable D N R) (vni : ℕ) (dest : D) (x : Map N (Map R Bool))
      → IsPruned rt
      → get (at rt vni) dest ≡ some x
      → (nh : N) × (r : R) × (is_some (find rt vni dest nh r) ≡ true)
  first_hop rt vni dest [] p h = absurd (p.dests vni dest h)
  first_hop rt vni dest ((n, y) ∷ x) p h =
      let (r, e) =
        first_peer rt vni dest n y p (rw (at_of_get (at rt vni) dest _ h) (get-head n y x)) in
      (n, r, e)

  first_dest :
      (rt : RouteTable D N R) (vni : ℕ) (x : Map D (Map N (Map R Bool)))
      → IsPruned rt
      → get rt vni ≡ some x
      → (dest : D) × (nh : N) × (r : R) × (is_some (find rt vni dest nh r) ≡ true)
  first_dest rt vni [] p h = absurd (p.vnis vni h)
  first_dest rt vni ((d, y) ∷ x) p h =
      let (n, r, e) = first_hop rt vni d y p (rw (at_of_get rt vni _ h) (get-head d y x)) in
      (d, n, r, e)

  find-vni :
      (rt : RouteTable D N R) (vni : ℕ) (dest : D) (nh : N) (r : R)
      → is_some (find rt vni dest nh r) ≡ true
      → (x : Map D (Map N (Map R Bool))) × (get rt vni ≡ some x)
  unfolding find at get
  find-vni rt vni dest nh r h = ground arith

  -- In a table with nothing empty, `GetVNIs` lists exactly the VNIs that have a route.
  pub get_vnis_iff :
      (rt : RouteTable D N R) (vni : ℕ)
      → IsPruned rt
      → (contains (get_vnis rt) vni ≡ true)
        ↔ ((dest : D) × (nh : N) × (r : R) × (is_some (find rt vni dest nh r) ≡ true))
  unfolding get_vnis
  get_vnis_iff rt vni p = (
    λ h. let (x, e) = contains-get rt vni h in first_dest rt vni x p e,
    λ (d, n, r, h). let (x, e) = find-vni rt vni d n r h in get-contains rt vni x e,
  )

  pub get-nexthops_of :
      (m : Map D (Map N (Map R Bool))) (d : D) → get (nexthops_of m) d ≡ Option.map keys (get m d)
  unfolding get
  get-nexthops_of [] d = refl
  get-nexthops_of ((j, hops) ∷ m) d = ground (arith, get-nexthops_of m d)

  get-nexthops_with_peers_of :
      (m : Map D (Map N (Map R Bool))) (d : D)
      → get (nexthops_with_peers_of m) d ≡ Option.map peers_of (get m d)
  unfolding get
  get-nexthops_with_peers_of [] d = refl
  get-nexthops_with_peers_of ((j, hops) ∷ m) d = ground (arith, get-nexthops_with_peers_of m d)

  at-nexthops_with_peers_of :
      (m : Map D (Map N (Map R Bool))) (d : D) → at (nexthops_with_peers_of m) d ≡ peers_of (at m d)
  unfolding at
  at-nexthops_with_peers_of m d = ground (arith, get-nexthops_with_peers_of m d)

  pub listed_below :
      (rt : RouteTable D N R) (vni : ℕ) (dest : D)
      → Option.get_or (get (get_destinations_by_vni rt vni) dest) []
        ≡ get_nexthops_by_destination rt vni dest
  unfolding get_destinations_by_vni get_nexthops_by_destination
  listed_below rt vni dest = rw (get-nexthops_of (at rt vni) dest) (keys-at (at rt vni) dest)

  -- The three listings of a VNI agree: below each destination stand the next hops that
  -- `GetNextHopsByDestination` returns for it, and below each of these the peers that hold the route.
  pub listings_agree :
      (rt : RouteTable D N R) (vni : ℕ) (dest : D) (nh : N) (r : R)
      → (Option.get_or (get (get_destinations_by_vni rt vni) dest) []
          ≡ get_nexthops_by_destination rt vni dest)
        × (keys (at (get_destinations_by_vni_with_peer rt vni) dest)
            ≡ get_nexthops_by_destination rt vni dest)
        × (contains
              (Option.get_or (get (at (get_destinations_by_vni_with_peer rt vni) dest) nh) [])
              r
            ≡ is_some (find rt vni dest nh r))
  unfolding get_destinations_by_vni get_destinations_by_vni_with_peer get_nexthops_by_destination
  listings_agree rt vni dest nh r = (
    unfold get_destinations_by_vni get_nexthops_by_destination in listed_below rt vni dest,
    rw (at-nexthops_with_peers_of (at rt vni) dest) (keys-peers_of (at (at rt vni) dest)),
    rw
        (
          at-nexthops_with_peers_of (at rt vni) dest,
          get-peers_of (at (at rt vni) dest) nh,
          keys-at (at (at rt vni) dest) nh,
        )
        (unfold find in contains-keys (at (at (at rt vni) dest) nh) r),
  )

  listed-ensure_path :
      (rt : RouteTable D N R) (vni : ℕ) (dest : D) (nh : N)
      → contains (get_nexthops_by_destination (ensure_path rt vni dest nh) vni dest) nh ≡ true
  unfolding get_nexthops_by_destination ensure_path
  listed-ensure_path rt vni dest nh = rw contains-keys (simp (nested_laws, entry_laws, same_refl))

  -- `NextHopExists` answers as the table stands and changes no route, but leaves an entry for the
  -- next hop that it was asked about: from then on the next hop is listed, held by a peer or not.
  pub next_hop_exists-listed :
      (rt : RouteTable D N R) (vni v : ℕ) (dest d : D) (nh n : N) (from r : R)
      → ((next_hop_exists rt vni dest nh from).1 ≡ is_some (find rt vni dest nh from))
        × (find (next_hop_exists rt vni dest nh from).0 v d n r ≡ find rt v d n r)
        × (contains
              (get_nexthops_by_destination (next_hop_exists rt vni dest nh from).0 vni dest)
              nh
            ≡ true)
  unfolding next_hop_exists
  next_hop_exists-listed rt vni v dest d nh n from r = (
    ground (arith, find-ensure_path rt vni vni dest dest nh nh from),
    ground (arith, find-ensure_path rt vni v dest d nh n r),
    ground (arith, listed-ensure_path rt vni dest nh),
  )
