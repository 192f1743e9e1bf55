-- ===== src/RouteTable.antt =====
-- routetable.go: the table of routes by VNI, destination, next hop and the peer that each was
-- received from. The keys below a VNI are any types that Go compares with `==`. A table is built by
-- `new_route_table`, so its map is never nil, and its mutex makes each method one step.
pub mod Effects
pub mod Pruned
pub mod Listing
pub mod Own
pub mod Listed
pub mod Refinement
use metalbond.Base.{
  ℕ, Bool, true, false, Option, none, some, List, [], ◌∷◌, length, Comparable, nat_comparable,
}
use metalbond.Base.Map.{Map, keys, get, put, delete}
use metalbond.Base.Map.Nested.{at, ensure, update, prune}

-- the errors of `AddNextHop` and `RemoveNextHop`
pub data Error : Type 0 where
  vni_missing destination_missing nexthop_missing received_from_missing : Error
  nexthop_already_exists : Error

abbrev pub RouteTable : Type 0 → Type 0 → Type 0 → Type 0
RouteTable D N R = Map ℕ (Map D (Map N (Map R Bool)))

module _ {N R : Type 0} where
  abbrev peers_of : Map N (Map R Bool) → Map N (List R)
  peers_of [] = []
  peers_of ((n, peers) ∷ m) = (n, keys peers) ∷ peers_of m

module _ {D N R : Type 0} where
  unfoldable pub new_route_table : RouteTable D N R
  new_route_table = []

  unfoldable pub get_vnis : RouteTable D N R → List ℕ
  get_vnis rt = keys rt

  abbrev nexthops_of : Map D (Map N (Map R Bool)) → Map D (List N)
  nexthops_of [] = []
  nexthops_of ((d, hops) ∷ m) = (d, keys hops) ∷ nexthops_of m

  -- a missing VNI is the empty map, over which the loop makes no round
  unfoldable pub get_destinations_by_vni : RouteTable D N R → ℕ → Map D (List N)
  get_destinations_by_vni rt vni = nexthops_of (at rt vni)

  abbrev nexthops_with_peers_of : Map D (Map N (Map R Bool)) → Map D (Map N (List R))
  nexthops_with_peers_of [] = []
  nexthops_with_peers_of ((d, hops) ∷ m) = (d, peers_of hops) ∷ nexthops_with_peers_of m

  unfoldable pub get_destinations_by_vni_with_peer : RouteTable D N R → ℕ → Map D (Map N (List R))
  get_destinations_by_vni_with_peer rt vni = nexthops_with_peers_of (at rt vni)

module _ {D N R : Type 0} ⦃cd : Comparable D⦄ where
  unfoldable pub get_nexthops_by_destination : RouteTable D N R → ℕ → D → List N
  get_nexthops_by_destination rt vni dest = keys (at (at rt vni) dest)

module _ {D N R : Type 0} ⦃cd : Comparable D⦄ ⦃cn : Comparable N⦄ where
  -- the three `make` guards that `AddNextHop` and `NextHopExists` share
  unfoldable pub ensure_path : RouteTable D N R → ℕ → D → N → RouteTable D N R
  ensure_path rt vni dest nh =
      let with_vni = ensure rt vni in
      let with_dest = update with_vni vni (λ dests. ensure dests dest) in
      update with_dest vni (λ dests. update dests dest (λ hops. ensure hops nh))

module _ {D N R : Type 0} ⦃cd : Comparable D⦄ ⦃cn : Comparable N⦄ ⦃cr : Comparable R⦄ where
  -- `rt.routes[vni][dest][nh][receivedFrom]`
  unfoldable pub find : RouteTable D N R → ℕ → D → N → R → Option Bool
  find rt vni dest nh from = get (at (at (at rt vni) dest) nh) from

  -- `rt.routes[vni][dest][nh][receivedFrom] = true`
  unfoldable pub insert_next_hop : RouteTable D N R → ℕ → D → N → R → RouteTable D N R
  insert_next_hop rt vni dest nh from =
      update rt vni
        (λ dests. update dests dest (λ hops. update hops nh (λ peers. put peers from true)))

  unfoldable pub add_next_hop : RouteTable D N R → ℕ → D → N → R → RouteTable D N R × Option Error
  add_next_hop rt vni dest nh from =
      let path = ensure_path rt vni dest nh in
      elim (find path vni dest nh from) [
        | some _ ↦ (path, some nexthop_already_exists)
        | none ↦ (insert_next_hop path vni dest nh from, none)
      ]

  unfoldable pub next_hop_exists : RouteTable D N R → ℕ → D → N → R → RouteTable D N R × Bool
  next_hop_exists rt vni dest nh from =
      let path = ensure_path rt vni dest nh in
      elim (find path vni dest nh from) [ some _ ↦ (path, true) | none ↦ (path, false) ]

  -- the part of `RemoveNextHop` behind its guards: the number of peers left, and the table
  unfoldable pub delete_next_hop : RouteTable D N R → ℕ → D → N → R → RouteTable D N R × ℕ
  delete_next_hop rt vni dest nh from =
      let deleted =
        update rt vni
          (λ dests. update dests dest (λ hops. update hops nh (λ peers. delete peers from))) in
      let left = length (at (at (at deleted vni) dest) nh) in
      let no_hop = update deleted vni (λ dests. update dests dest (λ hops. prune hops nh)) in
      let no_dest = update no_hop vni (λ dests. prune dests dest) in (prune no_dest vni, left)

  -- the number of peers that are left, or an error
  unfoldable pub remove_next_hop :
      RouteTable D N R → ℕ → D → N → R → RouteTable D N R × (ℕ × Option Error)
  remove_next_hop rt vni dest nh from = elim (get rt vni) [
    | none ↦ (rt, (0, some vni_missing))
    | some dests ↦ elim (get dests dest) [
      | none ↦ (rt, (0, some destination_missing))
      | some hops ↦ elim (get hops nh) [
        | none ↦ (rt, (0, some nexthop_missing))
        | some peers ↦ elim (get peers from) [
          | none ↦ (rt, (0, some received_from_missing))
          | some _ ↦ let (rt', left) = delete_next_hop rt vni dest nh from in (rt', (left, none))
        ]
      ]
    ]
  ]
