-- ===== src/Bond/Announce.antt =====
-- metalbond.go: the routes that the node itself announces.
use metalbond.Base.{ℕ, Bool, none, some, Comparable, if◌then◌else◌, ◌==◌}
use metalbond.Types.{Destination, NextHop, add, remove, destination_comparable, next_hop_comparable}
use metalbond.RouteTable.{add_next_hop, remove_next_hop, next_hop_exists}
use metalbond.Bond.{peer_ref_comparable, table, Node, Env, Method, Routes}
use metalbond.Bond.Distribute.{distribute_route_to_peers}

module _ {A P S : Type 0} where
  unfoldable pub set_announcements : Routes A P → Node A P S → Node A P S
  set_announcements rt n = record n { bond = record n.bond { my_announcements = rt } }

module _ {A P S : Type 0} ⦃ca : Comparable A⦄ ⦃cp : Comparable P⦄ where
  -- `IsRouteAnnounced`; `NextHopExists` may write to the table
  unfoldable pub is_route_announced : ℕ → Destination P → NextHop A → Node A P S → Node A P S × Bool
  is_route_announced vni dest hop n =
      let (rt, found) = next_hop_exists n.bond.my_announcements vni dest hop none in
      (set_announcements rt n, found)

module _ {A P S : Type 0} ⦃ca : Comparable A⦄ ⦃cp : Comparable P⦄ (env : Env A P S) where
  unfoldable pub announce_route : ℕ → Destination P → NextHop A → Method A P S
  announce_route vni dest hop n =
      let (rt, e) = add_next_hop n.bond.my_announcements vni dest hop none in
      let n' = set_announcements rt n in
      elim e [
        | some x ↦ (n', some (table x))
        | none ↦ distribute_route_to_peers env add vni dest hop none n'
      ]

  unfoldable pub withdraw_route : ℕ → Destination P → NextHop A → Method A P S
  withdraw_route vni dest hop n =
      let (rt, (remaining, e)) = remove_next_hop n.bond.my_announcements vni dest hop none in
      let n' = set_announcements rt n in
      elim e [
        | some x ↦ (n', some (table x))
        | none ↦
            if remaining == 0
            then distribute_route_to_peers env remove vni dest hop none n'
            else (n', none)
      ]
