-- ===== src/Examples/Routes.antt =====
-- routetable.go on a small table: one route of VNI 100 to destination 7 by next hop 9, from peer 1.
use metalbond.Base.{
  ℕ, ◌≡◌, ◌↔◌, Bool, true, false, not, ◌&&◌, ◌||◌, some, none, [], ◌∷◌, refl, is_some,
  nat_comparable, contains, if◌then◌else◌, same,
}
use metalbond.Base.Map.{get, put, delete}
use metalbond.Base.Map.Nested.{at, ensure, update, prune}
use metalbond.RouteTable.{
  RouteTable, new_route_table, get_vnis, ensure_path, find, insert_next_hop, add_next_hop,
  next_hop_exists, delete_next_hop, remove_next_hop, nexthop_already_exists, nexthop_missing,
}
use metalbond.RouteTable.Effects.{same_route, missing, find-add_next_hop, find-remove_next_hop}
use metalbond.RouteTable.Pruned.{IsPruned, new_route_table-IsPruned, add_remove-IsPruned}

abbrev Table : Type 0
Table = RouteTable ℕ ℕ ℕ

-- what a run computes with
run : Unit {0}
unfolding add_next_hop remove_next_hop next_hop_exists insert_next_hop delete_next_hop ensure_path
    find new_route_table get put delete at ensure update prune metalbond.Base.ℕ_discrete get_vnis
run = tt

abbrev empty : Table
empty = new_route_table

abbrev one : Table
one = (add_next_hop empty 100 7 9 1).0

-- a second peer has the same next hop
abbrev two : Table
two = (add_next_hop one 100 7 9 2).0

add_twice : (add_next_hop one 100 7 9 1).1 ≡ some nexthop_already_exists
unfolding run
add_twice = refl

remove_first : (remove_next_hop two 100 7 9 1).1 ≡ (1, none)
unfolding run
remove_first = refl

remove_last : remove_next_hop one 100 7 9 1 ≡ ([], (0, none))
unfolding run
remove_last = refl

remove_other : (remove_next_hop one 100 7 8 1).1 ≡ (0, some nexthop_missing)
unfolding run
remove_other = refl

-- a question about VNI 5 leaves the VNI in the table
ask : get_vnis (next_hop_exists one 5 7 9 1).0 ≡ 5 ∷ 100 ∷ []
unfolding run
ask = refl

one-IsPruned : IsPruned one
one-IsPruned = (add_remove-IsPruned 100 7 9 1 new_route_table-IsPruned).0

held : find one 100 7 9 1 ≡ some true
unfolding run
held = refl

find-add_next_hop_example :
    ((add_next_hop one 100 7 9 2).1
      ≡ (if is_some (find one 100 7 9 2) then some nexthop_already_exists else none))
    × (is_some (find (add_next_hop one 100 7 9 2).0 100 7 9 1)
        ≡ (same_route {D = ℕ} {N = ℕ} {R = ℕ} 100 7 9 2 100 7 9 1 || is_some (find one 100 7 9 1)))
find-add_next_hop_example = find-add_next_hop one 100 100 7 7 9 9 2 1

find-remove_next_hop_example :
    ((remove_next_hop one 100 7 9 1).1.1
      ≡ (if is_some (find one 100 7 9 1) then none else some (missing one 100 7 9)))
    × (is_some (find (remove_next_hop one 100 7 9 1).0 100 7 9 1) ≡ (
        not (same_route {D = ℕ} {N = ℕ} {R = ℕ} 100 7 9 1 100 7 9 1)
        && is_some (find one 100 7 9 1)))
find-remove_next_hop_example = find-remove_next_hop one 100 100 7 7 9 9 1 1

add_remove-IsPruned_example :
    IsPruned (add_next_hop one 100 7 9 1).0 × IsPruned (remove_next_hop one 100 7 9 1).0
add_remove-IsPruned_example = add_remove-IsPruned 100 7 9 1 one-IsPruned
