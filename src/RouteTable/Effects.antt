-- ===== src/RouteTable/Effects.antt =====
-- What the methods of routetable.go do to the routes that a table holds.
use metalbond.Base.{
  ap, ℕ, ◌≡◌, Bool, true, none, some, length, Comparable, nat_comparable, same, arith,
  if◌then◌else◌, ◌&&◌, is_some, ◌||◌, not, ◌↔◌, Option-cases, inl, inr, same_refl,
}
use metalbond.Base.Map.{get, length-zero_iff}
use metalbond.Base.Map.Nested.{at, nested_laws}
use metalbond.RouteTable.{
  RouteTable, find, ensure_path, add_next_hop, delete_next_hop, remove_next_hop, Error,
  insert_next_hop, nexthop_already_exists, vni_missing, destination_missing, nexthop_missing,
  received_from_missing,
}

module _ {D N R : Type 0} ⦃cd : Comparable D⦄ ⦃cn : Comparable N⦄ ⦃cr : Comparable R⦄ where
  pub find-ensure_path :
      (rt : RouteTable D N R) (vni v : ℕ) (dest d : D) (nh n : N) (r : R)
      → find (ensure_path rt vni dest nh) v d n r ≡ find rt v d n r
  unfolding find ensure_path
  find-ensure_path rt vni v dest d nh n r = simp nested_laws

  -- the two routes have the same keys
  abbrev pub same_route : ℕ → D → N → R → ℕ → D → N → R → Bool
  same_route vni dest nh from v d n r = ((same vni v && same dest d) && same nh n) && same from r

  find-delete_next_hop :
      (rt : RouteTable D N R) (vni v : ℕ) (dest d : D) (nh n : N) (from r : R)
      → find (delete_next_hop rt vni dest nh from).0 v d n r
        ≡ (if same_route vni dest nh from v d n r then none else find rt v d n r)
  unfolding find delete_next_hop
  find-delete_next_hop rt vni v dest d nh n from r = simp nested_laws

  find-insert :
      (rt : RouteTable D N R) (vni v : ℕ) (dest d : D) (nh n : N) (from r : R)
      → find (insert_next_hop rt vni dest nh from) v d n r
        ≡ (if same_route vni dest nh from v d n r then some true else find rt v d n r)
  unfolding find insert_next_hop
  find-insert rt vni v dest d nh n from r = simp nested_laws

  pub find-insert_self :
      (rt : RouteTable D N R) (vni : ℕ) (dest : D) (nh : N) (from : R)
      → find (insert_next_hop rt vni dest nh from) vni dest nh from ≡ some true
  find-insert_self rt vni dest nh from =
      rw (find-insert rt vni vni dest dest nh nh from from) (simp same_refl)

  -- `AddNextHop` refuses exactly the routes that the table holds, and then no route changes. Else
  -- it returns no error, and adds this route and no other.
  pub find-add_next_hop :
      (rt : RouteTable D N R) (vni v : ℕ) (dest d : D) (nh n : N) (from r : R)
      → ((add_next_hop rt vni dest nh from).1
          ≡ (if is_some (find rt vni dest nh from) then some nexthop_already_exists else none))
        × (is_some (find (add_next_hop rt vni dest nh from).0 v d n r)
            ≡ (same_route vni dest nh from v d n r || is_some (find rt v d n r)))
  unfolding add_next_hop
  find-add_next_hop rt vni v dest d nh n from r = (
    ground (arith, find-ensure_path rt vni vni dest dest nh nh from),
    ground (
      arith,
      find-ensure_path rt vni vni dest dest nh nh from,
      find-ensure_path rt vni v dest d nh n r,
      find-insert (ensure_path rt vni dest nh) vni v dest d nh n from r,
    ),
  )

  -- on a route that the table holds `RemoveNextHop` gets past its guards
  pub remove_next_hop_held :
      (rt : RouteTable D N R) (vni : ℕ) (dest : D) (nh : N) (from : R) {b : Bool}
      → find rt vni dest nh from ≡ some b
      → remove_next_hop rt vni dest nh from
        ≡ ((delete_next_hop rt vni dest nh from).0, ((delete_next_hop rt vni dest nh from).1, none))
  unfolding remove_next_hop find at get
  remove_next_hop_held rt vni dest nh from h = ground arith

  -- the guard that stops `RemoveNextHop` is the first level that has no entry
  abbrev pub missing : RouteTable D N R → ℕ → D → N → Error
  missing rt vni dest nh =
      if not (is_some (get rt vni))
      then vni_missing
      else if not (is_some (get (at rt vni) dest))
      then destination_missing
      else if not (is_some (get (at (at rt vni) dest) nh))
      then nexthop_missing
      else received_from_missing

  pub remove_next_hop-missing :
      (rt : RouteTable D N R) (vni : ℕ) (dest : D) (nh : N) (from : R)
      → find rt vni dest nh from ≡ none
      → remove_next_hop rt vni dest nh from ≡ (rt, (0, some (missing rt vni dest nh)))
  unfolding remove_next_hop find at get
  remove_next_hop-missing rt vni dest nh from h = ground arith

  -- `RemoveNextHop` fails exactly on the routes that the table does not hold, with the error of the
  -- first level that has no entry. It takes away its own route and no other.
  pub find-remove_next_hop :
      (rt : RouteTable D N R) (vni v : ℕ) (dest d : D) (nh n : N) (from r : R)
      → ((remove_next_hop rt vni dest nh from).1.1
          ≡ (if is_some (find rt vni dest nh from) then none else some (missing rt vni dest nh)))
        × (is_some (find (remove_next_hop rt vni dest nh from).0 v d n r)
            ≡ (not (same_route vni dest nh from v d n r) && is_some (find rt v d n r)))
  find-remove_next_hop rt vni v dest d nh n from r =
      elim (Option-cases (find rt vni dest nh from)) [
        | inl e ↦ rw (remove_next_hop-missing rt vni dest nh from e) (rw e, ground arith)
        | inr (b, e) ↦
            rw (remove_next_hop_held rt vni dest nh from e)
              (rw e, ground (arith, find-delete_next_hop rt vni v dest d nh n from r))
      ]

  -- a table that refuses to remove a route is left as it is
  pub remove_next_hop-refused :
      (rt : RouteTable D N R) (vni : ℕ) (dest : D) (nh : N) (from : R) {x : Error}
      → (remove_next_hop rt vni dest nh from).1.1 ≡ some x
      → (remove_next_hop rt vni dest nh from).0 ≡ rt
  remove_next_hop-refused rt vni dest nh from e = elim (Option-cases (find rt vni dest nh from)) [
    | inl f ↦ ap (λ r. r.0) (remove_next_hop-missing rt vni dest nh from f)
    | inr (y, f) ↦
        absurd (ground (arith, e, f, (find-remove_next_hop rt vni vni dest dest nh nh from from).0))
  ]

  at-delete_next_hop :
      (rt : RouteTable D N R) (vni : ℕ) (dest : D) (nh : N) (from r : R)
      → (delete_next_hop rt vni dest nh from).1
        ≡ length (at (at (at (delete_next_hop rt vni dest nh from).0 vni) dest) nh)
  unfolding delete_next_hop
  at-delete_next_hop rt vni dest nh from r = simp nested_laws

  -- On a route that the table holds, the number that `RemoveNextHop` returns is 0 exactly when no peer
  -- is left for the next hop.
  pub remove_next_hop_left :
      (rt : RouteTable D N R) (vni : ℕ) (dest : D) (nh : N) (from : R) {b : Bool}
      → find rt vni dest nh from ≡ some b
      → ((remove_next_hop rt vni dest nh from).1.0 ≡ 0)
        ↔ ((r : R) → find (remove_next_hop rt vni dest nh from).0 vni dest nh r ≡ none)
  unfolding find
  remove_next_hop_left rt vni dest nh from h =
      rw (remove_next_hop_held rt vni dest nh from h, at-delete_next_hop rt vni dest nh from from)
        (length-zero_iff _)
