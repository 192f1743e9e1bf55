-- ===== src/RouteTable/Refinement.antt =====
-- routetable.go: any sequence of calls, against a set of routes.
use metalbond.Base.{
  ℕ, ◌≡◌, Bool, true, false, not, ◌&&◌, ◌||◌, none, some, List, [], ◌∷◌, Comparable, nat_comparable,
  same, arith, refl, is_some, ap,
}
use metalbond.RouteTable.{
  RouteTable, find, add_next_hop, remove_next_hop, next_hop_exists, new_route_table,
}
use metalbond.RouteTable.Effects.{find-add_next_hop, find-remove_next_hop, same_route}
use metalbond.RouteTable.Listing.{next_hop_exists-listed}

pub data Call (D N R : Type 0) : Type 0 where
  adds removes asks : ℕ → D → N → R → Call D N R

-- the abstract table: which peer has which route
abbrev pub RouteSet : (D N R : Type 0) → Type 0
RouteSet D N R = ℕ → D → N → R → Bool

module _ {D N R : Type 0} ⦃cd : Comparable D⦄ ⦃cn : Comparable N⦄ ⦃cr : Comparable R⦄ where
  -- the calls in their order, and for each whether it failed, or what it answered
  abbrev pub run : List (Call D N R) → RouteTable D N R → RouteTable D N R × List Bool
  run [] rt = (rt, [])
  run (adds vni d n r ∷ calls) rt =
      let (rt1, e) = add_next_hop rt vni d n r in
      let (rt2, es) = run calls rt1 in (rt2, is_some e ∷ es)
  run (removes vni d n r ∷ calls) rt =
      let (rt1, (left, e)) = remove_next_hop rt vni d n r in
      let (rt2, es) = run calls rt1 in (rt2, is_some e ∷ es)
  run (asks vni d n r ∷ calls) rt =
      let (rt1, found) = next_hop_exists rt vni d n r in
      let (rt2, es) = run calls rt1 in (rt2, found ∷ es)

  -- a route is added if it is no member, and taken away if it is one
  abbrev pub insert : RouteSet D N R → ℕ → D → N → R → RouteSet D N R
  insert s vni d n r v d' n' r' = same_route vni d n r v d' n' r' || s v d' n' r'

  abbrev pub take_away : RouteSet D N R → ℕ → D → N → R → RouteSet D N R
  take_away s vni d n r v d' n' r' = not (same_route vni d n r v d' n' r') && s v d' n' r'

  abbrev pub run_set : List (Call D N R) → RouteSet D N R → RouteSet D N R × List Bool
  run_set [] s = (s, [])
  run_set (adds vni d n r ∷ calls) s =
      let (s2, es) = run_set calls (insert s vni d n r) in (s2, s vni d n r ∷ es)
  run_set (removes vni d n r ∷ calls) s =
      let (s2, es) = run_set calls (take_away s vni d n r) in (s2, not (s vni d n r) ∷ es)
  run_set (asks vni d n r ∷ calls) s = let (s2, es) = run_set calls s in (s2, s vni d n r ∷ es)

  -- the table holds the routes of the set
  pub record Holds (rt : RouteTable D N R) (s : RouteSet D N R) : Type 0 where
    pub agrees : (v : ℕ) (d : D) (n : N) (r : R) → is_some (find rt v d n r) ≡ s v d n r

  run-Holds :
      (calls : List (Call D N R)) (rt : RouteTable D N R) (s : RouteSet D N R)
      → Holds rt s
      → Holds (run calls rt).0 (run_set calls s).0 × ((run calls rt).1 ≡ (run_set calls s).1)
  run-Holds [] rt s h = (h, refl)
  run-Holds (adds vni d n r ∷ calls) rt s h =
      let done = (find-add_next_hop rt vni vni d d n n r r).0 in
      let rest = run-Holds calls (add_next_hop rt vni d n r).0 (insert s vni d n r) (record {
        agrees = λ v d' n' r'.
            ground (arith, (find-add_next_hop rt vni v d d' n n' r r').1, h.agrees v d' n' r');
      }) in
      (rest.0, ground (arith, rest.1, done, h.agrees vni d n r))
  run-Holds (removes vni d n r ∷ calls) rt s h =
      let done = (find-remove_next_hop rt vni vni d d n n r r).0 in
      let rest = run-Holds calls (remove_next_hop rt vni d n r).0 (take_away s vni d n r) (record {
        agrees = λ v d' n' r'.
            ground (arith, (find-remove_next_hop rt vni v d d' n n' r r').1, h.agrees v d' n' r');
      }) in
      (rest.0, ground (arith, rest.1, done, h.agrees vni d n r))
  run-Holds (asks vni d n r ∷ calls) rt s h =
      let done = (next_hop_exists-listed rt vni vni d d n n r r).0 in
      let rest = run-Holds calls (next_hop_exists rt vni d n r).0 s (record {
        agrees = λ v d' n' r'. ground (
          arith,
          ap is_some ((next_hop_exists-listed rt vni v d d' n n' r r').1),
          h.agrees v d' n' r',
        );
      }) in
      (rest.0, ground (arith, rest.1, done, h.agrees vni d n r))

  -- Whatever calls of AddNextHop, RemoveNextHop and NextHopExists are made on a new table, in any
  -- order, the table holds the routes of a set that starts empty and to which a route is added, or
  -- from which it is taken, by the same calls; exactly the calls fail that add a member or take what
  -- is none, and NextHopExists answers whether the route is a member.
  pub run-RouteSet :
      (calls : List (Call D N R))
      → Holds (run calls new_route_table).0 (run_set calls (λ v d n r. false)).0
        × ((run calls new_route_table).1 ≡ (run_set calls (λ v d n r. false)).1)
  unfolding new_route_table find metalbond.Base.Map.get metalbond.Base.Map.Nested.at
  run-RouteSet calls =
      run-Holds calls new_route_table (λ v d n r. false) (record { agrees = λ v d n r. refl })
