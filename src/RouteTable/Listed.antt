-- ===== src/RouteTable/Listed.antt =====
-- routetable.go: the listing of a VNI, as the loops over it go through it.
use metalbond.Base.{
  ℕ, ◌≡◌, Bool, true, false, ◌&&◌, ◌||◌, some, List, [], ◌∷◌, Comparable, nat_comparable, same,
  arith, Option-cases, inl, inr, is_some, contains, IsDistinct, refl, ap,
}
use mathlib.Core.Option
use metalbond.Base.Map.{Map, keys, get}
use metalbond.Base.Map.Nested.{at}
use metalbond.RouteTable.{
  RouteTable, find, get_destinations_by_vni, get_nexthops_by_destination, nexthops_of,
}
use metalbond.RouteTable.Listing.{listings_agree, find-listed, get-nexthops_of}
use metalbond.RouteTable.Own.{IsOwn, TableMaps, listed-own}

module _ {D N : Type 0} ⦃cd : Comparable D⦄ ⦃cn : Comparable N⦄ where
  -- a loop over the listing comes to the next hop at the destination
  abbrev pub lists : Map D (List N) → D → N → Bool
  lists [] d h = false
  lists ((dest, nhs) ∷ m) d h = let rest = lists m d h in (same dest d && contains nhs h) || rest

  lists-get :
      (m : Map D (List N)) (d : D) (h : N)
      → contains (Option.get_or (get m d) []) h ≡ true
      → lists m d h ≡ true
  unfolding get contains
  lists-get [] d h e = ground arith
  lists-get ((dest, nhs) ∷ m) d h e = ground (arith, lists-get m d h, e)

module _ {D N R : Type 0} ⦃cd : Comparable D⦄ ⦃cn : Comparable N⦄ ⦃cr : Comparable R⦄ where
  -- each route of the VNI is come to
  pub lists-find :
      (rt : RouteTable D N R) (vni : ℕ) (d : D) (h : N) (r : R)
      → is_some (find rt vni d h r) ≡ true
      → lists (get_destinations_by_vni rt vni) d h ≡ true
  lists-find rt vni d h r e = elim (Option-cases (find rt vni d h r)) [
    | inl f ↦ absurd (ground (arith, e, f))
    | inr (b, f) ↦
        lists-get (get_destinations_by_vni rt vni) d h
          (ground (arith, (listings_agree rt vni d h r).0, find-listed rt vni d h r f))
  ]

  -- A listing of routes that are all there: no destination and no next hop comes twice.
  pub record IsListing (rt : RouteTable D N R) (vni : ℕ) (p : R) (m : Map D (List N)) : Type 0 where
    pub dests : IsDistinct (keys m)
    pub hops : (d : D) {nhs : List N} → get m d ≡ some nhs → IsDistinct nhs
    pub held :
        (d : D) (h : N) {nhs : List N}
        → get m d ≡ some nhs
        → contains nhs h ≡ true
        → is_some (find rt vni d h p) ≡ true

  keys-nexthops_of : (m : Map D (Map N (Map R Bool))) → keys (nexthops_of m) ≡ keys m
  keys-nexthops_of [] = refl
  keys-nexthops_of ((d, x) ∷ m) = ap (◌∷◌ d) (keys-nexthops_of m)

  pub listing-IsDistinct :
      (rt : RouteTable D N R) (vni : ℕ)
      → TableMaps rt
      → IsDistinct (keys (get_destinations_by_vni rt vni))
  unfolding get_destinations_by_vni
  listing-IsDistinct rt vni g = rw (keys-nexthops_of (at rt vni)) ((g.each vni).distinct)

  -- what is listed below a destination
  listed-keys :
      (m : Map D (Map N (Map R Bool))) (d : D) {nhs : List N}
      → get (nexthops_of m) d ≡ some nhs
      → nhs ≡ keys (at m d)
  unfolding at
  listed-keys m d e = ground (arith, e, get-nexthops_of m d)

  pub get_destinations_by_vni-IsListing :
      (rt : RouteTable D N R) (vni : ℕ) (p : R)
      → IsOwn p rt
      → IsListing rt vni p (get_destinations_by_vni rt vni)
  unfolding get_destinations_by_vni
  get_destinations_by_vni-IsListing rt vni p g = record {
    dests = unfold get_destinations_by_vni in listing-IsDistinct rt vni g.maps;
    hops = λ d {nhs} e. rw (listed-keys (at rt vni) d e) (((g.maps.each vni).each d).distinct);
    held = λ d h {nhs} e k.
        listed-own p rt vni d h g
          (unfold get_nexthops_by_destination in rw (listed-keys (at rt vni) d e) at k);
  }
