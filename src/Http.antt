-- ===== src/Http.antt =====
-- http.go: the routes that the web pages show. `time.Now`, the templates and the marshalling are not
-- part of it, and the order of the texts that `NextHop.String` makes is an argument.
pub mod Handlers
pub mod Order
use metalbond.Base.{
  ℕ, ◌≡◌, Bool, true, false, ◌&&◌, ◌||◌, Option, none, some, List, [], ◌∷◌, ◌++◌, contains,
  contains-append, Comparable, nat_comparable, same, same_eq, arith, refl, ap, if◌then◌else◌,
  IsDistinct, Bool-cases, inl, inr, is_some, ◌∙◌,
}
use mathlib.Core.Option
use metalbond.Base.Map.{Map, get, put, keys, get-put, contains-keys}
use metalbond.RouteTable.{
  RouteTable, get_vnis, get_destinations_by_vni, get_nexthops_by_destination,
}
use metalbond.RouteTable.Listed.{lists, listing-IsDistinct}
use metalbond.RouteTable.Listing.{listed_below}
use metalbond.RouteTable.Own.{TableMaps}

-- `m[k]`, the zero value where there is no entry
abbrev pub entry : {K V : Type 0} ⦃c : Comparable K⦄ → Map K (List V) → K → List V
entry m k = Option.get_or (get m k) []

-- `sort.Slice`
module _ {N : Type 0} (le : N → N → Bool) where
  unfoldable pub put_in_order : N → List N → List N
  put_in_order h [] = h ∷ []
  put_in_order h (x ∷ xs) =
      let rest = put_in_order h xs in if le x h then x ∷ rest else h ∷ (x ∷ xs)

  unfoldable pub sort_slice : List N → List N
  unfolding put_in_order
  sort_slice [] = []
  sort_slice (x ∷ xs) = put_in_order x (sort_slice xs)

  contains-put_in_order :
      ⦃c : Comparable N⦄ (h g : N) (xs : List N)
      → contains (put_in_order h xs) g ≡ (same h g || contains xs g)
  unfolding contains put_in_order
  contains-put_in_order h g [] = refl
  contains-put_in_order h g (x ∷ xs) = ground (arith, contains-put_in_order h g xs)

  contains-sort_slice :
      ⦃c : Comparable N⦄ (g : N) (xs : List N) → contains (sort_slice xs) g ≡ contains xs g
  unfolding contains sort_slice
  contains-sort_slice g [] = refl
  contains-sort_slice g (x ∷ xs) = rw contains-put_in_order (rw (contains-sort_slice g xs))

module _ {D N : Type 0} ⦃cd : Comparable D⦄ where
  -- the loop over the destinations of a VNI
  unfoldable pub append_dests : Map D (List N) → Map D (List N) → Map D (List N)
  append_dests [] acc = acc
  append_dests ((dst, hops) ∷ m) acc = append_dests m (put acc dst (entry acc dst ++ hops))

  contains-append_dests :
      ⦃cn : Comparable N⦄ (m acc : Map D (List N)) (d : D) (h : N)
      → contains (entry (append_dests m acc) d) h ≡ (contains (entry acc d) h || lists m d h)
  unfolding append_dests contains
  contains-append_dests [] acc d h = ground arith
  contains-append_dests ((dst, hops) ∷ m) acc d h = elim (Bool-cases (same dst d)) [
    | inl e ↦ ground (
      arith,
      contains-append_dests m (put acc dst (entry acc dst ++ hops)) d h,
      get-put acc dst d (entry acc dst ++ hops),
      contains-append (entry acc dst) hops h,
      same_eq dst d e,
      e,
    )
    | inr e ↦ ground (
      arith,
      contains-append_dests m (put acc dst (entry acc dst ++ hops)) d h,
      get-put acc dst d (entry acc dst ++ hops),
      e,
    )
  ]

-- the loop over the VNIs
unfoldable pub collect_vnis :
    {D N R : Type 0} ⦃cd : Comparable D⦄
    → RouteTable D N R
    → List ℕ
    → Map ℕ (Map D (List N))
    → Map ℕ (Map D (List N))
collect_vnis rt [] vnet = vnet
collect_vnis rt (vni ∷ vnis) vnet =
    collect_vnis rt vnis (put vnet vni (append_dests (get_destinations_by_vni rt vni) []))

module _ {D N : Type 0} (le : N → N → Bool) where
  -- the loops that sort
  unfoldable pub sort_dests : Map D (List N) → Map D (List N)
  sort_dests [] = []
  sort_dests ((dst, hops) ∷ m) = (dst, sort_slice le hops) ∷ sort_dests m

  unfoldable pub sort_vnis : Map ℕ (Map D (List N)) → Map ℕ (Map D (List N))
  sort_vnis [] = []
  sort_vnis ((vni, dests) ∷ vnet) = (vni, sort_dests dests) ∷ sort_vnis vnet

  contains-sort_dests :
      ⦃cd : Comparable D⦄ ⦃cn : Comparable N⦄ (m : Map D (List N)) (d : D) (h : N)
      → contains (entry (sort_dests m) d) h ≡ contains (entry m d) h
  unfolding sort_dests get
  contains-sort_dests [] d h = refl
  contains-sort_dests ((dst, hops) ∷ m) d h =
      ground (arith, contains-sort_dests m d h, contains-sort_slice le h hops)

  pub entry-sort_vnis :
      (vnet : Map ℕ (Map D (List N))) (v : ℕ) → entry (sort_vnis vnet) v ≡ sort_dests (entry vnet v)
  unfolding sort_vnis get sort_dests
  entry-sort_vnis [] v = refl
  entry-sort_vnis ((vni, dests) ∷ vnet) v = ground (arith, entry-sort_vnis vnet v)

-- `getJsonRoutes`
unfoldable pub get_json_routes :
    {D N R : Type 0} ⦃cd : Comparable D⦄
    → (N → N → Bool)
    → RouteTable D N R
    → Map ℕ (Map D (List N))
get_json_routes le rt = sort_vnis le (collect_vnis rt (get_vnis rt) [])

module _ {D N R : Type 0} ⦃cd : Comparable D⦄ ⦃cn : Comparable N⦄ ⦃cr : Comparable R⦄
    (rt : RouteTable D N R) where
  entry-collect_vnis :
      (vnis : List ℕ) (vnet : Map ℕ (Map D (List N))) (v : ℕ)
      → entry (collect_vnis rt vnis vnet) v
        ≡ (if contains vnis v then append_dests (get_destinations_by_vni rt v) [] else entry vnet v)
  unfolding collect_vnis contains
  entry-collect_vnis [] vnet v = refl
  entry-collect_vnis (vni ∷ vnis) vnet v =
      let dests = append_dests (get_destinations_by_vni rt vni) [] in
      let rest = entry-collect_vnis vnis (put vnet vni dests) v in
      elim (Bool-cases (same vni v)) [
        | inl e ↦ ground (
          arith,
          rest,
          get-put vnet vni v dests,
          ap (λ k. append_dests (get_destinations_by_vni rt k) []) (same_eq vni v e),
          e,
        )
        | inr e ↦ ground (arith, rest, get-put vnet vni v dests, e)
      ]

  lists-entry :
      (m : Map D (List N)) (d : D) (h : N)
      → IsDistinct (keys m)
      → lists m d h ≡ contains (entry m d) h
  unfolding get contains
  lists-entry [] d h k = refl
  lists-entry ((dst, hops) ∷ m) d h k =
      let rest = lists-entry m d h k.1 in
      elim (Bool-cases (same dst d)) [
        | inl e ↦
            ground
              (arith, rest, contains-keys m d, ap (contains (keys m)) (same_eq dst d e), k.0, e)
        | inr e ↦ ground (arith, rest, e)
      ]

  no_vni :
      (v : ℕ) (d : D) (h : N)
      → contains (get_vnis rt) v ≡ false
      → contains (get_nexthops_by_destination rt v d) h ≡ false
  unfolding get_vnis get_nexthops_by_destination contains get metalbond.Base.Map.Nested.at
  no_vni v d h e =
      let known : contains (keys rt) v ≡ is_some (get rt v) =
        unfold get contains in contains-keys rt v in
      ground (arith, known, e)

  -- For each VNI and destination, the pages show exactly the next hops that
  -- GetNextHopsByDestination lists, if no key stands twice in the maps of the table.
  pub get_json_routes_lem :
      (le : N → N → Bool) (v : ℕ) (d : D) (h : N)
      → TableMaps rt
      → contains (entry (entry (get_json_routes le rt) v) d) h
        ≡ contains (get_nexthops_by_destination rt v d) h
  unfolding get_json_routes get contains
  get_json_routes_lem le v d h g =
      let dests = get_destinations_by_vni rt v in
      let vnet = collect_vnis rt (get_vnis rt) [] in
      let sorted : contains (entry (entry (sort_vnis le vnet) v) d) h
          ≡ contains (entry (entry vnet v) d) h =
        ap (λ m. contains (entry m d) h) (entry-sort_vnis le vnet v)
        ∙ contains-sort_dests le (entry vnet v) d h in
      ground (
        arith,
        sorted,
        entry-collect_vnis (get_vnis rt) [] v,
        contains-append_dests dests [] d h,
        lists-entry dests d h (listing-IsDistinct rt v g),
        listed_below rt v d,
        no_vni v d h,
      )
