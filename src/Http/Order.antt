-- ===== src/Http/Order.antt =====
-- http.go: the order of the next hops on the pages, which is that of their texts.
use metalbond.Base.{
  ℕ, ◌≡◌, inl, inr, arith, Bool, true, false, not, List, [], ◌∷◌, Comparable, same, Bool-cases,
  nat_comparable,
}
use metalbond.Base.Map.{Map, get}
use metalbond.Base.Text.{Text}
use metalbond.Types.{NextHop}
use metalbond.Types.Strings.{next_hop_string, text_less, text_less-asym}
use metalbond.RouteTable.{RouteTable, get_vnis}
use metalbond.Http.{
  entry, sort_slice, put_in_order, sort_dests, collect_vnis, entry-sort_vnis, get_json_routes,
}

-- the `less` of `sort.Slice`, turned round
unfoldable pub in_order : {A : Type 0} → (A → Text) → NextHop A → NextHop A → Bool
in_order print_addr x y =
    not (text_less (next_hop_string print_addr y) (next_hop_string print_addr x))

module _ {N : Type 0} (le : N → N → Bool) where
  -- no neighbour is less than the one before it
  abbrev pub IsSorted : List N → Type 0
  IsSorted [] = Unit
  IsSorted (x ∷ []) = Unit
  IsSorted (x ∷ y ∷ ys) = (le x y ≡ true) × IsSorted (y ∷ ys)

  module _ (total : (x y : N) → le x y ≡ false → le y x ≡ true) where
    put_in_order-IsSorted : (h : N) (xs : List N) → IsSorted xs → IsSorted (put_in_order le h xs)
    unfolding put_in_order
    put_in_order-IsSorted h [] s = ground arith
    put_in_order-IsSorted h (x ∷ []) s = ground (arith, total x h)
    put_in_order-IsSorted h (x ∷ y ∷ ys) s =
        ground (arith, total x h, put_in_order-IsSorted h (y ∷ ys) s.1)

    sort_slice-IsSorted : (xs : List N) → IsSorted (sort_slice le xs)
    unfolding sort_slice
    sort_slice-IsSorted [] = tt
    sort_slice-IsSorted (x ∷ xs) =
        put_in_order-IsSorted x (sort_slice le xs) (sort_slice-IsSorted xs)

    sort_dests-IsSorted :
        {D : Type 0} ⦃cd : Comparable D⦄ (m : Map D (List N)) (d : D)
        → IsSorted (entry (sort_dests le m) d)
    unfolding sort_dests get
    sort_dests-IsSorted [] d = tt
    sort_dests-IsSorted ((dst, hops) ∷ m) d = elim (Bool-cases (same dst d)) [
      | inl e ↦ rw e (sort_slice-IsSorted hops)
      | inr e ↦ rw e (sort_dests-IsSorted m d)
    ]

in_order_total :
    {A : Type 0} (print_addr : A → Text) (x y : NextHop A)
    → in_order print_addr x y ≡ false
    → in_order print_addr y x ≡ true
unfolding in_order
in_order_total print_addr x y h =
    ground (arith, text_less-asym (next_hop_string print_addr y) (next_hop_string print_addr x))

-- On the pages the next hops of each destination are in the order of their texts.
pub get_json_routes-IsSorted :
    {A D R : Type 0} ⦃cd : Comparable D⦄ (print_addr : A → Text) (rt : RouteTable D (NextHop A) R)
    (v : ℕ) (d : D)
    → IsSorted (in_order print_addr) (entry (entry (get_json_routes (in_order print_addr) rt) v) d)
unfolding get_json_routes
get_json_routes-IsSorted print_addr rt v d =
    let le = in_order print_addr in
    rw (entry-sort_vnis le (collect_vnis rt (get_vnis rt) []) v) (
      sort_dests-IsSorted le (in_order_total print_addr)
        (entry (collect_vnis rt (get_vnis rt) []) v) d)
