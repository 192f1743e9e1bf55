-- ===== src/Netlink/Sort.antt =====
-- `slices.SortFunc`, as netlink.go calls it on next hops: by their addresses. Go leaves the order of
-- equal elements open; here an element is put behind the equal ones.
use metalbond.Base.{
  ◌≡◌, Bool, ◌||◌, List, [], ◌∷◌, contains, Comparable, same, if◌then◌else◌, arith, refl, ◌≢◌,
}
use metalbond.Types.{NextHop, next_hop_comparable}

module _ {A : Type 0} (compare_le : A → A → Bool) where
  insert_hop : NextHop A → List (NextHop A) → List (NextHop A)
  insert_hop h [] = h ∷ []
  insert_hop h (x ∷ xs) =
      let rest = insert_hop h xs in
      if compare_le x.target_address h.target_address then x ∷ rest else h ∷ (x ∷ xs)

  unfoldable pub sort_func : List (NextHop A) → List (NextHop A)
  unfolding insert_hop
  sort_func [] = []
  sort_func (x ∷ xs) = insert_hop x (sort_func xs)

  contains-insert_hop :
      ⦃c : Comparable A⦄ (h g : NextHop A) (xs : List (NextHop A))
      → contains (insert_hop h xs) g ≡ (same h g || contains xs g)
  unfolding contains insert_hop
  contains-insert_hop h g [] = refl
  contains-insert_hop h g (x ∷ xs) = ground (arith, contains-insert_hop h g xs)

  -- sorting keeps the elements
  pub contains-sort_func :
      ⦃c : Comparable A⦄ (g : NextHop A) (xs : List (NextHop A))
      → contains (sort_func xs) g ≡ contains xs g
  unfolding contains sort_func
  contains-sort_func g [] = refl
  contains-sort_func g (x ∷ xs) = rw contains-insert_hop (rw (contains-sort_func g xs))

  insert_hop-ne : (h : NextHop A) (xs : List (NextHop A)) → insert_hop h xs ≢ []
  unfolding insert_hop
  insert_hop-ne h [] e = cc
  insert_hop-ne h (x ∷ xs) e = ground arith

  pub sort_func-ne : (xs : List (NextHop A)) → xs ≢ [] → sort_func xs ≢ []
  unfolding sort_func
  sort_func-ne [] h = h
  sort_func-ne (x ∷ xs) h = insert_hop-ne x (sort_func xs)
