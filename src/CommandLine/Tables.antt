-- ===== src/CommandLine/Tables.antt =====
-- cmd/metalbond/main.go: the route tables that `--install-routes` names, and those of the client.
use metalbond.Base.{
  ◌∙◌, ℕ, ◌≡◌, Bool, true, false, none, some, Option, List, [], ◌∷◌, arith, refl, map, Comparable,
  contains, IsDistinct, nat_comparable, same, same_eq, Bool-cases, inl, inr, same_refl,
}
use metalbond.Base.Map.{Map, get, put, get-put}
use metalbond.Base.Text.{Text, decimal}
use metalbond.Base.Text.Laws.{join, split-join, contains-decimal, parse_uint-decimal}
use metalbond.Types.{Destination, NextHop}
use metalbond.Netlink.{Host, add_route, remove_route, install, uninstall, keep_hops}
use metalbond.Netlink.Cleanup.{tables_of, new_netlink_client}
use metalbond.CommandLine.{Outcome, goes_on, stops, mapping_of, vni_table_map}
use metalbond.CommandLine.Program.{
  AnyClient, netlink, dummy, any_add_route, any_remove_route, choose_client,
}

-- the documented format: vni#tableNumber
abbrev pub print_mapping : ℕ × ℕ → Text
print_mapping (vni, table) = join b'#' (decimal vni) (decimal table ∷ [])

mapping_step :
    (vni table : ℕ) (ms : List (ℕ × ℕ)) (acc m : Map ℕ ℕ)
    → vni_table_map (map print_mapping ((vni, table) ∷ ms)) acc ≡ goes_on m
    → vni_table_map (map print_mapping ms) (put acc vni table) ≡ goes_on m
unfolding vni_table_map mapping_of
mapping_step vni table ms acc m h =
    let parts =
      split-join b'#' (decimal vni) (decimal table ∷ [])
        (ground (arith, contains-decimal vni b'#' refl, contains-decimal table b'#' refl)) in
    ground (arith, h, parts, parse_uint-decimal 24 vni, parse_uint-decimal 24 table)

-- a VNI that is not named keeps its table
get-vni_table_map :
    (v : ℕ) (ms : List (ℕ × ℕ)) (acc m : Map ℕ ℕ)
    → contains (map (λ e. e.0) ms) v ≡ false
    → vni_table_map (map print_mapping ms) acc ≡ goes_on m
    → get m v ≡ get acc v
unfolding contains
get-vni_table_map v [] acc m a h = unfold vni_table_map in ground (arith, h)
get-vni_table_map v ((vni, table) ∷ ms) acc m a h =
    let rest =
      get-vni_table_map v ms (put acc vni table) m (ground (arith, a))
        (mapping_step vni table ms acc m h) in
    ground (arith, rest, get-put acc vni v table, a)

named_table :
    (t : ℕ) (ms : List (ℕ × ℕ)) (acc m : Map ℕ ℕ)
    → IsDistinct (map (λ e. e.0) ms)
    → contains (map (λ e. e.1) ms) t ≡ true
    → vni_table_map (map print_mapping ms) acc ≡ goes_on m
    → (v : ℕ) × (get m v ≡ some t)
unfolding contains
named_table t [] acc m d a h = absurd (ground (arith, a))
named_table t ((vni, table) ∷ ms) acc m d a h =
    let next = mapping_step vni table ms acc m h in
    elim (Bool-cases (same table t)) [
      | inl e ↦
          let kept = get-vni_table_map vni ms (put acc vni table) m d.0 next in
          let eq = same_eq table t e in
          (vni, ground (arith, kept, get-put acc vni vni table, same_refl vni, eq))
      | inr e ↦ named_table t ms (put acc vni table) m d.1 (ground (arith, a, e)) next
    ]

contains-tables_of : (t v : ℕ) (m : Map ℕ ℕ) → get m v ≡ some t → contains (tables_of m) t ≡ true
unfolding contains get
contains-tables_of t v [] h = absurd (ground (arith, h))
contains-tables_of t v ((vni, table) ∷ m) h =
    ground (arith, h, contains-tables_of t v m, same_refl t)

module _ {A P K : Type 0} where
  -- the tables that the client writes to
  abbrev pub tables : AnyClient A P K → List ℕ
  tables (dummy k) = []
  tables (netlink c k) = tables_of c.config.vni_table_map

module _ {A P K : Type 0} ⦃ca : Comparable A⦄ ⦃cp : Comparable P⦄ (host : Host A P K) where
  pub any_remove_route-tables :
      (vni : ℕ) (d : Destination P) (h : NextHop A) (c : AnyClient A P K)
      → tables (any_remove_route host vni d h c).0 ≡ tables c
  unfolding any_remove_route remove_route install uninstall keep_hops
  any_remove_route-tables vni d h (dummy k) = refl
  any_remove_route-tables vni d h (netlink c k) = ground arith

  any_add_route-tables :
      (vni : ℕ) (d : Destination P) (h : NextHop A) (c : AnyClient A P K)
      → tables (any_add_route host vni d h c).0 ≡ tables c
  unfolding any_add_route add_route install
  any_add_route-tables vni d h (dummy k) = refl
  any_add_route-tables vni d h (netlink c k) = ground arith

  -- what the methods of the interface make of a client, called any number of times
  pub data Used (c : AnyClient A P K) : AnyClient A P K → Type 0 where
    unused : Used c c
    adds :
        {c' : AnyClient A P K} (vni : ℕ) (d : Destination P) (h : NextHop A)
        → Used c c'
        → Used c (any_add_route host vni d h c').0
    removes :
        {c' : AnyClient A P K} (vni : ℕ) (d : Destination P) (h : NextHop A)
        → Used c c'
        → Used c (any_remove_route host vni d h c').0

  pub Used-tables : {c c' : AnyClient A P K} → Used c c' → tables c' ≡ tables c
  Used-tables unused = refl
  Used-tables (adds {c'} vni d h u) = any_add_route-tables vni d h c' ∙ Used-tables u
  Used-tables (removes {c'} vni d h u) = any_remove_route-tables vni d h c' ∙ Used-tables u

  chosen_tables :
      (x : Text) (xs : List Text) (ipv4_only : Bool) (link : Option ℕ) (k : K) (c : AnyClient A P K)
      (o : Outcome (Map ℕ ℕ))
      → vni_table_map (x ∷ xs) [] ≡ o
      → choose_client host (x ∷ xs) ipv4_only link k ≡ goes_on c
      → (m : Map ℕ ℕ) × (vni_table_map (x ∷ xs) [] ≡ goes_on m) × (tables c ≡ tables_of m)
  unfolding choose_client new_netlink_client
  chosen_tables x xs ipv4_only link k c (stops f) e h = absurd (ground (arith, e, h))
  chosen_tables x xs ipv4_only none k c (goes_on m) e h = absurd (ground (arith, e, h))
  chosen_tables x xs ipv4_only (some l) k c (goes_on m) e h = (m, e, ground (arith, e, h))

  -- the client has each table that is named, if no VNI is named twice
  pub choose_client-tables :
      (ms : List (ℕ × ℕ)) (ipv4_only : Bool) (link : Option ℕ) (k : K) (c : AnyClient A P K) (t : ℕ)
      → IsDistinct (map (λ e. e.0) ms)
      → choose_client host (map print_mapping ms) ipv4_only link k ≡ goes_on c
      → contains (map (λ e. e.1) ms) t ≡ true
      → contains (tables c) t ≡ true
  choose_client-tables [] ipv4_only link k c t d h a = unfold contains in absurd (ground (arith, a))
  choose_client-tables (e ∷ ms) ipv4_only link k c t d h a =
      let (m, read, eq) =
        chosen_tables (print_mapping e) (map print_mapping ms) ipv4_only link k c _ refl h in
      let (v, here) = named_table t (e ∷ ms) [] m d a read in rw eq (contains-tables_of t v m here)
