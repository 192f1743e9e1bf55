-- ===== src/RouteTable/Pruned.antt =====
-- routetable.go: which methods leave a VNI, a destination or a next hop with nothing below it.
use metalbond.Base.{
  ℕ, ◌≡◌, ◌≢◌, Bool, false, some, [], Comparable, nat_comparable, same, arith, Bool-cases, ◌&&◌,
  inl, inr, Option-cases,
}
use metalbond.Base.Map.{get}
use metalbond.Base.Map.Nested.{at, nested_laws, entry_laws, nonempty-ne}
use metalbond.RouteTable.{
  RouteTable, find, ensure_path, add_next_hop, delete_next_hop, remove_next_hop, insert_next_hop,
  new_route_table,
}
use metalbond.RouteTable.Effects.{remove_next_hop_held, remove_next_hop-missing, find-insert_self}

-- nothing is listed that has nothing below it
pub record IsPruned {D N R : Type 0} ⦃cd : Comparable D⦄ ⦃cn : Comparable N⦄ (rt : RouteTable D N R)
    : Type 0 where
  pub vnis : (v : ℕ) → get rt v ≢ some []
  pub dests : (v : ℕ) (d : D) → get (at rt v) d ≢ some []
  pub hops : (v : ℕ) (d : D) (n : N) → get (at (at rt v) d) n ≢ some []

module _ {D N R : Type 0} ⦃cd : Comparable D⦄ ⦃cn : Comparable N⦄ (vni : ℕ) (dest : D)
    (nh : N) where
  -- the same but for the entries on the way to one next hop
  record PrunedElsewhere (rt : RouteTable D N R) : Type 0 where
    vnis : (v : ℕ) → same vni v ≡ false → get rt v ≢ some []
    dests : (v : ℕ) (d : D) → (same vni v && same dest d) ≡ false → get (at rt v) d ≢ some []
    hops :
        (v : ℕ) (d : D) (n : N)
        → ((same vni v && same dest d) && same nh n) ≡ false
        → get (at (at rt v) d) n ≢ some []

  IsPruned-elsewhere : {rt : RouteTable D N R} → IsPruned rt → PrunedElsewhere rt
  IsPruned-elsewhere h = record {
    vnis = λ v _. h.vnis v;
    dests = λ v d _. h.dests v d;
    hops = λ v d n _. h.hops v d n;
  }

  ensure_path-PrunedElsewhere :
      {rt : RouteTable D N R} → PrunedElsewhere rt → PrunedElsewhere (ensure_path rt vni dest nh)
  unfolding ensure_path
  ensure_path-PrunedElsewhere {rt} h = record {
    vnis = λ v e. simp (nested_laws, entry_laws, e) (h.vnis v e);
    dests = λ v d e. simp (nested_laws, entry_laws, e) (h.dests v d e);
    hops = λ v d n e. simp (nested_laws, entry_laws, e) (h.hops v d n e);
  }

  module _ ⦃cr : Comparable R⦄ (from : R) where
    insert_next_hop-PrunedElsewhere :
        {rt : RouteTable D N R}
        → PrunedElsewhere rt
        → PrunedElsewhere (insert_next_hop rt vni dest nh from)
    unfolding insert_next_hop
    insert_next_hop-PrunedElsewhere {rt} h = record {
      vnis = λ v e. simp (entry_laws, e) (h.vnis v e);
      dests = λ v d e. simp (nested_laws, entry_laws, e) (h.dests v d e);
      hops = λ v d n e. simp (nested_laws, entry_laws, e) (h.hops v d n e);
    }

    delete_next_hop-IsPruned :
        {rt : RouteTable D N R}
        → PrunedElsewhere rt
        → IsPruned (delete_next_hop rt vni dest nh from).0
    unfolding delete_next_hop
    delete_next_hop-IsPruned {rt} h = record {
      vnis = λ v. elim (Bool-cases (same vni v)) [
        | inl e ↦ simp (nested_laws, entry_laws, e) (nonempty-ne _)
        | inr e ↦ simp (nested_laws, entry_laws, e) (h.vnis v e)
      ];
      dests = λ v d. elim (Bool-cases (same vni v && same dest d)) [
        | inl e ↦ simp (nested_laws, entry_laws, e) (nonempty-ne _)
        | inr e ↦ simp (nested_laws, entry_laws, e) (h.dests v d e)
      ];
      hops = λ v d n. elim (Bool-cases ((same vni v && same dest d) && same nh n)) [
        | inl e ↦ simp (nested_laws, entry_laws, e) (nonempty-ne _)
        | inr e ↦ simp (nested_laws, entry_laws, e) (h.hops v d n e)
      ];
    }

    -- a route that is held has something at every level
    found-IsPruned :
        {rt : RouteTable D N R} {b : Bool}
        → find rt vni dest nh from ≡ some b
        → PrunedElsewhere rt
        → IsPruned rt
    unfolding find at get
    found-IsPruned {rt} f h = record {
      vnis = λ v e. ground (arith, h.vnis v);
      dests = λ v d e. ground (arith, h.dests v d);
      hops = λ v d n e. ground (arith, h.hops v d n);
    }

module _ {D N R : Type 0} ⦃cd : Comparable D⦄ ⦃cn : Comparable N⦄ ⦃cr : Comparable R⦄ where
  pub new_route_table-IsPruned : IsPruned {D = D} {N = N} {R = R} new_route_table
  unfolding new_route_table get at
  new_route_table-IsPruned = record { vnis = λ v e. cc; dests = λ v d e. cc; hops = λ v d n e. cc }

  -- `AddNextHop` and `RemoveNextHop`, failing or not, leave no VNI, destination or next hop with
  -- nothing below it, if there was none before.
  pub add_remove-IsPruned :
      {rt : RouteTable D N R} (vni : ℕ) (dest : D) (nh : N) (from : R)
      → IsPruned rt
      → IsPruned (add_next_hop rt vni dest nh from).0
        × IsPruned (remove_next_hop rt vni dest nh from).0
  unfolding add_next_hop
  add_remove-IsPruned {rt} vni dest nh from h = (add, remove)
    where
      else_ : PrunedElsewhere vni dest nh rt
      else_ = IsPruned-elsewhere vni dest nh h

      path : PrunedElsewhere vni dest nh (ensure_path rt vni dest nh)
      path = ensure_path-PrunedElsewhere vni dest nh else_

      add : IsPruned (add_next_hop rt vni dest nh from).0
      add = elim (Option-cases (find (ensure_path rt vni dest nh) vni dest nh from)) [
        | inl e ↦
            rw (e, add_next_hop)
              (found-IsPruned vni dest nh from
                (find-insert_self (ensure_path rt vni dest nh) vni dest nh from)
                (insert_next_hop-PrunedElsewhere vni dest nh from path))
        | inr (b, e) ↦ rw (e, add_next_hop) (found-IsPruned vni dest nh from e path)
      ]

      remove : IsPruned (remove_next_hop rt vni dest nh from).0
      remove = elim (Option-cases (find rt vni dest nh from)) [
        | inl e ↦ rw (remove_next_hop-missing rt vni dest nh from e) h
        | inr (b, e) ↦
            rw (remove_next_hop_held rt vni dest nh from e)
              (delete_next_hop-IsPruned vni dest nh from else_)
      ]
