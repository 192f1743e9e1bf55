-- ===== src/Base/Map/Distinct.antt =====
-- No key stands twice in a Go map, nor in the maps that it holds.
use mathlib.Core.Path.{◌≡◌}
use mathlib.Core.Logic.{inl, inr}
use mathlib.Core.Bool.{Bool, true, false, not, ◌&&◌}
use mathlib.Core.List.{[], ◌∷◌}
use native.Mathlib.Omega.{arith}
use metalbond.Base.Tests.{Comparable, same, same_refl, Option-cases, Bool-cases, ◌==◌}
use metalbond.Base.Lists.{contains, length, IsDistinct}
use metalbond.Base.Map.{Map, keys, get, put, delete}
use metalbond.Base.Map.Nested.{at, ensure, update, prune, at-ensure, at-update, at-prune, when}

module _ {ℓ} {K V : Type ℓ} ⦃c : Comparable K⦄ where
  contains-delete :
      (m : Map K V) (k j : K)
      → contains (keys (delete m k)) j ≡ (not (same k j) && contains (keys m) j)
  unfolding contains delete
  contains-delete [] k j = ground arith
  contains-delete ((i, v) ∷ m) k j = ground (arith, contains-delete m k j)

  pub delete-IsDistinct :
      (m : Map K V) (k : K) → IsDistinct (keys m) → IsDistinct (keys (delete m k))
  unfolding delete
  delete-IsDistinct [] k d = tt
  delete-IsDistinct ((j, v) ∷ m) k d = elim (Bool-cases (same j k)) [
    | inl e ↦ rw e (delete-IsDistinct m k d.1)
    | inr e ↦ rw e (ground (arith, contains-delete m k j, d.0), delete-IsDistinct m k d.1)
  ]

  pub put-IsDistinct :
      (m : Map K V) (k : K) (v : V) → IsDistinct (keys m) → IsDistinct (keys (put m k v))
  unfolding put
  put-IsDistinct m k v d =
      (ground (arith, contains-delete m k k, same_refl k), delete-IsDistinct m k d)

-- the keys are distinct, and each value is good
pub record Maps {ℓ} {K J V : Type ℓ} ⦃c : Comparable K⦄ (Q : Map J V → Type ℓ) (m : Map K (Map J V))
    : Type ℓ where
  pub distinct : IsDistinct (keys m)
  pub each : (k : K) → Q (at m k)

Q-when {ℓ} :
    {M : Type ℓ} (Q : M → Type ℓ) (b : Bool) (f : M → M) (x : M)
    → Q x
    → (Q x → Q (f x))
    → Q (when b f x)
unfolding when
Q-when Q true f x q h = h q
Q-when Q false f x q h = q

module _ {ℓ} {K J V : Type ℓ} ⦃c : Comparable K⦄ (Q : Map J V → Type ℓ) where
  pub update-Maps :
      (m : Map K (Map J V)) (k : K) (f : Map J V → Map J V)
      → ((x : Map J V) → Q x → Q (f x))
      → Maps Q m
      → Maps Q (update m k f)
  unfolding update
  update-Maps m k f h g = record {
    distinct = put-IsDistinct m k (f (at m k)) g.distinct;
    each = λ j.
        unfold update in
        rw (at-update m k j f) (Q-when Q (same k j) f (at m j) (g.each j) (h (at m j)));
  }

  pub ensure-Maps : (m : Map K (Map J V)) (k : K) → Maps Q m → Maps Q (ensure m k)
  unfolding ensure
  ensure-Maps m k g = record {
    distinct = elim (Option-cases (get m k)) [
      | inl e ↦ rw (e, ensure) (put-IsDistinct m k [] g.distinct)
      | inr (x, e) ↦ rw (e, ensure) g.distinct
    ];
    each = λ j. unfold ensure in rw (at-ensure m k j) (g.each j);
  }

  pub prune-Maps : (m : Map K (Map J V)) (k : K) → Maps Q m → Maps Q (prune m k)
  unfolding prune
  prune-Maps m k g = record {
    distinct = elim (Bool-cases (length (at m k) == 0)) [
      | inl e ↦ rw (e, prune) (delete-IsDistinct m k g.distinct)
      | inr e ↦ rw (e, prune) g.distinct
    ];
    each = λ j. unfold prune in rw (at-prune m k j) (g.each j);
  }
