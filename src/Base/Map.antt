-- ===== src/Base/Map.antt =====
-- Go's `map[K]V` as an association list. Go iterates over a map in an unspecified order; a map here
-- is iterated in the order of its list, and a write moves its entry to the front.
pub mod Nested
pub mod Distinct
use mathlib.Core.Logic.{◌↔◌}
use mathlib.Core.Path.{◌≡◌, refl}
use mathlib.Core.Bool.{true}
use mathlib.Core.Option.{Option, none, some}
use mathlib.Core.List.{List, [], ◌∷◌, map}
use native.Mathlib.Omega.{arith}
use metalbond.Base.Tests.{Comparable, same, if◌then◌else◌, same_refl, is_some}
use metalbond.Base.Lists.{contains, length}

abbrev pub Map {ℓ} : Type ℓ → Type ℓ → Type ℓ
Map K V = List (K × V)

abbrev pub keys {ℓ} : {K V : Type ℓ} → Map K V → List K
keys = map (λ e. e.0)

module _ {ℓ} {K V : Type ℓ} ⦃c : Comparable K⦄ where
  -- `v, exists := m[k]`
  unfoldable pub get : Map K V → K → Option V
  get [] k = none
  get ((j, v) ∷ m) k = if same j k then some v else get m k

  -- `delete(m, k)`
  unfoldable pub delete : Map K V → K → Map K V
  delete [] k = []
  delete ((j, v) ∷ m) k = let rest = delete m k in if same j k then rest else (j, v) ∷ rest

  -- `m[k] = v`
  unfoldable pub put : Map K V → K → V → Map K V
  put m k v = (k, v) ∷ delete m k

  pub get-delete :
      (m : Map K V) (k j : K) → get (delete m k) j ≡ (if same k j then none else get m j)
  unfolding get delete
  get-delete [] k j = ground arith
  get-delete ((i, v) ∷ m) k j = ground (arith, get-delete m k j)

  pub get-put :
      (m : Map K V) (k j : K) (v : V) → get (put m k v) j ≡ (if same k j then some v else get m j)
  unfolding get put
  get-put m k j v = ground (arith, get-delete m k j)

  -- `range m` meets exactly the keys that a lookup finds.
  pub get-contains : (m : Map K V) (k : K) (v : V) → get m k ≡ some v → contains (keys m) k ≡ true
  unfolding get contains
  get-contains [] k v h = cc
  get-contains ((j, w) ∷ m) k v h = ground (arith, get-contains m k v)

  pub contains-get :
      (m : Map K V) (k : K) → contains (keys m) k ≡ true → (v : V) × (get m k ≡ some v)
  unfolding get contains
  contains-get [] k h = cc
  contains-get ((j, w) ∷ m) k h = elim (c.equals j k) [
    | yes p ↦ (w, ground arith)
    | no p ↦ let (v, e) = contains-get m k (ground arith) in (v, ground arith)
  ]

  pub length-zero_iff : (m : Map K V) → (length m ≡ 0) ↔ ((k : K) → get m k ≡ none)
  unfolding get
  length-zero_iff [] = (λ h k. refl, λ h. refl)
  length-zero_iff ((j, v) ∷ m) = (λ h. absurd (omega arith), λ h. cc (h j, same_refl j))

  pub get-head : (k : K) (v : V) (m : Map K V) → get ((k, v) ∷ m) k ≡ some v
  unfolding get
  get-head k v m = rw same_refl

  pub contains-keys : (m : Map K V) (k : K) → contains (keys m) k ≡ is_some (get m k)
  unfolding get contains
  contains-keys [] k = refl
  contains-keys ((j, v) ∷ m) k = ground (arith, contains-keys m k)
