-- ===== src/Base/Map/Nested.antt =====
-- Maps whose values are maps, as Go indexes and writes them: `m[k]` of a missing key is the empty
-- map, and a write through `m[k]` changes that entry in place.
use mathlib.Core.Logic.{◌≢◌}
use mathlib.Core.Path.{◌≡◌, refl}
use mathlib.Core.Bool.{Bool, true, false, ◌&&◌}
use mathlib.Core.Option.{none, some, Option}
use mathlib.Core.List.{List, [], ◌∷◌}
use native.Mathlib.Omega.{arith}
use metalbond.Base.Tests.{Comparable, same, if◌then◌else◌, ◌==◌}
use metalbond.Base.Lists.{length}
use metalbond.Base.Map.{Map, get, put, delete, get-put, get-delete}

-- `f` applied if the test holds
unfoldable pub when {ℓ} : {A : Type ℓ} → Bool → (A → A) → A → A
when b f a = if b then f a else a

length-zero {ℓ} : {A : Type ℓ} (m : List A) → (length m == 0) ≡ true → m ≡ []
length-zero [] h = refl
length-zero (e ∷ m) h = ground arith

module _ {ℓ} {K J V : Type ℓ} ⦃c : Comparable K⦄ where
  -- `m[k]`
  unfoldable pub at : Map K (Map J V) → K → Map J V
  at m k = elim (get m k) [ none ↦ [] | some inner ↦ inner ]

  -- `if _, exists := m[k]; !exists { m[k] = make(...) }`
  unfoldable pub ensure : Map K (Map J V) → K → Map K (Map J V)
  ensure m k = elim (get m k) [ none ↦ put m k [] | some _ ↦ m ]

  -- a write to `m[k]`
  unfoldable pub update : Map K (Map J V) → K → (Map J V → Map J V) → Map K (Map J V)
  update m k f = put m k (f (at m k))

  -- `if len(m[k]) == 0 { delete(m, k) }`
  unfoldable pub prune : Map K (Map J V) → K → Map K (Map J V)
  prune m k = if length (at m k) == 0 then delete m k else m

  pub at_of_get : (m : Map K (Map J V)) (k : K) (x : Map J V) → get m k ≡ some x → at m k ≡ x
  unfolding at
  at_of_get m k x h = rw (h, at)

  pub at-ensure : (m : Map K (Map J V)) (k j : K) → at (ensure m k) j ≡ at m j
  unfolding at ensure
  at-ensure m k j = ground (arith, get-put m k j [])

  pub at-update :
      (m : Map K (Map J V)) (k j : K) (f : Map J V → Map J V)
      → at (update m k f) j ≡ when (same k j) f (at m j)
  unfolding at update when
  at-update m k j f = ground (arith, get-put m k j (f (at m k)))

  pub at-prune : (m : Map K (Map J V)) (k j : K) → at (prune m k) j ≡ at m j
  unfolding at prune
  at-prune m k j = ground (arith, get-delete m k j, length-zero (at m k))

-- A change behind a chain of keys, seen at another chain.
module _ {ℓ} {K J V : Type ℓ} ⦃c : Comparable K⦄ where
  pub at-when-ensure :
      (b : Bool) (m : Map K (Map J V)) (k j : K) → at (when b (λ x. ensure x k) m) j ≡ at m j
  unfolding when
  at-when-ensure true m k j = at-ensure m k j
  at-when-ensure false m k j = refl

  pub at-when-prune :
      (b : Bool) (m : Map K (Map J V)) (k j : K) → at (when b (λ x. prune x k) m) j ≡ at m j
  unfolding when
  at-when-prune true m k j = at-prune m k j
  at-when-prune false m k j = refl

  pub at-when-update :
      (b : Bool) (m : Map K (Map J V)) (k j : K) (f : Map J V → Map J V)
      → at (when b (λ x. update x k f) m) j ≡ when (b && same k j) f (at m j)
  unfolding when
  at-when-update true m k j f = unfold when in at-update m k j f
  at-when-update false m k j f = refl

module _ {ℓ} {K V : Type ℓ} ⦃c : Comparable K⦄ where
  pub get-when-put :
      (b : Bool) (m : Map K V) (k j : K) (v : V)
      → get (when b (λ x. put x k v) m) j ≡ (if b && same k j then some v else get m j)
  unfolding when
  get-when-put true m k j v = get-put m k j v
  get-when-put false m k j v = refl

  pub get-when-delete :
      (b : Bool) (m : Map K V) (k j : K)
      → get (when b (λ x. delete x k) m) j ≡ (if b && same k j then none else get m j)
  unfolding when
  get-when-delete true m k j = get-delete m k j
  get-when-delete false m k j = refl

-- an entry after `prune`
unfoldable pub nonempty {ℓ} : {A : Type ℓ} → Option (List A) → Option (List A)
nonempty none = none
nonempty (some []) = none
nonempty (some (x ∷ xs)) = some (x ∷ xs)

pub nonempty-ne {ℓ} : {A : Type ℓ} (o : Option (List A)) → nonempty o ≢ some []
unfolding nonempty
nonempty-ne none h = cc
nonempty-ne (some []) h = cc
nonempty-ne (some (x ∷ xs)) h = cc

-- The same for the entries themselves.
module _ {ℓ} {K J V : Type ℓ} ⦃c : Comparable K⦄ where
  pub get-ensure :
      (m : Map K (Map J V)) (k j : K)
      → get (ensure m k) j ≡ (if same k j then some (at m j) else get m j)
  unfolding ensure at
  get-ensure m k j = ground (arith, get-put m k j [])

  pub get-update :
      (m : Map K (Map J V)) (k j : K) (f : Map J V → Map J V)
      → get (update m k f) j ≡ (if same k j then some (f (at m j)) else get m j)
  unfolding update
  get-update m k j f = ground (arith, get-put m k j (f (at m k)))

  nonempty-length :
      (o : Option (Map J V)) (m : Map K (Map J V)) (k : K)
      → get m k ≡ o
      → (if length (at m k) == 0 then none else o) ≡ nonempty o
  unfolding at nonempty
  nonempty-length none m k h = rw (h, at)
  nonempty-length (some []) m k h = rw (h, at)
  nonempty-length (some (x ∷ xs)) m k h = rw (h, at) (ground arith)

  pub get-prune :
      (m : Map K (Map J V)) (k j : K)
      → get (prune m k) j ≡ (if same k j then nonempty (get m j) else get m j)
  unfolding prune
  get-prune m k j = ground (arith, get-delete m k j, nonempty-length (get m k) m k refl)

  pub get-when-ensure :
      (b : Bool) (m : Map K (Map J V)) (k j : K)
      → get (when b (λ x. ensure x k) m) j ≡ (if b && same k j then some (at m j) else get m j)
  unfolding when
  get-when-ensure true m k j = get-ensure m k j
  get-when-ensure false m k j = refl

  pub get-when-update :
      (b : Bool) (m : Map K (Map J V)) (k j : K) (f : Map J V → Map J V)
      → get (when b (λ x. update x k f) m) j
        ≡ (if b && same k j then some (f (at m j)) else get m j)
  unfolding when
  get-when-update true m k j f = get-update m k j f
  get-when-update false m k j f = refl

  pub get-when-prune :
      (b : Bool) (m : Map K (Map J V)) (k j : K)
      → get (when b (λ x. prune x k) m) j ≡ (if b && same k j then nonempty (get m j) else get m j)
  unfolding when
  get-when-prune true m k j = get-prune m k j
  get-when-prune false m k j = refl

pub ruleset entry_laws =
    (get-ensure, get-update, get-prune, get-when-ensure, get-when-update, get-when-prune)

pub ruleset nested_laws = (
  at-ensure, at-update, at-prune, at-when-ensure, at-when-update, at-when-prune, get-when-put,
  get-when-delete,
)
