-- ===== src/Prelude/Map.antt =====
-- Maps with a test of equality on their keys: Go's built-in maps, and the typed key-value maps of the
-- Cosmos SDK store, of which the modelled code uses get, set, has, remove and clear.
use mathlib.Core.Path.{◌≡◌, refl, sym, ap, ◌∙◌}
use mathlib.Core.Logic.{inl, inr}
use mathlib.Core.Bool.{Bool, true, false}
use mathlib.Core.List.{List, [], ◌∷◌}
use mathlib.Core.Option.{Option, none, some}
use native.Mathlib.Omega.{arith}
use go_execution_abci.Prelude.Tests.{Eq, ◌==◌, if◌then◌else◌, Bool-cases}

abbrev pub Map : Type 0 → Type 0 → Type 0
Map K V = List (K × V)

-- The value of a key after entries that were written over an older value.
abbrev pub over {ℓ} : {A : Type ℓ} → Option A → Option A → Option A
over none old = old
over (some a) old = some a

pub over-none {ℓ} : {A : Type ℓ} (o : Option A) → over o none ≡ o
over-none none = refl
over-none (some a) = refl

module _ {K V : Type 0} ⦃e : Eq K⦄ where
  unfoldable pub get : Map K V → K → Option V
  get [] k = none
  get ((j, v) ∷ m) k = if j == k then some v else get m k

  -- Keeps the entries whose keys pass a test.
  unfoldable pub restrict : (K → Bool) → Map K V → Map K V
  restrict p [] = []
  restrict p ((j, v) ∷ m) = let rest = restrict p m in if p j then (j, v) ∷ rest else rest

  unfoldable pub remove : Map K V → K → Map K V
  unfolding restrict
  remove m k = restrict (λ j. if j == k then false else true) m

  unfoldable pub put : Map K V → K → V → Map K V
  unfolding remove
  put m k v = (k, v) ∷ remove m k

  unfoldable pub has : Map K V → K → Bool
  unfolding get
  has m k = elim (get m k) [ none ↦ false | some v ↦ true ]

  pub get-restrict :
      (p : K → Bool) (m : Map K V) (k : K) → get (restrict p m) k ≡ (if p k then get m k else none)
  unfolding get restrict
  get-restrict p [] k = ground arith
  get-restrict p ((j, v) ∷ m) k = ground (arith, get-restrict p m k, e.beq_iff j k)

  pub get-remove : (m : Map K V) (k j : K) → get (remove m k) j ≡ (if k == j then none else get m j)
  unfolding remove
  get-remove m k j =
      ground (
        arith,
        get-restrict (λ i. if i == k then false else true) m j,
        e.beq_iff k j,
        e.beq_iff j k,
      )

  pub get-put :
      (m : Map K V) (k j : K) (v : V) → get (put m k v) j ≡ (if k == j then some v else get m j)
  unfolding put get
  get-put m k j v = ground (arith, get-remove m k j)

  pub get-put_self : (m : Map K V) (k : K) (v : V) → get (put m k v) k ≡ some v
  get-put_self m k v = ground (arith, get-put m k k v, e.beq_iff k k)

  pub get-nil : (k : K) → get [] k ≡ none
  unfolding get
  get-nil k = refl

  pub has-get : (m : Map K V) (k : K) → has m k ≡ elim (get m k) [ none ↦ false | some v ↦ true ]
  unfolding has
  has-get m k = refl

  -- The entries of a list under distinct keys: a later one never hides an earlier one.
  abbrev pub IsDistinct : Map K V → Type 0
  IsDistinct [] = Unit
  IsDistinct ((k, v) ∷ m) = (get m k ≡ none) × IsDistinct m

  pub has-cong : (m : Map K V) (l : Map K V) (k : K) → get m k ≡ get l k → has m k ≡ has l k
  unfolding has
  has-cong m l k h = rw (h, has) refl

  -- What holds of every entry of a list.
  abbrev pub All : (K → V → Type 0) → Map K V → Type 0
  All P [] = Unit
  All P ((k, v) ∷ m) = P k v × All P m

  -- Writing the first of distinct entries and then the others writes all.
  pub over-put :
      (m l : Map K V) (k j : K) (v : V) {old : Option V}
      → get l k ≡ none
      → old ≡ (if k == j then some v else get m j)
      → over (get l j) old ≡ over (get ((k, v) ∷ l) j) (get m j)
  unfolding get
  over-put m l k j v fresh h = elim (Bool-cases (k == j)) [
    | inl same ↦
        let hidden : get l j ≡ none = ap (get l) (sym ((e.beq_iff k j).0 same)) ∙ fresh in
        rw (h, same, hidden) refl
    | inr other ↦ rw (h, other) refl
  ]

  -- With distinct keys, what holds of what is found holds of every entry.
  pub All-get :
      (P : K → V → Type 0) (m : Map K V)
      → IsDistinct m
      → ((k : K) (v : V) → get m k ≡ some v → P k v)
      → All P m
  unfolding get
  All-get P [] d h = tt
  All-get P ((k, v) ∷ m) (fresh, d) h = (
    h k v (rw ((e.beq_iff k k).1 refl) refl),
    All-get P m d λ j w found. h j w (ground (arith, e.beq_iff k j)),
  )

  -- What a walk over a collection visits: its entries, each key once.
  pub record IsWalk (walk : Map K V → List (K × V)) : Type 0 where
    pub get-walk : (m : Map K V) (k : K) → get (walk m) k ≡ get m k
    pub walk-IsDistinct : (m : Map K V) → IsDistinct (walk m)

pub ruleset map_laws = (get-nil, get-restrict, get-remove, get-put)
