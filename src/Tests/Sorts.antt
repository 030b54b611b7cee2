-- ===== src/Tests/Sorts.antt =====
-- Insertion sort, which sorts as sort.Slice promises.
use mathlib.Core.List.{Perm}
use mathlib.Core.List.Perm
use go_execution_abci.Prelude.{
  suc, ◌≡◌, refl, ap, ◌∙◌, Bool, true, false, Bool-cases, inl, inr, if◌then◌else◌, length, List, [],
  ◌∷◌, arith,
}
use go_execution_abci.Rpc.Search.{Sorter}
use go_execution_abci.Rpc.Search.Order.{InOrder, IsSorter}

abbrev insert : {A : Type 0} → (A → A → Bool) → A → List A → List A
insert before x [] = x ∷ []
insert before x (y ∷ ys) =
    let rest = insert before x ys in if before y x then y ∷ rest else x ∷ y ∷ ys

abbrev sort : {A : Type 0} → (A → A → Bool) → List A → List A
sort before [] = []
sort before (x ∷ xs) = insert before x (sort before xs)

module _ {A : Type 0} (before : A → A → Bool) where
  module _ (asymmetric : (a b : A) → before a b ≡ true → before b a ≡ false) where
    -- An item behind a head that comes before it.
    behind-InOrder :
        (x y : A) (ys : List A)
        → before y x ≡ true
        → InOrder before (y ∷ ys)
        → InOrder before (insert before x ys)
        → InOrder before (y ∷ insert before x ys)
    behind-InOrder x y [] first h k = (asymmetric y x first, tt)
    behind-InOrder x y (z ∷ zs) first h k = choose (before z x) k
      where
        choose :
            (b : Bool)
            → InOrder before (if b then z ∷ insert before x zs else x ∷ z ∷ zs)
            → InOrder before (y ∷ (if b then z ∷ insert before x zs else x ∷ z ∷ zs))
        choose true j = (h.0, j)
        choose false j = (asymmetric y x first, j)

    insert-InOrder : (x : A) (ys : List A) → InOrder before ys → InOrder before (insert before x ys)
    insert-InOrder x [] h = tt
    insert-InOrder x (y ∷ ys) h = elim (Bool-cases (before y x)) [
      | inl first ↦ rw first (behind-InOrder x y ys first h (insert-InOrder x ys (tail y ys h)))
      | inr last ↦ rw last (last, h)
    ]
      where
        tail : (z : A) (zs : List A) → InOrder before (z ∷ zs) → InOrder before zs
        tail z [] k = tt
        tail z (w ∷ ws) k = k.1

    sort-InOrder : (xs : List A) → InOrder before (sort before xs)
    sort-InOrder [] = tt
    sort-InOrder (x ∷ xs) = insert-InOrder x (sort before xs) (sort-InOrder xs)

  insert-perm : (x : A) (ys : List A) → Perm (insert before x ys) (x ∷ ys)
  insert-perm x [] = Perm.rfl
  insert-perm x (y ∷ ys) = elim (Bool-cases (before y x)) [
    | inl first ↦ rw first (Perm.trans (Perm.cons y (insert-perm x ys)) (Perm.swap x y ys))
    | inr last ↦ rw last Perm.rfl
  ]

  sort-perm : (xs : List A) → Perm (sort before xs) xs
  sort-perm [] = Perm.rfl
  sort-perm (x ∷ xs) = Perm.trans (insert-perm x (sort before xs)) (Perm.cons x (sort-perm xs))

  length-insert : (x : A) (ys : List A) → length (insert before x ys) ≡ suc (length ys)
  length-insert x [] = refl
  length-insert x (y ∷ ys) = ground (arith, length-insert x ys)

  length-sort : (xs : List A) → length (sort before xs) ≡ length xs
  length-sort [] = refl
  length-sort (x ∷ xs) = length-insert x (sort before xs) ∙ ap suc (length-sort xs)

abbrev pub insertion : Sorter
insertion = record { slice = sort }

pub insertion-IsSorter : IsSorter insertion
insertion-IsSorter = record {
  slice-InOrder = λ before xs order. sort-InOrder before order.asymmetric xs;
  slice-perm = λ before xs. sort-perm before xs;
  length-slice = λ before xs. length-sort before xs;
}
