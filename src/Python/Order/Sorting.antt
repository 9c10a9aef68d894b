-- ===== src/Python/Order/Sorting.antt =====
-- `sorted` by a strict order, as a stable insertion sort.
use mathlib.Core.List.{Perm}
use mathlib.Core.List.Perm
use usdb_explorer.Prelude.{
  ◌≡◌, refl, Bool, true, false, List, [], ◌∷◌, ◌↔◌, inl, inr, arith, All, In, Bool-cases,
  if◌then◌else◌,
}
use usdb_explorer.Python.Order.{WeakOrder}

module _ {A : Type 0} (lt : A → A → Bool) where
  unfoldable pub insert : A → List A → List A
  insert x [] = x ∷ []
  insert x (y ∷ ys) = if lt y x then y ∷ insert x ys else x ∷ y ∷ ys

  unfoldable pub sort : List A → List A
  unfolding insert
  sort [] = []
  sort (x ∷ xs) = insert x (sort xs)

  -- No later element is smaller.
  abbrev pub IsSorted : List A → Type 0
  IsSorted [] = Unit
  IsSorted (x ∷ xs) = All (λ y. lt y x ≡ false) xs × IsSorted xs

  All-insert : (P : A → Type 0) (x : A) (ys : List A) → P x → All P ys → All P (insert x ys)
  unfolding insert
  All-insert P x [] p h = (p, tt)
  All-insert P x (y ∷ ys) p (q, h) = ground (arith, All-insert P x ys p h)

  pub All-sort : (P : A → Type 0) (xs : List A) → All P xs → All P (sort xs)
  unfolding sort
  All-sort P [] h = tt
  All-sort P (x ∷ xs) (p, h) = All-insert P x (sort xs) p (All-sort P xs h)

  insert_of_least : (x : A) (ys : List A) → All (λ y. lt y x ≡ false) ys → insert x ys ≡ x ∷ ys
  unfolding insert
  insert_of_least x [] h = refl
  insert_of_least x (y ∷ ys) (q, h) = ground arith

  -- What is sorted stays as it is.
  pub sort_of_IsSorted : (xs : List A) → IsSorted xs → sort xs ≡ xs
  unfolding sort
  sort_of_IsSorted [] h = refl
  sort_of_IsSorted (x ∷ xs) (least, h) = rw (sort_of_IsSorted xs h) (insert_of_least x xs least)

  insert-perm : (x : A) (ys : List A) → Perm (insert x ys) (x ∷ ys)
  unfolding insert
  insert-perm x [] = Perm.refl (x ∷ [])
  insert-perm x (y ∷ ys) = elim (Bool-cases (lt y x)) [
    | inl h ↦ rw h (Perm.trans (Perm.cons y (insert-perm x ys)) (Perm.swap x y ys))
    | inr h ↦ rw h (Perm.refl (x ∷ y ∷ ys))
  ]

  pub sort-perm : (xs : List A) → Perm (sort xs) xs
  unfolding sort
  sort-perm [] = Perm.refl []
  sort-perm (x ∷ xs) = Perm.trans (insert-perm x (sort xs)) (Perm.cons x (sort-perm xs))

module _ {A : Type 0} {lt : A → A → Bool} (o : WeakOrder lt) where
  All-least :
      (x y : A) (ys : List A)
      → lt y x ≡ false
      → All (λ z. lt z y ≡ false) ys
      → All (λ z. lt z x ≡ false) ys
  All-least x y [] p h = tt
  All-least x y (z ∷ zs) p (q, h) = (o.le_trans x y z p q, All-least x y zs p h)

  insert-IsSorted : (x : A) (ys : List A) → IsSorted lt ys → IsSorted lt (insert lt x ys)
  unfolding insert
  insert-IsSorted x [] h = (tt, tt)
  insert-IsSorted x (y ∷ ys) (least, h) = elim (Bool-cases (lt y x)) [
    | inl p ↦ rw p (All-insert lt _ x ys (o.asymm y x p) least, insert-IsSorted x ys h)
    | inr p ↦ rw p ((p, All-least x y ys p least), (least, h))
  ]

  -- The result of `sorted` is sorted.
  pub sort-IsSorted : (xs : List A) → IsSorted lt (sort lt xs)
  unfolding sort
  sort-IsSorted [] = tt
  sort-IsSorted (x ∷ xs) = insert-IsSorted x (sort lt xs) (sort-IsSorted xs)

  -- Sorting twice is sorting once.
  pub sort-sort : (xs : List A) → sort lt (sort lt xs) ≡ sort lt xs
  sort-sort xs = sort_of_IsSorted lt (sort lt xs) (sort-IsSorted xs)

module _ {A : Type 0} (lt : A → A → Bool) where
  In-insert_step :
      (b : Bool) (x y z : A) (ys : List A)
      → (In z (insert lt x ys) ↔ In z (x ∷ ys))
      → In z (if b then y ∷ insert lt x ys else x ∷ y ∷ ys) ↔ In z (x ∷ y ∷ ys)
  In-insert_step false x y z ys ih = (λ i. i, λ i. i)
  In-insert_step true x y z ys ih = (
    elim [ inl e ↦ inr (inl e) | inr i ↦ elim (ih.0 i) [ inl e ↦ inl e | inr j ↦ inr (inr j) ] ],
    elim [
      | inl e ↦ inr (ih.1 (inl e))
      | inr i ↦ elim i [ inl e ↦ inl e | inr j ↦ inr (ih.1 (inr j)) ]
    ],
  )

  In-insert : (x z : A) (ys : List A) → In z (insert lt x ys) ↔ In z (x ∷ ys)
  unfolding insert
  In-insert x z [] = (λ i. i, λ i. i)
  In-insert x z (y ∷ ys) = In-insert_step (lt y x) x y z ys (In-insert x z ys)

  -- Sorting keeps the members.
  pub In-sort : (z : A) (xs : List A) → In z (sort lt xs) ↔ In z xs
  unfolding sort
  In-sort z [] = (λ i. i, λ i. i)
  In-sort z (x ∷ xs) =
      let inserted = In-insert x z (sort lt xs) in
      let ih = In-sort z xs in
      (
        λ i. elim (inserted.0 i) [ inl e ↦ inl e | inr j ↦ inr (ih.0 j) ],
        elim [ inl e ↦ inserted.1 (inl e) | inr j ↦ inserted.1 (inr (ih.1 j)) ],
      )
