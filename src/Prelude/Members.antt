-- ===== src/Prelude/Members.antt =====
-- Members of lists that are joined, filtered, or grow under a test.
use usdb_explorer.Prelude.Tests.{if◌then◌else◌, Bool-cases, ◌=s◌, eq_iff}
use usdb_explorer.Prelude.Lists.{In, All, keep, contains, all}
use Prim.Native.String.{String}
use mathlib.Core.Path.{◌≡◌, refl, sym, subst}
use mathlib.Core.Logic.{◌⊎◌, inl, inr}
use mathlib.Core.Bool.{Bool, true, false}
use mathlib.Core.List.{List, [], ◌∷◌, ◌++◌}
use native.Mathlib.Omega.{arith}

pub All-In : {A : Type 0} (P : A → Type 0) {x : A} (xs : List A) → All P xs → In x xs → P x
All-In P [] h i = elim i [ ]
All-In P (y ∷ xs) (p, h) (inl e) = subst P (sym e) p
All-In P (y ∷ xs) (p, h) (inr i) = All-In P xs h i

module _ {A : Type 0} (x : A) where
  pub In-append_left : (xs ys : List A) → In x xs → In x (xs ++ ys)
  In-append_left [] ys i = elim i [ ]
  In-append_left (y ∷ xs) ys (inl e) = inl e
  In-append_left (y ∷ xs) ys (inr i) = inr (In-append_left xs ys i)

  pub In-append_right : (xs ys : List A) → In x ys → In x (xs ++ ys)
  In-append_right [] ys i = i
  In-append_right (y ∷ xs) ys i = inr (In-append_right xs ys i)

  pub In-append : (xs ys : List A) → In x (xs ++ ys) → In x xs ⊎ In x ys
  In-append [] ys i = inr i
  In-append (y ∷ xs) ys (inl e) = inl (inl e)
  In-append (y ∷ xs) ys (inr i) = elim (In-append xs ys i) [ inl j ↦ inl (inr j) | inr j ↦ inr j ]

  -- A list that gets `y` only if the test fails.
  pub In-unless_rest :
      (b : Bool) (y : A) (rest : List A) → In x rest → In x (if b then rest else y ∷ rest)
  In-unless_rest true y rest i = i
  In-unless_rest false y rest i = inr i

  pub In-unless_first : (b : Bool) (rest : List A) → b ≡ false → In x (if b then rest else x ∷ rest)
  In-unless_first true rest h = cc
  In-unless_first false rest h = inl refl

  pub In-unless :
      (b : Bool) (y : A) (rest : List A)
      → In x (if b then rest else y ∷ rest)
      → In x rest ⊎ ((b ≡ false) × (x ≡ y))
  In-unless true y rest i = inl i
  In-unless false y rest (inl e) = inr (refl, e)
  In-unless false y rest (inr i) = inl i

  -- A list that gets `y` only if the test passes.
  pub In-when_rest :
      (b : Bool) (y : A) (rest : List A) → In x rest → In x (if b then y ∷ rest else rest)
  In-when_rest true y rest i = inr i
  In-when_rest false y rest i = i

  pub In-when_first : (b : Bool) (rest : List A) → b ≡ true → In x (if b then x ∷ rest else rest)
  In-when_first true rest h = inl refl
  In-when_first false rest h = cc

  pub In-keep : (p : A → Bool) (xs : List A) → In x xs → p x ≡ true → In x (keep p xs)
  In-keep p [] i h = elim i [ ]
  In-keep p (y ∷ xs) (inl e) h =
      subst (λ z. In x (if p z then z ∷ keep p xs else keep p xs)) e
        (In-when_first (p x) (keep p xs) h)
  In-keep p (y ∷ xs) (inr i) h = In-when_rest (p y) y (keep p xs) (In-keep p xs i h)

pub contains-In : (xs : List String) (s : String) → contains xs s ≡ true → In s xs
contains-In [] s h = cc
contains-In (x ∷ xs) s h = elim (Bool-cases (x =s s)) [
  | inl e ↦ inl (sym ((eq_iff x s).0 e))
  | inr e ↦ inr (contains-In xs s (ground arith))
]

pub all-In :
    {A : Type 0} (p : A → Bool) (xs : List A) {x : A} → all p xs ≡ true → In x xs → p x ≡ true
all-In p [] h i = elim i [ ]
all-In p (y ∷ xs) h (inl e) = subst (λ z. p z ≡ true) (sym e) (ground arith)
all-In p (y ∷ xs) h (inr i) = all-In p xs (ground arith) i
