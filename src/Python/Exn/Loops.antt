-- ===== src/Python/Exn/Loops.antt =====
-- Members of what a loop or a comprehension that may raise has gathered.
use usdb_explorer.Prelude.{
  ◌≡◌, refl, sym, ap, subst, Bool, true, false, List, [], ◌∷◌, inl, inr, In, if◌then◌else◌,
}
use usdb_explorer.Python.Exn.{Result, ok, raise, Exn, each, keep_each, bind_ok, ◌>>=◌}

pub ok-injective {ℓ} : {A : Type ℓ} {a b : A} → ok a ≡ ok b → a ≡ b
ok-injective h = cc

-- What follows a call that returned.
pub bind_step {κ ℓ} :
    {X : Type κ} {Y : Type ℓ} (first : Result X) (next : X → Result Y) {x : X}
    → first ≡ ok x
    → (first >>= next) ≡ next x
bind_step (ok y) next h = ap next (ok-injective h)
bind_step (raise e) next h = cc

-- A value behind a test, and one behind a test that has to fail.
pub if_ok {ℓ} :
    {A : Type ℓ} (b : Bool) (e : Exn) {x y : A}
    → (if b then ok x else raise e) ≡ ok y
    → (b ≡ true) × (x ≡ y)
if_ok true e h = (refl, ok-injective h)
if_ok false e h = cc

pub unless_ok {ℓ} :
    {A : Type ℓ} (b : Bool) (e : Exn) {x y : A}
    → (if b then raise e else ok x) ≡ ok y
    → (b ≡ false) × (x ≡ y)
unless_ok true e h = cc
unless_ok false e h = (refl, ok-injective h)

module _ {A B : Type 0} (f : A → Result B) where
  -- The first result and the rest of a successful loop.
  each-cons :
      (x : A) (xs : List A) {ys : List B}
      → each f (x ∷ xs) ≡ ok ys
      → (y : B) × (rest : List B) × (f x ≡ ok y) × (each f xs ≡ ok rest) × (y ∷ rest ≡ ys)
  unfolding each
  each-cons x xs h =
      let (y, first, more) = bind_ok (f x) _ h in
      let (rest, loop, same) = bind_ok (each f xs) _ more in
      (y, rest, first, loop, ok-injective same)

  each-nil : {ys : List B} → each f [] ≡ ok ys → [] ≡ ys
  unfolding each
  each-nil h = ok-injective h

  pub In-each :
      (xs : List A) {ys : List B} {y : B}
      → each f xs ≡ ok ys
      → In y ys
      → (x : A) × In x xs × (f x ≡ ok y)
  In-each [] {y = y} h i = absurd (subst (In y) (sym (each-nil h)) i)
  In-each (x ∷ xs) {y = y} h i =
      let (z, rest, first, loop, same) = each-cons x xs h in
      elim (subst (In y) (sym same) i) [
        | inl e ↦ (x, inl refl, rw e first)
        | inr j ↦ let (w, place, at) = In-each xs loop j in (w, inr place, at)
      ]

  pub each-In :
      (xs : List A) {ys : List B} {x : A} {y : B}
      → each f xs ≡ ok ys
      → In x xs
      → f x ≡ ok y
      → In y ys
  each-In [] h i e = elim i [ ]
  each-In (z ∷ xs) {y = y} h i e =
      let (w, rest, first, loop, same) = each-cons z xs h in
      subst (In y) same
        (elim i [ inl p ↦ inl (ok-injective (cc)) | inr j ↦ inr (each-In xs loop j e) ])

module _ {A : Type 0} (test : A → Result Bool) where
  keep_each-cons :
      (x : A) (xs : List A) {ys : List A}
      → keep_each test (x ∷ xs) ≡ ok ys
      → (b : Bool) × (rest : List A) × (test x ≡ ok b)
        × (keep_each test xs ≡ ok rest)
        × ((if b then x ∷ rest else rest) ≡ ys)
  unfolding keep_each
  keep_each-cons x xs h =
      let (b, first, more) = bind_ok (test x) _ h in
      let (rest, loop, same) = bind_ok (keep_each test xs) _ more in
      (b, rest, first, loop, ok-injective same)

  keep_each-nil : {ys : List A} → keep_each test [] ≡ ok ys → [] ≡ ys
  unfolding keep_each
  keep_each-nil h = ok-injective h

  pub In-keep_each :
      (xs : List A) {ys : List A} {y : A}
      → keep_each test xs ≡ ok ys
      → In y ys
      → In y xs × (test y ≡ ok true)
  In-keep_each [] {y = y} h i = absurd (subst (In y) (sym (keep_each-nil h)) i)
  In-keep_each (x ∷ xs) {y = y} h i =
      let (b, rest, first, loop, same) = keep_each-cons x xs h in
      kept b rest first loop (subst (In y) (sym same) i) (In-keep_each xs loop)
    where
      kept :
          (b : Bool) (rest : List A)
          → test x ≡ ok b
          → keep_each test xs ≡ ok rest
          → In y (if b then x ∷ rest else rest)
          → (In y rest → In y xs × (test y ≡ ok true))
          → In y (x ∷ xs) × (test y ≡ ok true)
      kept true rest first loop (inl e) ih = (inl e, rw e first)
      kept true rest first loop (inr j) ih = (inr (ih j).0, (ih j).1)
      kept false rest first loop j ih = (inr (ih j).0, (ih j).1)

  pub keep_each-In :
      (xs : List A) {ys : List A} {x : A}
      → keep_each test xs ≡ ok ys
      → In x xs
      → test x ≡ ok true
      → In x ys
  keep_each-In [] h i e = elim i [ ]
  keep_each-In (z ∷ xs) {x = x} h i e =
      let (b, rest, first, loop, same) = keep_each-cons z xs h in
      subst (In x) same (kept b rest first i (λ j. keep_each-In xs loop j e))
    where
      kept :
          (b : Bool) (rest : List A)
          → test z ≡ ok b
          → In x (z ∷ xs)
          → (In x xs → In x rest)
          → In x (if b then z ∷ rest else rest)
      kept true rest first (inl p) ih = inl p
      kept true rest first (inr j) ih = inr (ih j)
      kept false rest first (inl p) ih = cc (ap test p)
      kept false rest first (inr j) ih = ih j
