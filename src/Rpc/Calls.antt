-- ===== src/Rpc/Calls.antt =====
-- Calls that change the world: what they answer depends on when they are made, so each takes a
-- world and gives the next one, also when it raises.
use usdb_explorer.Prelude.{
  ◌≡◌, refl, Bool, true, false, String, List, [], ◌∷◌, In, inl, inr, sym, subst,
}
use usdb_explorer.Python.Exn.{Result, ok, raise, Exn, value_error}

pub data Outcome (W A : Type 0) : Type 0 where
  done : A → W → Outcome W A
  failed : Exn → W → Outcome W A

abbrev pub Io : Type 0 → Type 0 → Type 0
Io W A = W → Outcome W A

abbrev pub then_run : {W A B : Type 0} → Outcome W A → (A → Io W B) → Outcome W B
then_run (done a w) f = f a w
then_run (failed e w) f = failed e w

infixl 5 ◌>>=◌ ◌>>◌
unfoldable pub ◌>>=◌ : {W A B : Type 0} → Io W A → (A → Io W B) → Io W B
(m >>= f) w = then_run (m w) f

unfoldable pub ◌>>◌ : {W A B : Type 0} → Io W A → Io W B → Io W B
(m >> k) w = then_run (m w) (λ _. k)

unfoldable pub pure : {W A : Type 0} → A → Io W A
pure a w = done a w

pub then_done :
    {W A B : Type 0} (o : Outcome W A) (f : A → Io W B) {b : B} {w : W}
    → then_run o f ≡ done b w
    → (a : A) × (v : W) × (o ≡ done a v) × (f a v ≡ done b w)
then_done (done a v) f h = (a, v, refl, h)
then_done (failed e v) f h = cc

-- A computation that makes no call.
unfoldable pub lift : {W A : Type 0} → Result A → Io W A
lift (ok a) w = done a w
lift (raise e) w = failed e w

-- `raise ValueError(message)` if the condition fails.
unfoldable pub check : {W : Type 0} → Bool → String → Io W (Unit {0})
check true message w = done tt w
check false message w = failed (value_error message) w

-- The exception of a call as a value, for `try` and `except`.
abbrev pub caught : {W A : Type 0} → Outcome W A → Outcome W (Result A)
caught (done a w) = done (ok a) w
caught (failed e w) = done (raise e) w

unfoldable pub attempt : {W A : Type 0} → Io W A → Io W (Result A)
attempt m w = caught (m w)

-- `for x in xs: body(x)`
module _ {W A : Type 0} (body : A → Io W (Unit {0})) where
  unfoldable pub for_each : List A → Io W (Unit {0})
  for_each [] w = done tt w
  for_each (x ∷ xs) w = then_run (body x w) (λ _. for_each xs)

pub bind_done :
    {W A B : Type 0} (m : Io W A) (f : A → Io W B) (u : W) {b : B} {w : W}
    → (m >>= f) u ≡ done b w
    → (a : A) × (v : W) × (m u ≡ done a v) × (f a v ≡ done b w)
unfolding ◌>>=◌
bind_done m f u h = then_done (m u) f h

pub next_done :
    {W A B : Type 0} (m : Io W A) (k : Io W B) (u : W) {b : B} {w : W}
    → (m >> k) u ≡ done b w
    → (a : A) × (v : W) × (m u ≡ done a v) × (k v ≡ done b w)
unfolding ◌>>◌
next_done m k u h = then_done (m u) (λ _. k) h

pub pure_done : {W A : Type 0} (a : A) (u : W) {b : A} {w : W} → pure a u ≡ done b w → a ≡ b
unfolding pure
pure_done a u h = cc

pub lift_done :
    {W A : Type 0} (r : Result A) (u : W) {a : A} {w : W} → lift r u ≡ done a w → r ≡ ok a
unfolding lift
lift_done (ok x) u h = cc
lift_done (raise e) u h = cc

-- The body ran for each member, in some world.
pub for_each_done :
    {W A : Type 0} (body : A → Io W (Unit {0})) (xs : List A) (u : W) {w : W} (x : A)
    → for_each body xs u ≡ done tt w
    → In x xs
    → (v z : W) × (body x v ≡ done tt z)
unfolding for_each
for_each_done body [] u x h i = elim i [ ]
for_each_done body (y ∷ xs) u x h i =
    let (_, v, first, rest) = then_done (body y u) (λ _. for_each body xs) h in
    elim i [
      | inl e ↦ (u, v, subst (λ z. body z u ≡ done tt v) (sym e) first)
      | inr later ↦ for_each_done body xs v x rest later
    ]

pub check_done :
    {W : Type 0} (b : Bool) (message : String) (u : W) {a : Unit {0}} {w : W}
    → check b message u ≡ done a w
    → b ≡ true
unfolding check
check_done true message u h = refl
check_done false message u h = cc

caught_done :
    {W A : Type 0} (o : Outcome W A) {a : A} {w : W} → caught o ≡ done (ok a) w → o ≡ done a w
caught_done (done x v) h = cc
caught_done (failed e v) h = cc

pub attempt_done :
    {W A : Type 0} (m : Io W A) (u : W) {a : A} {w : W}
    → attempt m u ≡ done (ok a) w
    → m u ≡ done a w
unfolding attempt
attempt_done m u h = caught_done (m u) h
