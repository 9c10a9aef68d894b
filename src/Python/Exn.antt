-- ===== src/Python/Exn.antt =====
-- Exceptions as values. The text of an error is kept where the program tells errors apart by it;
-- a text that quotes its input is kept up to what it quotes.
pub mod Loops
use usdb_explorer.Prelude.{
  String, ◌≡◌, refl, Bool, true, false, Option, none, some, List, [], ◌∷◌, if◌then◌else◌, arith,
}
use usdb_explorer.Python.Value.{Value, Fields, null, obj, arr, str, lookup}

pub data Exn : Type 0 where
  value_error : String → Exn
  key_error : String → Exn
  type_error : Exn
  attribute_error : Exn
  os_error : String → Exn
  -- A failed or a timed out `subprocess.run`.
  process_error : Exn
  -- `RpcFailure`, a `ValueError`: its category and its detail.
  rpc_failure : String → String → Exn

-- What a call comes to: it returns a value, or it leaves an exception behind.
pub data Result {κ} (X : Type κ) : Type κ where
  ok : X → Result X
  raise : Exn → Result X

infixl 5 ◌>>=◌ ◌>>◌
-- What follows a call runs only behind one that returned.
abbrev pub ◌>>=◌ {κ ℓ} : {X : Type κ} {Y : Type ℓ} → Result X → (X → Result Y) → Result Y
raise left >>= next = raise left
ok x >>= next = next x

-- The same for a call whose value nobody reads.
abbrev pub ◌>>◌ {κ ℓ} : {X : Type κ} {Y : Type ℓ} → Result X → Result Y → Result Y
call >> next = call >>= λ unread. next

-- `if not condition: raise ValueError(message)`
abbrev pub require : Bool → String → Result (Unit {0})
require true message = ok tt
require false message = raise (value_error message)

-- `if condition: raise ValueError(message)`
abbrev pub refuse : Bool → String → Result (Unit {0})
refuse true message = raise (value_error message)
refuse false message = ok tt

-- `v.get(key)`, with `None` for a missing key.
unfoldable pub get : Value → String → Result Value
get (obj d) k = ok (elim (lookup k d) [ none ↦ null | some v ↦ v ])
get _ k = raise attribute_error

-- `v.get(key, default)`
unfoldable pub get_or : Value → String → Value → Result Value
get_or (obj d) k default = ok (elim (lookup k d) [ none ↦ default | some v ↦ v ])
get_or _ k default = raise attribute_error

-- `v[key]` with a text as the key.
unfoldable pub subscript : Value → String → Result Value
subscript (obj d) k = elim (lookup k d) [ none ↦ raise (key_error k) | some v ↦ ok v ]
subscript _ k = raise type_error

-- A loop that may raise.
module _ {A B : Type 0} (f : A → Result B) where
  unfoldable pub each : List A → Result (List B)
  each [] = ok []
  each (x ∷ xs) = do y ← f x; ys ← each xs; ok (y ∷ ys)

-- `[x for x in xs if test(x)]` with a test that may raise.
module _ {A : Type 0} (test : A → Result Bool) where
  unfoldable pub keep_each : List A → Result (List A)
  keep_each [] = ok []
  keep_each (x ∷ xs) = do b ← test x; rest ← keep_each xs; ok (if b then x ∷ rest else rest)

-- Two calls in a row returned only if each of them did.
pub bind_ok {κ ℓ} :
    {X : Type κ} {Y : Type ℓ} (first : Result X) (next : X → Result Y) {y : Y}
    → (first >>= next) ≡ ok y
    → (x : X) × (first ≡ ok x) × (next x ≡ ok y)
bind_ok (raise left) next h = cc
bind_ok (ok x) next h = (x, refl, h)

-- Inversion of a check that passed.
pub require_ok {ℓ} :
    {B : Type ℓ} (b : Bool) (message : String) (k : Result B) {x : B}
    → (require b message >> k) ≡ ok x
    → (b ≡ true) × (k ≡ ok x)
require_ok true message k h = (refl, h)
require_ok false message k h = cc

pub refuse_ok {ℓ} :
    {B : Type ℓ} (b : Bool) (message : String) (k : Result B) {x : B}
    → (refuse b message >> k) ≡ ok x
    → (b ≡ false) × (k ≡ ok x)
refuse_ok true message k h = cc
refuse_ok false message k h = (refl, h)

pub required_true :
    (b : Bool) (message : String) {u : Unit {0}} → require b message ≡ ok u → b ≡ true
required_true true message h = refl
required_true false message h = cc
