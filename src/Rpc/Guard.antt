-- ===== src/Rpc/Guard.antt =====
-- The acceptance of explorer/public_checks.py sends nothing but read-only methods: what each such
-- request keeps of the world, the whole check keeps.
use usdb_explorer.Prelude.{
  ◌≡◌, refl, String, Bool, true, false, if◌then◌else◌, List, [], ◌∷◌, contains, All,
}
use usdb_explorer.Python.Value.{Value}
use usdb_explorer.Python.Exn.{Result, ok, raise}
use usdb_explorer.Rpc.Calls.{
  Io, Outcome, done, failed, ◌>>=◌, ◌>>◌, pure, lift, check, attempt, caught, for_each, then_run,
}
use usdb_explorer.Rpc.Failure.{read_methods}
use usdb_explorer.Rpc.Read.{Client, payload, read_rpc, named_rpc}

abbrev pub world : {W A : Type 0} → Outcome W A → W
world (done a w) = w
world (failed e w) = w

module _ {W : Type 0} (Inv : W → Type 0) where
  -- A computation that keeps what holds of the world, whether it returns or raises.
  pub record Keeps {A : Type 0} (m : Io W A) : Type 0 where
    pub keeps : (w : W) → Inv w → Inv (world (m w))

  keeps_run :
      {A B : Type 0} (o : Outcome W A) (f : A → Io W B)
      → Inv (world o)
      → ((a : A) → Keeps (f a))
      → Inv (world (then_run o f))
  keeps_run (done a w) f i k = (k a).keeps w i
  keeps_run (failed e w) f i k = i

  pub bind-Keeps :
      {A B : Type 0} {m : Io W A} {f : A → Io W B}
      → Keeps m
      → ((a : A) → Keeps (f a))
      → Keeps (m >>= f)
  unfolding ◌>>=◌
  bind-Keeps {m} {f} h k = record { keeps = λ w i. keeps_run (m w) f (h.keeps w i) k }

  pub next-Keeps : {A B : Type 0} {m : Io W A} {k : Io W B} → Keeps m → Keeps k → Keeps (m >> k)
  unfolding ◌>>◌
  next-Keeps {m} {k} h j = record { keeps = λ w i. keeps_run (m w) (λ _. k) (h.keeps w i) (λ _. j) }

  pub pure-Keeps : {A : Type 0} (a : A) → Keeps (pure a)
  unfolding pure
  pure-Keeps a = record { keeps = λ w i. i }

  kept_lift : {A : Type 0} (r : Result A) (w : W) → Inv w → Inv (world (lift r w))
  unfolding lift
  kept_lift (ok a) w i = i
  kept_lift (raise e) w i = i

  pub lift-Keeps : {A : Type 0} (r : Result A) → Keeps (lift r)
  lift-Keeps r = record { keeps = kept_lift r }

  kept_check : (b : Bool) (message : String) (w : W) → Inv w → Inv (world (check b message w))
  unfolding check
  kept_check true message w i = i
  kept_check false message w i = i

  pub check-Keeps : (b : Bool) (message : String) → Keeps (check b message)
  check-Keeps b message = record { keeps = kept_check b message }

  kept_caught : {A : Type 0} (o : Outcome W A) → Inv (world o) → Inv (world (caught o))
  kept_caught (done a w) i = i
  kept_caught (failed e w) i = i

  pub attempt-Keeps : {A : Type 0} {m : Io W A} → Keeps m → Keeps (attempt m)
  unfolding attempt
  attempt-Keeps {m} h = record { keeps = λ w i. kept_caught (m w) (h.keeps w i) }

  pub if-Keeps :
      {A : Type 0} (b : Bool) {m k : Io W A} → Keeps m → Keeps k → Keeps (if b then m else k)
  if-Keeps true h j = h
  if-Keeps false h j = j

  kept_each :
      {A : Type 0} (P : A → Type 0) (body : A → Io W (Unit {0})) (xs : List A)
      → All P xs
      → ((x : A) → P x → Keeps (body x))
      → (w : W) → Inv w
      → Inv (world (for_each body xs w))
  unfolding for_each
  kept_each P body [] all h w i = i
  kept_each P body (x ∷ xs) (first, all) h w i =
      keeps_run (body x w) (λ _. for_each body xs) ((h x first).keeps w i)
        (λ _. record { keeps = kept_each P body xs all h })

  pub for_each-Keeps :
      {A : Type 0} (P : A → Type 0) (body : A → Io W (Unit {0})) (xs : List A)
      → All P xs
      → ((x : A) → P x → Keeps (body x))
      → Keeps (for_each body xs)
  for_each-Keeps P body xs all h = record { keeps = kept_each P body xs all h }

  -- A client all of whose calls keep it.
  abbrev pub IsGuarded : Client W → Type 0
  IsGuarded client = (method : String) (params : List Value) → Keeps (client method params)

  -- A transport whose read-only requests keep it.
  abbrev pub IsReadOnly : (Value → Io W Value) → Type 0
  IsReadOnly fetch =
      (method : String) (params : List Value)
      → contains read_methods method ≡ true
      → Keeps (fetch (payload method params))

  checked_first :
      {B : Type 0} (b : Bool) (message : String) {k : Io W B}
      → (b ≡ true → Keeps k)
      → Keeps (check b message >> k)
  unfolding check ◌>>◌
  checked_first true message {k} h = record { keeps = (h refl).keeps }
  checked_first false message h = record { keeps = λ w i. i }

  pub read_rpc-IsGuarded :
      (fetch : Value → Io W Value) → IsReadOnly fetch → IsGuarded (read_rpc fetch)
  unfolding read_rpc
  read_rpc-IsGuarded fetch h method params =
      checked_first (contains read_methods method) _ (λ known.
        bind-Keeps (attempt-Keeps (h method params known))
          (λ reply. bind-Keeps (lift-Keeps _) (λ v. lift-Keeps _)))

  pub named_rpc-IsGuarded :
      (client : Client W) (name : String) → IsGuarded client → IsGuarded (named_rpc client name)
  unfolding named_rpc
  named_rpc-IsGuarded client name h method params =
      bind-Keeps (attempt-Keeps (h method params)) (λ reply. lift-Keeps _)
