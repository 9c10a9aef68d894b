-- ===== src/Deploy/Replaced.antt =====
-- What `prepare` of explorer/usdb_public.py leaves behind, whichever one call fails.
use usdb_explorer.Prelude.{
  ℕ, zero, suc, ◌≡◌, refl, subst, String, Bool, true, false, Option, none, some, ◌⊎◌, inl, inr,
}
use usdb_explorer.Python.Value.{Value}
use usdb_explorer.Python.Exn.{Exn, Result, ok, raise}
use usdb_explorer.Rpc.Calls.{Outcome, done, failed, then_run, lift, ◌>>=◌, ◌>>◌, pure}
use usdb_explorer.Install.Links.{rescue, finally}
use usdb_explorer.Config.Load.{Loaded}
use usdb_explorer.Deploy.{Tree}
use usdb_explorer.Deploy.Prepare.{Inputs, Plan, is_there, plan_of, stage}
use usdb_explorer.Deploy.Kept.{IsKept, stage-IsKept}
use usdb_explorer.Deploy.Replace.{
  World, after_call, call, make_staging, write_staging, move_away, move_back, put_in_place, back_up,
  roll_back, swap, drop_staging, clean_up, switch, prepare,
}

-- A run that returns has put the generation in place and kept the one before as the backup. One that
-- raises has left the deployment as it was, without a backup. The staging directory is gone.
abbrev pub IsReplaced : Option Tree → Option Tree → Outcome World (Unit {0}) → Type 0
IsReplaced before staged (done u w) = (w.root ≡ staged) × (w.backup ≡ before) × (w.staging ≡ none)
IsReplaced before staged (failed e w) = (w.root ≡ before) × (w.backup ≡ none) × (w.staging ≡ none)

abbrev pub started : Option Tree → Bool → Option ℕ → World
started root running fault = record {
  root = root;
  staging = none;
  backup = none;
  running = running;
  fault = fault;
}

-- A run whose documents cannot be rendered raises, with the location as before and no backup. The
-- staging directory is gone, unless the call that removes it is the one that fails.
abbrev pub IsUndone : World → Outcome World (Unit {0}) → Type 0
IsUndone w (done u v) = ⊥
IsUndone w (failed e v) =
    (v.root ≡ w.root) × (v.backup ≡ none) × ((w.fault ≡ some 1) ⊎ (v.staging ≡ none))

-- The run of a deployment behind its checks.
abbrev pub IsPlaced : World → Result Tree → Outcome World (Unit {0}) → Type 0
IsPlaced w (raise e) o = IsUndone w o
IsPlaced w (ok tree) o = IsReplaced w.root (some tree) o

module _ (running : Bool) where
  fresh_switch :
      (tree : Tree) (n : ℕ)
      → IsReplaced none (some tree) (switch false (ok tree) (started none running (some n)))
  unfolding after_call call write_staging move_away move_back put_in_place back_up roll_back swap
      make_staging drop_staging clean_up switch rescue finally lift ◌>>=◌ ◌>>◌ pure
  fresh_switch tree zero = (refl, refl, refl)
  fresh_switch tree (suc zero) = (refl, refl, refl)
  fresh_switch tree (suc (suc zero)) = (refl, refl, refl)
  fresh_switch tree (suc (suc (suc n))) = (refl, refl, refl)

  replacing_switch :
      (tree old : Tree) (n : ℕ)
      → IsReplaced
          (some old)
          (some tree)
          (switch true (ok tree) (started (some old) running (some n)))
  unfolding after_call call write_staging move_away move_back put_in_place back_up roll_back swap
      make_staging drop_staging clean_up switch rescue finally lift ◌>>=◌ ◌>>◌ pure
  replacing_switch tree old zero = (refl, refl, refl)
  replacing_switch tree old (suc zero) = (refl, refl, refl)
  replacing_switch tree old (suc (suc zero)) = (refl, refl, refl)
  replacing_switch tree old (suc (suc (suc zero))) = (refl, refl, refl)
  replacing_switch tree old (suc (suc (suc (suc n)))) = (refl, refl, refl)

  switch-IsUndone :
      (e : Exn) (before : Option Tree) (existing : Bool) (fault : Option ℕ)
      → IsUndone
          (started before running fault)
          (switch existing (raise e) (started before running fault))
  unfolding after_call call make_staging drop_staging clean_up switch finally lift ◌>>=◌ ◌>>◌ pure
  switch-IsUndone e before existing none = (refl, refl, inr refl)
  switch-IsUndone e before existing (some zero) = (refl, refl, inr refl)
  switch-IsUndone e before existing (some (suc zero)) = (refl, refl, inl refl)
  switch-IsUndone e before existing (some (suc (suc n))) = (refl, refl, inr refl)

  switch-IsPlaced :
      (before : Option Tree) (fault : Option ℕ) (staged : Result Tree)
      → IsPlaced
          (started before running fault)
          staged
          (switch (is_there before) staged (started before running fault))
  unfolding after_call call write_staging move_away move_back put_in_place back_up roll_back swap
      make_staging drop_staging clean_up switch rescue finally lift ◌>>=◌ ◌>>◌ pure
  switch-IsPlaced before fault (raise e) = switch-IsUndone e before (is_there before) fault
  switch-IsPlaced none none (ok tree) = (refl, refl, refl)
  switch-IsPlaced (some old) none (ok tree) = (refl, refl, refl)
  switch-IsPlaced none (some n) (ok tree) = fresh_switch tree n
  switch-IsPlaced (some old) (some n) (ok tree) = replacing_switch tree old n

-- A deployment that is refused has changed nothing.
abbrev pub IsPrepared :
    World → Result Plan → (Plan → Result Tree) → Outcome World (Unit {0}) → Type 0
IsPrepared w (raise e) stage o = o ≡ failed e w
IsPrepared w (ok p) stage o = IsPlaced w (stage p) o

switched :
    (root : Option Tree) (running : Bool) (fault : Option ℕ) (r : Result Plan)
    (staged : Plan → Result Tree)
    → IsPrepared
        (started root running fault)
        r
        staged
        (then_run (lift r (started root running fault)) (λ p. switch (is_there root) (staged p)))
unfolding lift
switched root running fault (raise e) staged = refl
switched root running fault (ok p) staged = switch-IsPlaced running root fault (staged p)

module _ (loads : String → Result Value) (dumps : Value → String) (sha256 : String → String) where
  -- Whichever one call fails: a deployment that is refused before it is staged changes nothing; one
  -- whose documents cannot be rendered raises with the location as before and no backup; else the
  -- run returns with the generation in place and the one before as the backup, or raises with the
  -- location as before and no backup. No staging directory is left, unless its removal behind a
  -- failed rendering is the call that fails.
  pub prepare-IsPrepared :
      (render : Loaded → Value → Value → Result Tree) (inputs : Inputs) (root : Option Tree)
      (running : Bool) (fault : Option ℕ)
      → IsPrepared
          (started root running fault)
          (plan_of loads dumps sha256 inputs running root)
          (stage loads dumps sha256 render inputs)
          (prepare loads dumps sha256 render inputs (started root running fault))
  unfolding prepare
  prepare-IsPrepared render inputs root running fault =
      switched root running fault (plan_of loads dumps sha256 inputs running root)
        (stage loads dumps sha256 render inputs)

  switched_tree :
      (w : World) (r : Result Tree) (o : Outcome World (Unit {0})) {v : World}
      → IsPlaced w r o
      → o ≡ done tt v
      → (tree : Tree) × (r ≡ ok tree) × IsReplaced w.root (some tree) (done tt v)
  switched_tree w (raise e) o s h = absurd (subst (IsUndone w) h s)
  switched_tree w (ok tree) o s h = (tree, refl, subst (IsReplaced w.root (some tree)) h s)

  found_tree :
      (w : World) (r : Result Plan) (staged : Plan → Result Tree) (o : Outcome World (Unit {0}))
      {v : World}
      → IsPrepared w r staged o
      → o ≡ done tt v
      → (p : Plan) × (tree : Tree) × (r ≡ ok p)
        × (staged p ≡ ok tree)
        × IsReplaced w.root (some tree) (done tt v)
  found_tree w (raise e) staged o s h = cc
  found_tree w (ok p) staged o s h =
      let (tree, made, replaced) = switched_tree w (staged p) o s h in
      (p, tree, refl, made, replaced)

  -- A replacement that returns has put a generation in place, with the one before as the backup.
  -- The one before had the files of its manifest, the deployment id, the chain and the genesis of
  -- the new configuration; it did not run, no credentials file was given, and its credentials, two
  -- secrets, are those of the new generation, which has the files that `prepare` writes with their
  -- manifest.
  pub prepare-IsKept :
      (render : Loaded → Value → Value → Result Tree) (inputs : Inputs) (old : Tree)
      (running : Bool) (fault : Option ℕ) (w : World)
      → prepare loads dumps sha256 render inputs (started (some old) running fault) ≡ done tt w
      → (tree : Tree) × (w.root ≡ some tree)
        × (w.backup ≡ some old)
        × IsKept loads dumps sha256 inputs running old tree
  prepare-IsKept render inputs old running fault w h =
      let planned = plan_of loads dumps sha256 inputs running (some old) in
      let (p, tree, planning, made, (at, behind, clean)) =
        found_tree (started (some old) running fault) planned
          (stage loads dumps sha256 render inputs) _
          (prepare-IsPrepared render inputs (some old) running fault) h in
      (
        tree,
        at,
        behind,
        stage-IsKept loads dumps sha256 render inputs running old tree planning made,
      )
