-- ===== src/Deploy/Replace.antt =====
-- The renames of `prepare` in explorer/usdb_public.py, by which a staged generation takes the place of
-- the deployment, with their roll-back. A call that fails changes nothing.
use usdb_explorer.Prelude.{ℕ, zero, suc, String, Bool, true, false, Option, none, some, []}
use usdb_explorer.Python.Value.{Value}
use usdb_explorer.Python.Exn.{Result, os_error}
use usdb_explorer.Rpc.Calls.{Io, Outcome, done, failed, then_run, lift, ◌>>=◌, ◌>>◌, pure}
use usdb_explorer.Install.Links.{rescue, finally}
use usdb_explorer.Config.Load.{Loaded}
use usdb_explorer.Deploy.{Tree}
use usdb_explorer.Deploy.Prepare.{Inputs, is_there, plan_of, stage}

-- The location, the staging directory and the backup, whether the project runs, and how many more
-- calls succeed before one fails: `none` if every one does.
pub record World : Type 0 where
  pub root : Option Tree
  pub staging : Option Tree
  pub backup : Option Tree
  pub running : Bool
  pub fault : Option ℕ

unfoldable pub after_call : Option ℕ → World → Outcome World (Unit {0})
after_call none w = done tt w
after_call (some zero) w = failed (os_error "call") (record w { fault = none })
after_call (some (suc n)) w = done tt (record w { fault = some n })

unfoldable pub call : Io World (Unit {0})
unfolding after_call
call w = after_call w.fault w

-- `mkdtemp`
unfoldable pub make_staging : Io World (Unit {0})
make_staging = call >> λ w. done tt (record w { staging = some [] })

-- The writes into the directory, with the failing one of them if there is one.
unfoldable pub write_staging : Tree → Io World (Unit {0})
write_staging tree = call >> λ w. done tt (record w { staging = some tree })

-- `root.rename(backup)`
unfoldable pub move_away : Io World (Unit {0})
move_away = call >> λ w. done tt (record w { root = none; backup = w.root })

-- `backup.rename(root)`
unfoldable pub move_back : Io World (Unit {0})
move_back = call >> λ w. done tt (record w { root = w.backup; backup = none })

-- `staging.rename(root)`, with nothing at the location.
unfoldable pub put_in_place : Io World (Unit {0})
put_in_place = call >> λ w. done tt (record w { root = w.staging; staging = none })

unfoldable pub back_up : Bool → Io World (Unit {0})
back_up true = move_away
back_up false = pure tt

-- `if backup: backup.rename(root)`
unfoldable pub roll_back : Bool → Io World (Unit {0})
roll_back true = move_back
roll_back false = pure tt

unfoldable pub swap : Bool → Io World (Unit {0})
swap existing = back_up existing >> λ w. rescue (put_in_place w) (roll_back existing)

unfoldable pub drop_staging : Option Tree → Io World (Unit {0})
drop_staging none = pure tt
drop_staging (some tree) = call >> λ w. done tt (record w { staging = none })

-- `if staging.exists(): shutil.rmtree(staging)`
unfoldable pub clean_up : Io World (Unit {0})
clean_up w = drop_staging w.staging w

-- The staging directory is made, what is rendered is written into it, and it takes the place.
unfoldable pub switch : Bool → Result Tree → Io World (Unit {0})
switch existing staged w =
    finally ((make_staging >> ((lift staged >>= write_staging) >> swap existing)) w) clean_up

module _ (loads : String → Result Value) (dumps : Value → String) (sha256 : String → String) where
  unfoldable pub prepare : (Loaded → Value → Value → Result Tree) → Inputs → Io World (Unit {0})
  prepare render inputs w =
      then_run (lift (plan_of loads dumps sha256 inputs w.running w.root) w)
        (λ p. switch (is_there w.root) (stage loads dumps sha256 render inputs p))
