-- ===== src/Install/Activate.antt =====
-- The last part of `install` in explorer/install_release.py: the switch of the command links to a
-- release, with its roll-back.
use usdb_explorer.Prelude.{ℕ, String, Bool, true, false, Option, none, some}
use usdb_explorer.Rpc.Calls.{Io, Outcome, done, failed, then_run, ◌>>=◌, ◌>>◌, pure}
use usdb_explorer.Install.Links.{
  Disk, Place, temporary_link, replace, remove, unlink, unlink_any, rescue, finally,
}

-- The targets of the links, whether the release has the second command, and whether the first one
-- was there.
pub record Plan : Type 0 where
  pub target : String
  pub launcher : String
  pub explorer : String
  pub add_explorer : Bool
  pub had_launcher : Bool

-- `temporary_link(expected_explorer, explorer_launcher)` if the release has that command
unfoldable pub explorer_link : Plan → Bool → Io Disk (Option ℕ)
explorer_link plan false = pure none
explorer_link plan true = temporary_link plan.explorer >>= λ token. pure (some token)

unfoldable pub replace_any : Option ℕ → Place → Io Disk (Unit {0})
replace_any none place = pure tt
replace_any (some token) place = replace token place

unfoldable pub remove_any : Option ℕ → Io Disk (Unit {0})
remove_any none = pure tt
remove_any (some token) = remove token

unfoldable pub restore : Option String → Io Disk (Unit {0})
restore none = unlink Place.current
restore (some previous) = temporary_link previous >>= λ token. replace token Place.current

unfoldable pub remove_new : Bool → Io Disk (Unit {0})
remove_new true = pure tt
remove_new false = unlink_any Place.launcher

-- The handler of a switch that failed.
unfoldable pub roll_back : Plan → Option String → Io Disk (Unit {0})
roll_back plan previous = remove_new plan.had_launcher >> restore previous

unfoldable pub switch_commands : ℕ → Option ℕ → Io Disk (Unit {0})
switch_commands launcher explorer =
    replace launcher Place.launcher >> replace_any explorer Place.explorer

unfoldable pub switch : Plan → Option String → ℕ → ℕ → Option ℕ → Io Disk (Unit {0})
switch plan previous current launcher explorer = replace current Place.current >> λ d.
    rescue (switch_commands launcher explorer d) (roll_back plan previous)

-- The `finally` of the temporary links that have been made.
unfoldable pub clean_up : ℕ → Option ℕ → Option ℕ → Io Disk (Unit {0})
clean_up current launcher explorer = (remove current >> remove_any launcher) >> remove_any explorer

unfoldable pub with_explorer :
    Plan → Option String → ℕ → ℕ → Outcome Disk (Option ℕ) → Outcome Disk (Unit {0})
with_explorer plan previous current launcher (failed e d) =
    finally (failed e d) (clean_up current (some launcher) none)
with_explorer plan previous current launcher (done explorer d) =
    finally (switch plan previous current launcher explorer d)
      (clean_up current (some launcher) explorer)

unfoldable pub with_launcher : Plan → Option String → ℕ → Outcome Disk ℕ → Outcome Disk (Unit {0})
with_launcher plan previous current (failed e d) = finally (failed e d) (clean_up current none none)
with_launcher plan previous current (done launcher d) =
    with_explorer plan previous current launcher (explorer_link plan plan.add_explorer d)

-- What `current` links to is read first, and put back by a roll-back.
unfoldable pub activate : Plan → Io Disk (Unit {0})
activate plan d =
    then_run (temporary_link plan.target d)
      (λ current v. with_launcher plan d.current current (temporary_link plan.launcher v))
