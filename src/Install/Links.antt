-- ===== src/Install/Links.antt =====
-- The links that explorer/install_release.py switches, and the system calls that change them. The
-- places hold a link or nothing, which `install` has checked. A call that fails changes nothing. The tokens of the temporary links are counted, since two of 64
-- random bits each are taken to differ.
use usdb_explorer.Prelude.{
  ℕ, zero, suc, ◌+◌, String, if◌then◌else◌, ◌==◌, List, [], ◌∷◌, Option, none, some,
}
use usdb_explorer.Python.Exn.{os_error}
use usdb_explorer.Rpc.Calls.{Io, Outcome, done, failed, then_run, ◌>>◌}

pub data Place : Type 0 where
  current launcher explorer : Place

-- The places by what they hold, the temporary links, and how many more calls succeed before one
-- fails: `none` if every one does.
pub record Disk : Type 0 where
  pub current : Option String
  pub launcher : Option String
  pub explorer : Option String
  pub temporaries : List (ℕ × String)
  pub tokens : ℕ
  pub fault : Option ℕ

unfoldable pub after_call : Option ℕ → Disk → Outcome Disk (Unit {0})
after_call none d = done tt d
after_call (some zero) d = failed (os_error "call") (record d { fault = none })
after_call (some (suc n)) d = done tt (record d { fault = some n })

unfoldable pub call : Io Disk (Unit {0})
unfolding after_call
call d = after_call d.fault d

unfoldable pub find_temporary : ℕ → List (ℕ × String) → Option String
find_temporary token [] = none
find_temporary token ((other, target) ∷ more) =
    if other == token then some target else find_temporary token more

unfoldable pub drop_temporary : ℕ → List (ℕ × String) → List (ℕ × String)
drop_temporary token [] = []
drop_temporary token ((other, target) ∷ more) =
    let rest = drop_temporary token more in if other == token then rest else (other, target) ∷ rest

unfoldable pub at : Place → Disk → Option String
at Place.current d = d.current
at Place.launcher d = d.launcher
at Place.explorer d = d.explorer

unfoldable pub put : Place → Option String → Disk → Disk
put Place.current n d = record d { current = n }
put Place.launcher n d = record d { launcher = n }
put Place.explorer n d = record d { explorer = n }

-- `temporary_link(target, path)`
unfoldable pub temporary_link : String → Io Disk ℕ
temporary_link target = call >> λ d.
    done d.tokens
      (record d { temporaries = (d.tokens, target) ∷ d.temporaries; tokens = d.tokens + 1 })

unfoldable pub move : ℕ → Place → Option String → Io Disk (Unit {0})
move token place none d = failed (os_error "no such link") d
move token place (some target) d =
    done tt
      (put place (some target) (record d { temporaries = drop_temporary token d.temporaries }))

-- `os.replace(temporary, place)`
unfoldable pub replace : ℕ → Place → Io Disk (Unit {0})
replace token place = call >> λ d. move token place (find_temporary token d.temporaries) d

-- `temporary.unlink(missing_ok=True)`
unfoldable pub remove : ℕ → Io Disk (Unit {0})
remove token = call >> λ d. done tt (record d { temporaries = drop_temporary token d.temporaries })

unfoldable pub unlink_found : Place → Option String → Io Disk (Unit {0})
unlink_found place none d = failed (os_error "no such file") d
unlink_found place (some n) d = done tt (put place none d)

-- `place.unlink()`
unfoldable pub unlink : Place → Io Disk (Unit {0})
unlink place = call >> λ d. unlink_found place (at place d) d

-- `place.unlink(missing_ok=True)`
unfoldable pub unlink_any : Place → Io Disk (Unit {0})
unlink_any place = call >> λ d. done tt (put place none d)

-- `except OSError: handler; raise`
unfoldable pub rescue : {W : Type 0} → Outcome W (Unit {0}) → Io W (Unit {0}) → Outcome W (Unit {0})
rescue (done a d) handler = done a d
rescue (failed (os_error m) d) handler = then_run (handler d) (λ _. failed (os_error m))
rescue (failed e d) handler = failed e d

-- `finally: cleanup`, whose exception replaces the one before it.
unfoldable pub finally :
    {W : Type 0} → Outcome W (Unit {0}) → Io W (Unit {0}) → Outcome W (Unit {0})
finally (done a d) cleanup = then_run (cleanup d) (λ _. done a)
finally (failed e d) cleanup = then_run (cleanup d) (λ _. failed e)
