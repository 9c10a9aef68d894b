-- ===== src/Install/Run.antt =====
-- `install` of explorer/install_release.py on a machine: what it refuses, the store of the releases,
-- the configuration of the operator, and the switch of the links. Its lock is held or free, and of
-- its system calls those that change links may fail.
use usdb_explorer.Prelude.{
  String, ◌<>◌, Bool, true, false, if◌then◌else◌, not, ◌&&◌, ◌||◌, ◌=s◌, List, [], ◌∷◌, ◌++◌,
  Option, none, some, any,
}
use usdb_explorer.Python.Value.{Value}
use usdb_explorer.Python.Exn.{Result}
use usdb_explorer.Python.Text.{starts_with, has_code}
use usdb_explorer.Python.Regex.{then_, text, full_match}
use usdb_explorer.Rpc.Calls.{Io, Outcome, done, failed, then_run, ◌>>=◌, ◌>>◌, lift, check}
use usdb_explorer.Install.{Node, release_re, sha256_re}
use usdb_explorer.Install.Archive.{Member, Extracted, is_within, extract_release}
use usdb_explorer.Install.Verify.{Directory, find_node, content_of, verify_release}
use usdb_explorer.Install.Links.{Disk, Place}
use usdb_explorer.Install.Activate.{Plan, activate}

-- The arguments, with resolved paths by their parts, and the archive as SHA-256 and `tarfile` see
-- it.
pub record Request : Type 0 where
  pub release_id : String
  pub expected_sha256 : String
  pub archive_sha256 : String
  pub members : List Member
  pub install_root : List String
  pub bin_dir : List String
  pub config_file : List String
  pub config_resolved : List String

-- The links, and where something else stands in their place; the releases by their names, which a
-- symbolic link may stand for; the text of the configuration, and whether something else stands
-- there; and whether another installation runs.
pub record Machine : Type 0 where
  pub links : Disk
  pub occupied : Place → Bool
  pub releases_is_link : Bool
  pub releases : List (String × Directory)
  pub config : Option String
  pub config_occupied : Bool
  pub locked : Bool

abbrev same_path : List String → List String → Bool
same_path a b = is_within a b && is_within b a

abbrev has_newline : List String → Bool
has_newline path = any (λ part. has_code 10 part || has_code 13 part) path

-- The checks that need no file system.
unfoldable pub is_refused_path : Request → Bool
is_refused_path r =
    is_within r.install_root r.config_resolved
    || same_path r.config_file (r.bin_dir ++ ("usdb-public" ∷ []))
    || same_path r.config_file (r.bin_dir ++ ("usdb-explorer" ∷ []))

unfoldable pub check_request : Request → Io Machine (Unit {0})
check_request r = do
  check (full_match release_re r.release_id && full_match sha256_re r.expected_sha256)
      "invalid pinned installer identity"
  check (r.archive_sha256 =s r.expected_sha256) "release archive SHA-256 mismatch"
  check (not (has_newline r.install_root || has_newline r.bin_dir || has_newline r.config_file))
      "installation paths cannot contain newlines"
  check (not (is_refused_path r))
      "operator configuration must be outside release storage and the command entrypoint"
  check (not (is_within (r.install_root ++ ("releases" ∷ [])) r.bin_dir))
      "command directory must be outside immutable release storage"

-- `str(path)` of an absolute path
unfoldable pub shown : List String → String
shown [] = ""
shown (part ∷ path) = "/" <> part <> shown path

abbrev pub adds_explorer : Request → Bool
adds_explorer r = starts_with r.release_id "usdb-explorer-"

abbrev pub is_there : Option String → Bool
is_there none = false
is_there (some target) = true

unfoldable pub plan_for : Request → Machine → Plan
plan_for r m = record {
  target = "releases/" <> r.release_id;
  launcher = shown (r.install_root ++ ("current" ∷ "usdb-public" ∷ []));
  explorer = shown (r.install_root ++ ("current" ∷ "usdb-explorer" ∷ []));
  add_explorer = adds_explorer r;
  had_launcher = is_there m.links.launcher;
}

-- A place has nothing, or the link that is expected there.
abbrev pub is_ours : Option String → String → Bool
is_ours none expected = true
is_ours (some target) expected = target =s expected

abbrev is_managed : Option String → Bool
is_managed none = true
is_managed (some target) = full_match (then_ (text "releases/") release_re) target

unfoldable pub check_commands : Request → Plan → Io Machine (Unit {0})
check_commands r plan m =
    (check
          (not plan.add_explorer
            || (not (m.occupied Place.explorer) && is_ours m.links.explorer plan.explorer))
          "usdb-explorer command already exists outside this installation; select another --bin-dir"
        >> check (not (m.occupied Place.launcher) && is_ours m.links.launcher plan.launcher)
            "usdb-public command already exists outside this installation; select another --bin-dir")
      m

unfoldable pub check_places : Request → Plan → Io Machine (Unit {0})
check_places r plan = check_commands r plan >> λ m.
    (check (not (m.occupied Place.current) && is_managed m.links.current)
          "current path is not a managed public-service release link"
        >> (check (not m.config_occupied) "configuration path exists but is not a regular file"
            >> (check (not m.locked) "another public-service installation is running"
                >> check (not m.releases_is_link) "release storage cannot be a symlink")))
      m

unfoldable pub joined : List String → String
joined [] = ""
joined (part ∷ []) = part
joined (part ∷ path) = part <> "/" <> joined path

-- What lies below the directory of the release, by its relative path.
unfoldable pub entries_of : List Extracted → List (String × Node)
entries_of [] = []
entries_of (e ∷ tree) = elim e.path [
  | [] ↦ entries_of tree
  | root ∷ [] ↦ entries_of tree
  | root ∷ part ∷ path ↦ (joined (part ∷ path), e.node) ∷ entries_of tree
]

abbrev is_at : String → List String → Bool
is_at name [] = false
is_at name (root ∷ path) = joined path =s name

unfoldable pub directory_of : List Extracted → Directory
directory_of tree = record {
  root_is_link = false;
  entries = entries_of tree;
  can_execute = λ name. any (λ e. is_at name e.path && e.executable) tree;
}

unfoldable pub find_release : String → List (String × Directory) → Option Directory
find_release id [] = none
find_release id ((other, d) ∷ more) = if other =s id then some d else find_release id more

module _ (loads : String → Result Value) (sha256 : String → String) where
  -- A release that is there is verified and kept; another one is moved into place.
  unfoldable pub place_release :
      Request → Directory → String → Option Directory → Io Machine Directory
  place_release r incoming manifest (some existing) m =
      then_run (lift (verify_release loads sha256 existing r.release_id (some manifest)) m)
        (λ _. done existing)
  place_release r incoming manifest none m =
      done incoming (record m { releases = m.releases ++ ((r.release_id, incoming) ∷ []) })

  unfoldable pub store_release : Request → Io Machine Directory
  store_release r = do
    extracted ← lift (extract_release r.release_id r.members)
    manifest ← lift (verify_release loads sha256 (directory_of extracted.tree) r.release_id none)
    λ m.
        place_release r (directory_of extracted.tree) manifest
          (find_release r.release_id m.releases) m

  -- The settings of the operator stay; without them the example of the release is copied.
  unfoldable pub write_config : Directory → Option String → Io Machine (Unit {0})
  write_config d (some settings) m = done tt m
  write_config d none m =
      then_run
        (lift (content_of (find_node "config.example.json" d.entries))
          (record m { config = some "" }))
        (λ content v. done tt (record v { config = some content }))

  unfoldable pub with_links : Machine → Outcome Disk (Unit {0}) → Outcome Machine (Unit {0})
  with_links m (done a d) = done a (record m { links = d })
  with_links m (failed e d) = failed e (record m { links = d })

  -- All that comes before the links.
  unfoldable pub prepare_release : Request → Plan → Io Machine (Unit {0})
  prepare_release r plan =
      check_request r
      >> (check_places r plan >> (store_release r >>= λ d m. write_config d m.config m))

  unfoldable pub install : Request → Io Machine (Unit {0})
  install r start =
      (prepare_release r (plan_for r start) >> λ m.
      with_links m (activate (plan_for r start) m.links))
        start
