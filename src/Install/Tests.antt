-- ===== src/Install/Tests.antt =====
-- An installation of a release of six files, and the theorems of `Install` at it.
use usdb_explorer.Prelude.{
  ℕ, String, ◌<>◌, ◌≡◌, refl, Bool, true, false, List, [], ◌∷◌, none, some, Option,
}
use usdb_explorer.Prelude.Int.{pos}
use usdb_explorer.Python.Value.{Value, Fields, field, end, obj, str}
use usdb_explorer.Python.Exn.{Result, ok, raise, value_error, os_error}
use usdb_explorer.Rpc.Calls.{Io, Outcome, done, failed}
use usdb_explorer.Rpc.Guard.{Keeps, world}
use usdb_explorer.Install.{Node, file}
use usdb_explorer.Install.Archive.{Member, regular, Extracted, Progress, extract_release}
use usdb_explorer.Install.Bounded.{IsBounded, extract_release-IsBounded}
use usdb_explorer.Install.Verify.{Directory, verify_release}
use usdb_explorer.Install.Verified.{IsVerified, verify_release-IsVerified}
use usdb_explorer.Install.Links.{Disk, Place}
use usdb_explorer.Install.Activate.{Plan, activate}
use usdb_explorer.Install.Atomic.{Visible, visible, started, wanted, activate_completes}
use usdb_explorer.Install.Run.{Request, Machine, install, directory_of, plan_for}
use usdb_explorer.Install.Kept.{install-KeepsRelease, install-KeepsConfig}
use usdb_explorer.Install.Switched.{IsSwitched, install-IsSwitched}

abbrev zeros : String
zeros = "0000000000000000000000000000000000000000000000000000000000000000"

abbrev digest : String → String
digest content = zeros

abbrev files : Fields
files = field "usdb-public" (str zeros) (
    field "usdb-explorer" (str zeros) (
      field "usdb_public.py" (str zeros) (
        field "config.example.json" (str zeros) (field "assets/images.lock.json" (str zeros) end))))

abbrev parse : String → Result Value
parse text = ok (
    obj (
      field "schema_version" (str "usdb-public-release:v1")
        (field "version" (str "1.0.0") (field "files" (obj files) end))))

abbrev member : String → Member
member name = record {
  name = "usdb-explorer-v1.0.0/" <> name;
  size = pos 3;
  kind = regular;
  content = "abc";
}

abbrev members : List Member
members =
    member "usdb-public"
    ∷ member "usdb-explorer"
    ∷ member "usdb_public.py"
    ∷ member "config.example.json"
    ∷ member "assets/images.lock.json"
    ∷ member "release.json"
    ∷ []

abbrev written : List String → Bool → Extracted
written path executable = record {
  path = "usdb-explorer-v1.0.0" ∷ path;
  node = file "abc";
  executable = executable;
}

abbrev extracted : Progress
extracted = record {
  seen =
      "usdb-explorer-v1.0.0/release.json" ∷ "usdb-explorer-v1.0.0/assets/images.lock.json"
      ∷ "usdb-explorer-v1.0.0/config.example.json" ∷ "usdb-explorer-v1.0.0/usdb_public.py"
      ∷ "usdb-explorer-v1.0.0/usdb-explorer" ∷ "usdb-explorer-v1.0.0/usdb-public" ∷ [];
  total = 18;
  tree =
      written ("usdb-public" ∷ []) true
      ∷ written ("usdb-explorer" ∷ []) true
      ∷ written ("usdb_public.py" ∷ []) false
      ∷ written ("config.example.json" ∷ []) false
      ∷ written ("assets" ∷ "images.lock.json" ∷ []) false
      ∷ written ("release.json" ∷ []) false
      ∷ [];
}

extract_release-IsBounded_example : IsBounded "usdb-explorer-v1.0.0" members extracted
unfolding usdb_explorer.Install.parts usdb_explorer.Install.Archive.is_within
    usdb_explorer.Install.Archive.is_unsafe usdb_explorer.Install.Archive.add_size
    usdb_explorer.Install.Archive.write_member usdb_explorer.Install.Archive.extract_member
    usdb_explorer.Install.Archive.extract_members usdb_explorer.Install.Archive.extract_release
    usdb_explorer.Python.Text.split
extract_release-IsBounded_example =
    extract_release-IsBounded "usdb-explorer-v1.0.0" members {result = extracted} refl

outside :
    extract_release "usdb-explorer-v1.0.0" (member "../../etc/passwd" ∷ [])
    ≡ raise (value_error "release archive contains unsafe or duplicate entries")
unfolding usdb_explorer.Install.parts usdb_explorer.Install.Archive.is_unsafe
    usdb_explorer.Install.Archive.extract_member usdb_explorer.Install.Archive.extract_members
    usdb_explorer.Install.Archive.extract_release usdb_explorer.Python.Text.split
outside = refl

abbrev tree : Directory
tree = record {
  root_is_link = false;
  entries =
      ("usdb-public", file "abc")
      ∷ ("usdb-explorer", file "abc")
      ∷ ("usdb_public.py", file "abc")
      ∷ ("config.example.json", file "abc")
      ∷ ("assets/images.lock.json", file "abc")
      ∷ ("release.json", file "abc")
      ∷ [];
  can_execute = λ name. true;
}

verify_release-IsVerified_example : IsVerified parse digest tree "abc"
unfolding usdb_explorer.Install.Verify.find_node usdb_explorer.Install.Verify.version_of
    usdb_explorer.Install.Verify.same_names usdb_explorer.Install.Verify.check_content
    usdb_explorer.Install.Verify.check_files usdb_explorer.Install.Verify.read_manifest
    usdb_explorer.Install.Verify.verify_release usdb_explorer.Python.Exn.get
    usdb_explorer.Python.Value.lookup usdb_explorer.Python.Value.keys
    usdb_explorer.Python.Value.within usdb_explorer.Python.Regex.full_match
verify_release-IsVerified_example =
    verify_release-IsVerified parse digest tree "usdb-explorer-v1.0.0" none {bytes = "abc"} refl

other_manifest :
    verify_release parse digest tree "usdb-explorer-v1.0.0" (some "abd")
    ≡ raise (value_error "existing release differs from this installer; refusing to replace it")
unfolding usdb_explorer.Install.Verify.find_node usdb_explorer.Install.Verify.read_manifest
    usdb_explorer.Install.Verify.verify_release
other_manifest = refl

abbrev plan : Plan
plan = record {
  target = "releases/b";
  launcher = "/i/current/usdb-public";
  explorer = "/i/current/usdb-explorer";
  add_explorer = true;
  had_launcher = true;
}

activate_completes_example :
    (d : Disk) × (activate plan (started plan (some "releases/a") none none) ≡ done tt d)
    × (visible d ≡ wanted plan none)
    × (d.temporaries ≡ [])
activate_completes_example = activate_completes plan (some "releases/a") none

abbrev request : Request
request = record {
  release_id = "usdb-explorer-v1.0.0";
  expected_sha256 = zeros;
  archive_sha256 = zeros;
  members = members;
  install_root = "i" ∷ [];
  bin_dir = "b" ∷ [];
  config_file = "c" ∷ [];
  config_resolved = "c" ∷ [];
}

abbrev machine : Option ℕ → Machine
machine fault = record {
  links = record {
    current = some "releases/usdb-public-v0.9.0";
    launcher = some "/i/current/usdb-public";
    explorer = none;
    temporaries = [];
    tokens = 0;
    fault = fault;
  };
  occupied = λ place. false;
  releases_is_link = false;
  releases = ("usdb-public-v0.9.0", tree) ∷ [];
  config = some "mine";
  config_occupied = false;
  locked = false;
}

install-KeepsRelease_example :
    Keeps
      (λ (m : Machine).
        usdb_explorer.Install.Run.find_release "usdb-public-v0.9.0" m.releases ≡ some tree)
      (install parse digest request)
install-KeepsRelease_example = install-KeepsRelease parse digest request "usdb-public-v0.9.0" tree

install-KeepsConfig_example :
    Keeps (λ (m : Machine). m.config ≡ some "mine") (install parse digest request)
install-KeepsConfig_example = install-KeepsConfig parse digest request "mine"

install-IsSwitched_example :
    IsSwitched
      (visible (machine (some 4)).links)
      (wanted (plan_for request (machine (some 4))) none)
      (install parse digest request (machine (some 4)))
install-IsSwitched_example = install-IsSwitched parse digest request (machine (some 4)) refl refl

abbrev links_of : Outcome Machine (Unit {0}) → Visible
links_of o = visible (world {W = Machine} o).links

rolled_back :
    links_of (install parse digest request (machine (some 4)))
    ≡ (some "releases/usdb-public-v0.9.0", some "/i/current/usdb-public", none)
unfolding usdb_explorer.Install.parts usdb_explorer.Install.Archive.is_within
    usdb_explorer.Install.Archive.is_unsafe usdb_explorer.Install.Archive.add_size
    usdb_explorer.Install.Archive.write_member usdb_explorer.Install.Archive.extract_member
    usdb_explorer.Install.Archive.extract_members usdb_explorer.Install.Archive.extract_release
    usdb_explorer.Install.Verify.find_node usdb_explorer.Install.Verify.version_of
    usdb_explorer.Install.Verify.same_names usdb_explorer.Install.Verify.check_content
    usdb_explorer.Install.Verify.check_files usdb_explorer.Install.Verify.read_manifest
    usdb_explorer.Install.Verify.verify_release usdb_explorer.Install.Links.call
    usdb_explorer.Install.Links.find_temporary usdb_explorer.Install.Links.put
    usdb_explorer.Install.Links.temporary_link usdb_explorer.Install.Links.move
    usdb_explorer.Install.Links.replace usdb_explorer.Install.Links.remove
    usdb_explorer.Install.Links.rescue usdb_explorer.Install.Links.finally
    usdb_explorer.Install.Activate.explorer_link usdb_explorer.Install.Activate.remove_any
    usdb_explorer.Install.Activate.restore usdb_explorer.Install.Activate.remove_new
    usdb_explorer.Install.Activate.roll_back usdb_explorer.Install.Activate.switch_commands
    usdb_explorer.Install.Activate.switch usdb_explorer.Install.Activate.clean_up
    usdb_explorer.Install.Activate.with_explorer usdb_explorer.Install.Activate.with_launcher
    usdb_explorer.Install.Activate.activate usdb_explorer.Install.Run.is_refused_path
    usdb_explorer.Install.Run.check_request usdb_explorer.Install.Run.shown
    usdb_explorer.Install.Run.plan_for usdb_explorer.Install.Run.check_commands
    usdb_explorer.Install.Run.check_places usdb_explorer.Install.Run.joined
    usdb_explorer.Install.Run.entries_of usdb_explorer.Install.Run.directory_of
    usdb_explorer.Install.Run.find_release usdb_explorer.Install.Run.place_release
    usdb_explorer.Install.Run.store_release usdb_explorer.Install.Run.write_config
    usdb_explorer.Install.Run.with_links usdb_explorer.Install.Run.prepare_release
    usdb_explorer.Install.Run.install usdb_explorer.Rpc.Calls.◌>>=◌ usdb_explorer.Rpc.Calls.◌>>◌
    usdb_explorer.Rpc.Calls.pure usdb_explorer.Rpc.Calls.lift usdb_explorer.Rpc.Calls.check
    usdb_explorer.Python.Exn.get usdb_explorer.Python.Value.lookup usdb_explorer.Python.Value.keys
    usdb_explorer.Python.Value.within usdb_explorer.Python.Text.split
    usdb_explorer.Python.Regex.full_match
rolled_back = refl

switched : links_of (install parse digest request (machine none)) ≡ (
  some "releases/usdb-explorer-v1.0.0",
  some "/i/current/usdb-public",
  some "/i/current/usdb-explorer",
)
unfolding usdb_explorer.Install.parts usdb_explorer.Install.Archive.is_within
    usdb_explorer.Install.Archive.is_unsafe usdb_explorer.Install.Archive.add_size
    usdb_explorer.Install.Archive.write_member usdb_explorer.Install.Archive.extract_member
    usdb_explorer.Install.Archive.extract_members usdb_explorer.Install.Archive.extract_release
    usdb_explorer.Install.Verify.find_node usdb_explorer.Install.Verify.version_of
    usdb_explorer.Install.Verify.same_names usdb_explorer.Install.Verify.check_content
    usdb_explorer.Install.Verify.check_files usdb_explorer.Install.Verify.read_manifest
    usdb_explorer.Install.Verify.verify_release usdb_explorer.Install.Links.call
    usdb_explorer.Install.Links.find_temporary usdb_explorer.Install.Links.drop_temporary
    usdb_explorer.Install.Links.put usdb_explorer.Install.Links.temporary_link
    usdb_explorer.Install.Links.move usdb_explorer.Install.Links.replace
    usdb_explorer.Install.Links.remove usdb_explorer.Install.Links.rescue
    usdb_explorer.Install.Links.finally usdb_explorer.Install.Activate.explorer_link
    usdb_explorer.Install.Activate.replace_any usdb_explorer.Install.Activate.remove_any
    usdb_explorer.Install.Activate.switch_commands usdb_explorer.Install.Activate.switch
    usdb_explorer.Install.Activate.clean_up usdb_explorer.Install.Activate.with_explorer
    usdb_explorer.Install.Activate.with_launcher usdb_explorer.Install.Activate.activate
    usdb_explorer.Install.Run.is_refused_path usdb_explorer.Install.Run.check_request
    usdb_explorer.Install.Run.shown usdb_explorer.Install.Run.plan_for
    usdb_explorer.Install.Run.check_commands usdb_explorer.Install.Run.check_places
    usdb_explorer.Install.Run.joined usdb_explorer.Install.Run.entries_of
    usdb_explorer.Install.Run.directory_of usdb_explorer.Install.Run.find_release
    usdb_explorer.Install.Run.place_release usdb_explorer.Install.Run.store_release
    usdb_explorer.Install.Run.write_config usdb_explorer.Install.Run.with_links
    usdb_explorer.Install.Run.prepare_release usdb_explorer.Install.Run.install
    usdb_explorer.Rpc.Calls.◌>>=◌ usdb_explorer.Rpc.Calls.◌>>◌ usdb_explorer.Rpc.Calls.pure
    usdb_explorer.Rpc.Calls.lift usdb_explorer.Rpc.Calls.check usdb_explorer.Python.Exn.get
    usdb_explorer.Python.Value.lookup usdb_explorer.Python.Value.keys
    usdb_explorer.Python.Value.within usdb_explorer.Python.Text.split
    usdb_explorer.Python.Regex.full_match
switched = refl
