-- ===== src/Install/Verify.antt =====
-- `verify_release` of explorer/install_release.py, on the tree of a release. `json.loads` and
-- SHA-256 are parameters.
use usdb_explorer.Prelude.{
  ℕ, zero, suc, String, Bool, true, false, if◌then◌else◌, not, ◌&&◌, ◌||◌, ◌=s◌, List, [], ◌∷◌,
  Option, none, some, all, any, contains,
}
use usdb_explorer.Python.Value.{Value, Fields, field, end, obj, str, has, keys, equal}
use usdb_explorer.Python.Exn.{
  Result, ok, raise, value_error, os_error, ◌>>=◌, ◌>>◌, require, refuse, get,
}
use usdb_explorer.Python.Text.{starts_with}
use usdb_explorer.Python.Regex.{full_match}
use usdb_explorer.Install.{Node, file, dir, link, is_link, sha256_re}

-- The root, what `root.rglob("*")` finds by its relative path, and what may be executed.
pub record Directory : Type 0 where
  pub root_is_link : Bool
  pub entries : List (String × Node)
  pub can_execute : String → Bool

unfoldable pub find_node : String → List (String × Node) → Option Node
find_node name [] = none
find_node name ((other, node) ∷ more) = if other =s name then some node else find_node name more

abbrev pub manifest_name : String
manifest_name = "release.json"

abbrev pub links_to : Option Node → Bool
links_to (some (link target)) = true
links_to _ = false

-- `path.read_bytes()`
abbrev pub content_of : Option Node → Result String
content_of (some (file content)) = ok content
content_of _ = raise (os_error "no regular file")

abbrev pub same_manifest : Option String → String → Bool
same_manifest none bytes = true
same_manifest (some expected) bytes = expected =s bytes

abbrev drop_text : ℕ → String → String
drop_text zero s = s
drop_text (suc n) String.[] = ""
drop_text (suc n) (String.◌∷◌ c s) = drop_text n s

-- `re.sub(r"^usdb-(?:public|explorer)-v", "", release_id)`
unfoldable pub version_of : String → String
version_of release_id =
    if starts_with release_id "usdb-public-v"
    then drop_text 13 release_id
    else if starts_with release_id "usdb-explorer-v"
    then drop_text 15 release_id
    else release_id

abbrev pub required_files : List String
required_files =
    "usdb-public" ∷ "usdb_public.py" ∷ "config.example.json" ∷ "assets/images.lock.json" ∷ []

abbrev pub invalid_manifest : String
invalid_manifest = "release manifest identity or required files are invalid"

abbrev pub dict_of : Value → Result Fields
dict_of (obj files) = ok files
dict_of _ = raise (value_error invalid_manifest)

-- `{str(p.relative_to(root)) for p in root.rglob("*") if p.is_file()}`
abbrev pub file_names : List (String × Node) → List String
file_names [] = []
file_names ((name, file content) ∷ more) = name ∷ file_names more
file_names ((name, dir) ∷ more) = file_names more
file_names ((name, link target) ∷ more) = file_names more

-- `actual == set(files) | {"release.json"}`
unfoldable pub same_names : List String → List String → Bool
same_names actual named =
    all (contains (manifest_name ∷ named)) actual && all (contains actual) (manifest_name ∷ named)

module _ (loads : String → Result Value) (sha256 : String → String) where
  unfoldable pub check_content : Value → Option Node → Result (Unit {0})
  check_content (str expected) found = do
    require (full_match sha256_re expected) "installed release file changed"
    content ← content_of found
    require (sha256 content =s expected) "installed release file changed"
  check_content _ found = raise (value_error "installed release file changed")

  unfoldable pub check_files : Directory → Fields → Result (Unit {0})
  check_files d end = ok tt
  check_files d (field name expected rest) = do
    check_content expected (find_node name d.entries)
    check_files d rest

  -- The manifest of the release: its text, and the files that it names.
  unfoldable pub read_manifest : Directory → String → Option String → Result (String × Fields)
  read_manifest d release_id expected = do
    refuse (d.root_is_link || links_to (find_node manifest_name d.entries))
        "installed release cannot be a symlink"
    bytes ← content_of (find_node manifest_name d.entries)
    require (same_manifest expected bytes)
        "existing release differs from this installer; refusing to replace it"
    manifest ← loads bytes
    schema ← get manifest "schema_version"
    require (equal schema (str "usdb-public-release:v1")) invalid_manifest
    version ← get manifest "version"
    require (equal version (str (version_of release_id))) invalid_manifest
    files ← dict_of (← get manifest "files")
    require (all (λ name. has name files) required_files) invalid_manifest
    ok (bytes, files)

  unfoldable pub verify_release : Directory → String → Option String → Result String
  verify_release d release_id expected = do
    (bytes, files) ← read_manifest d release_id expected
    refuse
        (starts_with release_id "usdb-explorer-"
          && not (has "usdb-explorer" files && d.can_execute "usdb-explorer"))
        "explorer release is missing its executable command entrypoint"
    refuse (any (λ e. is_link e.1) d.entries || not (d.can_execute "usdb-public"))
        "installed release contains symlinks or a non-executable entrypoint"
    require (same_names (file_names d.entries) (keys files))
        "release file set differs from its manifest"
    check_files d files
    ok bytes
