-- ===== src/Deploy.antt =====
-- explorer/usdb_public.py: the files of a kit and of a deployment, by the hashes in their manifests.
-- A tree is what stands below a directory, by the relative paths that `rglob` gives. `json.loads`
-- with its check of keys, and SHA-256, are parameters. A manifest names files as `file_hashes` writes
-- them: a name that spells such a path another way, with `..` or `//`, counts as missing.
use usdb_explorer.Prelude.{
  String, Bool, true, false, if◌then◌else◌, not, ◌&&◌, ◌||◌, ◌=s◌, List, [], ◌∷◌, Option, none,
  some, all, any,
}
use usdb_explorer.Python.Value.{Value, Fields, field, end, obj, arr, str, has, elements, equal}
use usdb_explorer.Python.Exn.{
  Result, ok, raise, value_error, type_error, ◌>>=◌, ◌>>◌, require, refuse, get, get_or, subscript,
}
use usdb_explorer.Publish.{is_text}
use usdb_explorer.Config.Images.{is_unhashable}
use usdb_explorer.Install.{Node, file, dir, link}
use usdb_explorer.Install.Verify.{find_node, content_of}
pub mod Json
pub mod Prepare
pub mod Replace
pub mod Replaced
pub mod Up
pub mod Started
pub mod Kept
pub mod Verifies
mod Tests
mod UpTests

abbrev pub Tree : Type 0
Tree = List (String × Node)

abbrev pub required_names : List String
required_names =
    "compose.json" ∷ "config.json" ∷ "identity.json" ∷ "credentials.json" ∷ "network.json"
    ∷ "images.lock.json" ∷ []

abbrev pub deployment_schema : Value
deployment_schema = str "usdb-public-deployment:v1"

-- `required.issubset(files)`, which takes what it can iterate over.
unfoldable pub has_required : Value → Result Bool
has_required (obj files) = ok (all (λ name. has name files) required_names)
has_required (arr items) =
    if any is_unhashable (elements items)
    then raise type_error
    else ok (all (λ name. any (is_text name) (elements items)) required_names)
has_required (str s) = ok false
has_required _ = raise type_error

module _ (loads : String → Result Value) (sha256 : String → String) where
  -- A regular file with that hash.
  unfoldable pub check_hash : Option Node → Value → Result (Unit {0})
  check_hash (some (file content)) (str expected) =
      require (sha256 content =s expected) "deployment file changed or missing"
  check_hash _ _ = raise (value_error "deployment file changed or missing")

  unfoldable pub check_hashes : Tree → Fields → Result (Unit {0})
  check_hashes tree end = ok tt
  check_hashes tree (field name expected rest) = do
    check_hash (find_node name tree) expected
    check_hashes tree rest

  unfoldable pub verify_files : Tree → Value → Result (Unit {0})
  verify_files tree (obj end) = raise (value_error "missing deployment file hashes")
  verify_files tree (obj (field name expected rest)) = check_hashes tree (field name expected rest)
  verify_files tree _ = raise (value_error "missing deployment file hashes")

  -- `read_json(root / name)`
  unfoldable pub read_json : Tree → String → Result Value
  read_json tree name = do loads (← content_of (find_node name tree))

  -- The version of a packaged kit; a checkout has no manifest and the source of the gateway.
  unfoldable pub verify_kit : Tree → Bool → Result Value
  verify_kit kit has_gateway = elim (find_node "release.json" kit) [
    | none ↦
        if has_gateway
        then ok (str "development")
        else raise (value_error "release manifest missing outside a development checkout")
    | some manifest ↦ do
      value ← read_json kit "release.json"
      schema ← get value "schema_version"
      require (equal schema (str "usdb-public-release:v1")) "unsupported public release manifest"
      verify_files kit (← subscript value "files")
      subscript value "version"
  ]

  -- The manifest of the deployment that stands at `location`.
  unfoldable pub verify : String → Tree → Result Value
  verify location root = do
    value ← read_json root "deployment.json"
    schema ← get value "schema_version"
    require (equal schema deployment_schema)
        "deployment identity or location changed; prepare the new location explicitly"
    state_dir ← get value "state_dir"
    require (equal state_dir (str location))
        "deployment identity or location changed; prepare the new location explicitly"
    complete ← has_required (← get_or value "files" (obj end))
    require complete "deployment manifest is missing required files"
    verify_files root (← subscript value "files")
    ok value
