-- ===== src/Deploy/Prepare.antt =====
-- `prepare` of explorer/usdb_public.py up to its renames: what it refuses, the credentials it takes,
-- and the generation that it writes. What the renderers of the documents write is an argument.
use usdb_explorer.Prelude.{
  String, Bool, true, false, if◌then◌else◌, not, ◌&&◌, List, [], ◌∷◌, ◌++◌, Option, none, some, all,
  any, contains,
}
use usdb_explorer.Prelude.Int.{pos}
use usdb_explorer.Python.Value.{
  Value, Fields, field, end, obj, arr, str, int, has, keys, elements, equal,
}
use usdb_explorer.Python.Exn.{
  Result, ok, raise, value_error, type_error, attribute_error, ◌>>=◌, ◌>>◌, require, refuse,
  subscript,
}
use usdb_explorer.Python.Text.{decimal}
use usdb_explorer.Python.Regex.{Regex, then_, repeat, optional, hex_digit, full_match}
use usdb_explorer.Publish.{is_text, is_one_of}
use usdb_explorer.Config.Images.{is_unhashable}
use usdb_explorer.Config.Ingress.{Host}
use usdb_explorer.Config.Load.{Kit, Loaded, load_config}
use usdb_explorer.Install.{Node, file, dir, link}
use usdb_explorer.Deploy.Json.{sort_keys}
use usdb_explorer.Deploy.{Tree, deployment_schema, verify, verify_kit, read_json}

-- `[0-9a-f]{64,128}`
abbrev pub secret_re : Regex
secret_re = then_ (repeat 64 hex_digit) (repeat 64 (optional hex_digit))

-- The test of `str(v)`, which spells neither a negative number nor any other value that way.
unfoldable pub is_secret : Value → Bool
is_secret (str s) = full_match secret_re s
is_secret (int (pos n)) = full_match secret_re (decimal n)
is_secret _ = false

unfoldable pub all_secret : Fields → Bool
all_secret end = true
all_secret (field name value rest) = is_secret value && all_secret rest

abbrev pub secret_names : List String
secret_names = "database" ∷ "backend" ∷ []

abbrev bad_credentials : String
bad_credentials = "invalid saved database credentials"

-- Two secrets of their names; what is no dict fails where it is iterated or asked for its values.
unfoldable pub check_credentials : Value → Result (Unit {0})
check_credentials (obj d) =
    require
      (all (λ name. has name d) secret_names
        && all (contains secret_names) (keys d)
        && all_secret d)
      bad_credentials
check_credentials (arr items) =
    if any is_unhashable (elements items)
    then raise type_error
    else if all (λ name. any (is_text name) (elements items)) secret_names
        && all (is_one_of secret_names) (elements items)
    then raise attribute_error
    else raise (value_error bad_credentials)
check_credentials (str s) = raise (value_error bad_credentials)
check_credentials _ = raise type_error

-- What a call is given: the configuration, the kit with its tree, and the credentials, from a file
-- or as `secrets` makes them.
pub record Inputs : Type 0 where
  pub host : Host
  pub kit : Kit
  pub kit_tree : Tree
  pub has_gateway : Bool
  pub config : Result Value
  pub replace : Bool
  pub credentials_file : Option (Result Value)
  pub fresh : Value
  pub location : String

abbrev pub is_given : Option (Result Value) → Bool
is_given none = false
is_given (some r) = true

-- `old[key] == new[key]`
unfoldable pub same_entry : Value → Value → String → Result Bool
same_entry old new key = do
  before ← subscript old key
  behind ← subscript new key
  ok (equal before behind)

abbrev other_deployment : String
other_deployment =
    "replacement must preserve deployment and chain identity; use a new deployment for another network"

-- `file_hashes(root)`
unfoldable pub file_hashes : (String → String) → Tree → Fields
file_hashes sha256 [] = end
file_hashes sha256 ((name, file content) ∷ more) =
    field name (str (sha256 content)) (file_hashes sha256 more)
file_hashes sha256 ((name, dir) ∷ more) = file_hashes sha256 more
file_hashes sha256 ((name, link target) ∷ more) = file_hashes sha256 more

abbrev pub new_credentials : Option (Result Value) → Value → Result Value
new_credentials none fresh = ok fresh
new_credentials (some given) fresh = given

-- What a deployment is written from.
pub record Plan : Type 0 where
  pub version : Value
  pub loaded : Loaded
  pub lock : Value
  pub credentials : Value

abbrev pub is_there : Option Tree → Bool
is_there none = false
is_there (some root) = true

module _ (loads : String → Result Value) (dumps : Value → String) (sha256 : String → String) where
  -- The deployment is the same one, on the same chain.
  unfoldable pub check_same : Tree → Loaded → Result (Unit {0})
  check_same root loaded = do
    old_config ← read_json loads sha256 root "config.json"
    old_identity ← read_json loads sha256 root "identity.json"
    same_id ← same_entry old_config (obj loaded.value) "deployment_id"
    require same_id other_deployment
    same_chain ← same_entry old_identity loaded.identity "chain_id"
    require same_chain other_deployment
    same_genesis ← same_entry old_identity loaded.identity "genesis_block_hash"
    require same_genesis other_deployment

  -- A replacement keeps the credentials of the deployment, which does not run.
  unfoldable pub old_credentials : Inputs → Loaded → Bool → Tree → Result Value
  old_credentials inputs loaded running root = do
    verify loads sha256 inputs.location root
    check_same root loaded
    refuse (is_given inputs.credentials_file)
        "replacement always retains existing database credentials"
    refuse running "run usdb-public down before replacing this deployment configuration"
    read_json loads sha256 root "credentials.json"

  unfoldable pub credentials_for : Inputs → Loaded → Bool → Option Tree → Result Value
  credentials_for inputs loaded running none = new_credentials inputs.credentials_file inputs.fresh
  credentials_for inputs loaded running (some root) = old_credentials inputs loaded running root

  -- `write_json`, where `dumps` writes the keys in the order in which they stand.
  abbrev pub written : Value → Node
  written value = file (dumps (sort_keys value))

  -- The files that `prepare` writes itself, before those of the renderers.
  unfoldable pub own_files : Loaded → Value → Value → Tree
  own_files loaded lock credentials =
      ("credentials.json", written credentials)
      ∷ ("config.json", written (obj loaded.value))
      ∷ ("identity.json", written loaded.identity)
      ∷ ("images.lock.json", written lock)
      ∷ []

  -- The manifest names the files that are there when it is written.
  abbrev pub manifest_of : String → Value → Tree → Value
  manifest_of location version files = obj (
      field "schema_version" deployment_schema (
        field "release_version" version
          (field "state_dir" (str location) (field "files" (obj (file_hashes sha256 files)) end))))

  unfoldable pub with_manifest : String → Value → Tree → Tree
  with_manifest location version files =
      files ++ (("deployment.json", written (manifest_of location version files)) ∷ [])

  -- What is read and refused before the staging directory is made.
  unfoldable pub plan_of : Inputs → Bool → Option Tree → Result Plan
  plan_of inputs running existing = do
    version ← verify_kit loads sha256 inputs.kit_tree inputs.has_gateway
    config ← inputs.config
    loaded ← load_config inputs.host inputs.kit config
    lock ← inputs.kit.lock
    refuse (is_there existing && not inputs.replace)
        "state directory already exists; use --replace after down to preserve and replace its configuration"
    credentials ← credentials_for inputs loaded running existing
    check_credentials credentials
    ok (record { version = version; loaded = loaded; lock = lock; credentials = credentials })

  -- The generation that is staged. `render` writes the documents.
  unfoldable pub stage : (Loaded → Value → Value → Result Tree) → Inputs → Plan → Result Tree
  stage render inputs p = do
    documents ← render p.loaded p.lock p.credentials
    ok (
        with_manifest inputs.location p.version
          (own_files p.loaded p.lock p.credentials ++ documents))
