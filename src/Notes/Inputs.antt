-- ===== src/Notes/Inputs.antt =====
-- The tracked inputs of a revision: `requires_notes` and `source_inputs` of
-- scripts/release_notes.py.
use usdb_explorer.Prelude.{
  String, ◌<>◌, Bool, true, false, not, List, [], ◌∷◌, contains, ◌=s◌, if◌then◌else◌,
}
use usdb_explorer.Python.Value.{Value, Fields, str, obj, end, field, keys, truthy, equal}
use usdb_explorer.Python.Exn.{
  Result, ok, raise, value_error, attribute_error, ◌>>=◌, ◌>>◌, require, get, get_or, subscript,
}
use usdb_explorer.Python.Text.{strip, starts_with, lt_str}
use usdb_explorer.Python.Regex.{Regex, text, then_, plus, digit, full_match}
use usdb_explorer.Python.Order.Sorting.{sort}
use usdb_explorer.Notes.Version.{revision_re}
use usdb_explorer.Notes.Changes.{Tools, Inputs}

-- The assignments at the top level of a Python file, as `ast.parse` and `ast.literal_eval` give
-- them: the names on the left, and the literal.
pub record Sources : Type 0 where
  pub tools : Tools
  pub assignments : String → Result (List (List String × Value))
  pub sha256 : String → String

abbrev policy_path : String
policy_path = ".release-notes/config.json"

abbrev policy : Fields
policy = field "schema_version" (str "usdb-explorer-release-notes-policy:v1") end

abbrev network_re : Regex
network_re = then_ (text "usdb-testnet-v") (plus digit)

unfoldable pub constant : List (List String × Value) → String → Result String
constant [] name = raise (value_error "missing compatibility constant")
constant ((targets, str value) ∷ rest) name =
    let later = constant rest name in if contains targets name then ok value else later
constant ((targets, _) ∷ rest) name =
    let later = constant rest name in
    if contains targets name then raise (value_error "must be a string") else later

abbrev identity_keys : List String
identity_keys =
    "bundle_id" ∷ "chain_id" ∷ "network_id" ∷ "genesis_block_hash" ∷ "btc_network_id"
    ∷ "btc_index_origin_height" ∷ "btc_activation_registry_id" ∷ []

-- `{key: d[key] for key in keys}`
unfoldable pub pick : Value → List String → Result Fields
pick d [] = ok end
pick d (key ∷ more) = do v ← subscript d key; rest ← pick d more; ok (field key v rest)

-- `{key: value["reference"] for key, value in images.items()}`, over sorted keys.
unfoldable pub references : Value → List String → Result Fields
references images [] = ok end
references images (key ∷ more) = do
  v ← subscript images key
  reference ← subscript v "reference"
  rest ← references images more
  ok (field key reference rest)

-- `d.items()` of a dict.
abbrev keys_of : Value → Result (List String)
keys_of (obj d) = ok (keys d)
keys_of _ = raise attribute_error

abbrev network_name : Value → Result String
network_name (str s) =
    if full_match network_re s then ok s else raise (value_error "invalid default network")
network_name _ = raise (value_error "invalid default network")

module _ (s : Sources) where
  abbrev show : String → String → Result String
  show revision path = s.tools.git ("show" ∷ (revision <> ":" <> path) ∷ [])

  unfoldable pub requires_notes : String → Result Bool
  requires_notes revision = do
    require (full_match revision_re revision) "invalid source revision"
    listed ← s.tools.git ("ls-tree" ∷ revision ∷ "--" ∷ policy_path ∷ [])
    if strip listed =s "" then ok false else do
      require (starts_with (strip listed) "100644 blob ")
          "release notes policy must be a regular file"
      raw ← show revision policy_path
      document ← s.tools.load_json raw policy_path
      require (equal (obj document) (obj policy)) "unsupported release notes policy"
      ok true

  abbrev load : String → String → String → Result Value
  load revision path source = do
    raw ← show revision path
    document ← s.tools.load_json raw source
    ok (obj document)

  -- The optional entry for a frontend that is built from source.
  frontend_entry : String → Value → Fields → Result Fields
  frontend_entry revision frontend values = do
    from_source ← get frontend "build_from_source"
    if not (truthy from_source) then ok values else do
      listed ← s.tools.git ("ls-tree" ∷ "-r" ∷ revision ∷ "--" ∷ "frontend" ∷ [])
      require (not (listed =s "")) "custom frontend source is missing"
      ok (field "frontend_source_sha256" (str (s.sha256 listed)) values)

  unfoldable pub source_inputs : String → Result Inputs
  unfolding frontend_entry
  source_inputs revision = do
    config ← load revision "explorer/config.example.json" "default configuration"
    network ← network_name (← get_or config "network" (str ""))
    catalog ← load revision ("explorer/networks/" <> network <> ".json") "network catalog"
    identity ← pick catalog identity_keys
    scope ← get_or catalog "btc_rules_scope" (str "legacy")
    contract ← load revision ("explorer/networks/" <> network <> ".contract.json") "RPC contract"
    lock ← load revision "explorer/assets/images.lock.json" "image lock"
    gateway ←
        s.tools.git (
          "ls-tree" ∷ "-r" ∷ revision ∷ "--" ∷ "gateway" ∷ "explorer/assets/Dockerfile.gateway"
          ∷ [])
    rpc ← subscript contract "rpc"
    config_schema ←
        constant (← s.assignments (← show revision "explorer/public_config.py")) "CONFIG_SCHEMA"
    deployment_schema ←
        constant (← s.assignments (← show revision "explorer/usdb_public.py")) "DEPLOYMENT_SCHEMA"
    images ← subscript lock "images"
    names ← keys_of images
    image_references ← references images (sort lt_str names)
    frontend ← subscript images "frontend"
    values ← frontend_entry revision frontend (
        field "network" (obj (field "btc_rules_scope" scope identity)) (
          field "rpc_contract" rpc (
            field "config_schema" (str config_schema) (
              field "deployment_schema" (str deployment_schema)
                (field "gateway_source_sha256" (str (s.sha256 gateway)) end)))))
    ok (record { values = values; images = image_references })
