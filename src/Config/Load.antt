-- ===== src/Config/Load.antt =====
-- `load_config` of explorer/public_config.py, on the parsed configuration: the checks of the parts
-- in the order of the code.
use usdb_explorer.Prelude.{String, Bool, true, false, if◌then◌else◌, List, [], ◌∷◌, none, some}
use usdb_explorer.Python.Value.{Value, Fields, end, obj, str, int, lookup, assign, equal, truthy}
use usdb_explorer.Python.Exn.{Result, ok, ◌>>=◌, ◌>>◌, require, get, get_or, subscript}
use usdb_explorer.Python.Regex.{Regex, class, then_, repeat, optional}
use usdb_explorer.Python.Text.{rstrip_code}
use usdb_explorer.Faucet.{validate_faucet}
use usdb_explorer.Security.{testnet_re, matches}
use usdb_explorer.Rpc.Chain.{hash_re}
use usdb_explorer.Config.{Url, fields, endpoint}
use usdb_explorer.Config.Upstream.{load_rpc}
use usdb_explorer.Config.Memory.{load_resources}
use usdb_explorer.Config.Ingress.{Host, Ingress, text_of, load_ingress}

-- The release beside the program: its networks by name, and `image_lock` of it.
pub record Kit : Type 0 where
  pub has_network : String → Bool
  pub network : String → Result Value
  pub lock : Result Value

abbrev config_keys : List String
config_keys = "schema_version" ∷ "deployment_id" ∷ "network" ∷ "rpc" ∷ "ingress" ∷ []

abbrev id_char : Regex
id_char = class ((b'a', b'z') ∷ (b'0', b'9') ∷ (b'-', b'-') ∷ [])

-- `[a-z][a-z0-9-]{1,47}`
abbrev deployment_re : Regex
deployment_re = then_ (class ((b'a', b'z') ∷ [])) (then_ id_char (repeat 46 (optional id_char)))

abbrev is_int : Value → Bool
is_int (int n) = true
is_int _ = false

-- The link to the site of the DAO: an origin, an empty text, or none.
unfoldable pub load_site : (String → Result Url) → Fields → Result Fields
load_site urlsplit config = elim (lookup "sourcedao_url" config) [
  | none ↦ ok config
  | some site ↦
      if truthy site
      then (do
        endpoint urlsplit site true
        ok (assign "sourcedao_url" (str (rstrip_code b'/' (text_of site))) config))
      else do
        require (equal site (str "")) "sourcedao_url must be an HTTP(S) origin or an empty string"
        ok config
]

unfoldable pub check_names : Fields → Result String
check_names config = do
  schema ← subscript (obj config) "schema_version"
  require (equal schema (str "usdb-public-config:v1"))
      "invalid public configuration schema or deployment_id"
  deployment ← subscript (obj config) "deployment_id"
  require (matches deployment_re deployment) "invalid public configuration schema or deployment_id"
  network ← subscript (obj config) "network"
  require (matches testnet_re network) "select a supported USDB testnet network"
  ok (text_of network)

-- The frozen identity of the network.
unfoldable pub load_identity : Kit → String → Result Value
load_identity kit network = do
  require (kit.has_network network) "network is not included in this release"
  identity ← kit.network network
  bundle ← get identity "bundle_id"
  require (equal bundle (str network)) "invalid frozen network identity"
  chain ← get identity "chain_id"
  require (is_int chain) "invalid frozen network identity"
  id ← get identity "network_id"
  require (is_int id) "invalid frozen network identity"
  genesis ← get_or identity "genesis_block_hash" (str "")
  require (matches hash_re genesis) "invalid frozen network identity"
  ok identity

-- `value.get("faucet", {}).get("enabled")`, as a test
unfoldable pub has_faucet : Fields → Result Bool
has_faucet config = do
  faucet ← get_or (obj config) "faucet" (obj end)
  enabled ← get faucet "enabled"
  ok (truthy enabled)

-- The configuration with its defaults, the identity of its network, and its checked ingress.
pub record Loaded : Type 0 where
  pub value : Fields
  pub identity : Value
  pub local : Bool
  pub rpc : Fields
  pub ingress : Ingress
  pub resources : Fields

abbrev pub with_parts : Fields → Fields → Fields → Fields → Fields
with_parts config rpc ingress resources =
    assign "resources" (obj resources)
      (assign "ingress" (obj ingress) (assign "rpc" (obj rpc) config))

-- What stands before the parts.
unfoldable pub load_names : Host → Kit → Value → Result (Fields × Value)
load_names h kit value = do
  given ← fields value config_keys ("resources" ∷ "faucet" ∷ "sourcedao_url" ∷ [])
  linked ← load_site h.urlsplit given
  config ← validate_faucet linked
  network ← check_names config
  identity ← load_identity kit network
  ok (config, identity)

unfoldable pub load_config : Host → Kit → Value → Result Loaded
load_config h kit value = do
  (config, identity) ← load_names h kit value
  (local, rpc) ← load_rpc h.urlsplit (← subscript (obj config) "rpc")
  faucet ← has_faucet config
  network ← subscript (obj config) "network"
  ingress ← load_ingress h network faucet kit.lock (← subscript (obj config) "ingress")
  resources ← load_resources local (lookup "resources" config)
  ok (record {
    value = with_parts config rpc ingress.settings resources;
    identity = identity;
    local = local;
    rpc = rpc;
    ingress = ingress;
    resources = resources;
  })
