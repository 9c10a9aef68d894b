-- ===== src/Deploy/Up.antt =====
-- The command `up` of explorer/usdb_public.py: what it checks of Docker, of the host and of the
-- upstream before it starts the services. The answers of Docker are decoded.
use usdb_explorer.Prelude.{
  ℕ, String, ◌<>◌, ◌*◌, ◌^◌, Bool, true, false, if◌then◌else◌, not, ◌&&◌, ◌||◌, ◌=s◌, ◌==◌, leb,
  ltb, List, [], ◌∷◌, Option, none, some, any, length,
}
use usdb_explorer.Python.Value.{Value, Fields, field, end, str, lookup, equal, null}
use usdb_explorer.Python.Exn.{Result, raise, value_error, process_error, rpc_failure}
use usdb_explorer.Python.Text.{codes, isdigit, decimal_value, partition, starts_with, occurs, lower}
use usdb_explorer.Rpc.Calls.{Io, ◌>>=◌, ◌>>◌, pure, lift, check, attempt, for_each}
use usdb_explorer.Rpc.Read.{read_rpc}
use usdb_explorer.Rpc.Chain.{Block, NetworkIdentity, identity_check, same_checkpoint}
use usdb_explorer.Rpc.Preflight.{Settings, Report, hex, preflight}
use usdb_explorer.Resources.{Document, Container, Reservation, sum_limits, require_resources}

-- The endpoint of Docker: DOCKER_HOST, whether DOCKER_CONTEXT is set, the host of the context, and
-- what `docker info` says of the engine.
pub record Engine : Type 0 where
  pub docker_host : Option String
  pub docker_context : Bool
  pub context_host : String
  pub os_type : Option String
  pub operating_system : String
  pub security_options : List String

-- What Docker is asked, what Compose is told, the transport of the upstream, what `wget` prints in the
-- relay, and `json.loads`.
pub record Docker (W : Type 0) : Type 0 where
  pub api_version : Io W String
  pub host_memory : Io W ℕ
  pub containers : Io W (List Container)
  pub engine : Io W Engine
  pub volume_labels : String → Io W (Option Fields)
  pub compose : List String → Io W (Unit {0})
  pub fetch : String → Value → Io W Value
  pub relay : String → Value → Io W String
  pub loads : String → Result Value

-- A deployment that `verify` has accepted.
pub record Prepared : Type 0 where
  pub qualified : Result Value
  pub document : Document
  pub builds : List String
  pub labels : Fields
  pub budget : ℕ
  pub reservation : Reservation
  pub is_local : Bool
  pub is_bundled : Bool
  pub settings : Settings
  pub identity : NetworkIdentity

-- What Compose is told.
pub data Order : Type 0 where
  check_config pull check_proxy up_relay up_all down_all test_proxy reload : Order
  build : List String → Order

-- The commands that act on the services.
pub data Command : Type 0 where
  up_services down_services reload : Command

unfoldable pub arguments : Order → List String
arguments Order.check_config = "config" ∷ "--quiet" ∷ []
arguments (Order.build names) = "build" ∷ names
arguments Order.pull = "pull" ∷ []
arguments Order.check_proxy = "run" ∷ "--rm" ∷ "--no-deps" ∷ "proxy" ∷ "nginx" ∷ "-t" ∷ []
arguments Order.up_relay =
    "up" ∷ "-d" ∷ "--wait" ∷ "--wait-timeout" ∷ "60" ∷ "rpc-host" ∷ "rpc-relay" ∷ []
arguments Order.up_all = "up" ∷ "-d" ∷ []
arguments Order.down_all = "down" ∷ []
arguments Order.test_proxy = "exec" ∷ "-T" ∷ "proxy" ∷ "nginx" ∷ "-t" ∷ []
arguments Order.reload = "exec" ∷ "-T" ∷ "proxy" ∷ "nginx" ∷ "-s" ∷ "reload" ∷ []

abbrev is_pair : String → Option String → Bool
is_pair major none = false
is_pair major (some minor) =
    isdigit major
    && isdigit minor
    && (ltb 1 (decimal_value 0 major)
        || (decimal_value 0 major == 1 && leb 44 (decimal_value 0 minor)))

-- Two numbers that are at least 1 and 44.
unfoldable pub is_recent : String → Bool
is_recent version = let (major, minor) = partition b'.' version in is_pair major minor

abbrev or_text : Option String → String → String
or_text none default = default
or_text (some s) default = if s =s "" then default else s

unfoldable pub endpoint_url : Engine → String
endpoint_url engine =
    or_text (if engine.docker_context then none else engine.docker_host) engine.context_host

abbrev is_linux : Option String → Bool
is_linux none = false
is_linux (some s) = s =s "linux"

unfoldable pub is_local_engine : Engine → Bool
is_local_engine engine =
    starts_with (endpoint_url engine) "unix://"
    && is_linux engine.os_type
    && not (occurs "desktop" (lower engine.operating_system))
    && not (any (occurs "rootless") engine.security_options)

abbrev value_at : Option Value → Value
value_at none = null
value_at (some v) = v

-- `all(labels.get(key) == value for key, value in expected.items())`
unfoldable pub has_labels : Fields → Fields → Bool
has_labels labels end = true
has_labels labels (field key value rest) =
    equal (value_at (lookup key labels)) value && has_labels labels rest

-- A volume that is there has to have the labels of the deployment.
unfoldable pub is_own_volume : Option Fields → Fields → Bool
is_own_volume none expected = true
is_own_volume (some labels) expected = has_labels labels expected

abbrev pub old_docker : String
old_docker = "public services require Docker Engine 25+ for the isolated multi-network topology"

abbrev pub other_database : String
other_database =
    "existing explorer database identity or credentials differ; restore credentials before up"

abbrev pub remote_docker : String
remote_docker = "local-node RPC requires a local, rootful Linux Docker Engine"

abbrev pub relay_routes : List (String × String)
relay_routes =
    ("read_url", "http://rpc-relay:8080/read")
    ∷ ("trace_url", "http://rpc-relay:8080/trace")
    ∷ ("broadcast_url", "http://rpc-relay:8080/broadcast")
    ∷ []

-- What the fetcher makes of a failure.
abbrev pub relay_error : Result Value → Result Value
relay_error (raise process_error) = raise (value_error "local RPC relay unavailable or malformed")
relay_error (raise (value_error message)) =
    raise (value_error "local RPC relay unavailable or malformed")
relay_error r = r

-- `except ValueError as error: raise ValueError(f"container {key}: {error}")`
abbrev pub container_error : String → Result (Unit {0}) → Result (Unit {0})
container_error key (raise (value_error message)) =
    raise (value_error ("container " <> key <> ": " <> message))
container_error key (raise (rpc_failure category detail)) =
    raise (value_error ("container " <> key <> ": [" <> category <> "] " <> detail))
container_error key r = r

-- The checkpoint of a report, as `same_checkpoint` reads it.
abbrev pub checkpoint_block : ℕ × String → Block
checkpoint_block (number, hash) = record {
  fields = end;
  hash = hash;
  number_text = str (hex number);
  number = number;
  transactions = [];
}

module _ {W : Type 0} (docker : Docker W) where
  abbrev pub order : Order → Io W (Unit {0})
  order o = docker.compose (arguments o)

  unfoldable pub require_version : Io W (Unit {0})
  require_version = do version ← docker.api_version; check (is_recent version) old_docker

  -- `require_resources(config, document)`
  unfoldable pub require_host : Prepared → Io W ℕ
  require_host p = do
    host ← docker.host_memory
    lift (sum_limits p.document.services)
    containers ← docker.containers
    lift (require_resources p.budget p.reservation p.document host containers)

  unfoldable pub require_database_identity : Prepared → Io W (Unit {0})
  require_database_identity p = do
    labels ← docker.volume_labels (p.document.name <> "_postgres-data")
    check (is_own_volume labels p.labels) other_database

  unfoldable pub require_local_docker : Io W (Unit {0})
  require_local_docker = do engine ← docker.engine; check (is_local_engine engine) remote_docker

  abbrev pub if_local : Bool → Io W (Unit {0}) → Io W (Unit {0})
  if_local true m = m
  if_local false m = pure tt

  unfoldable pub relay_reply : String → Value → Io W Value
  relay_reply url payload = do
    printed ← docker.relay url payload
    check (leb (length (codes printed)) (8 * 1024 ^ 2))
        "relay response exceeds the acceptance size limit"
    lift (docker.loads printed)

  -- The fetcher of `check_local_relay`.
  unfoldable pub relay_fetch : String → Value → Io W Value
  relay_fetch url payload = attempt (relay_reply url payload) >>= λ r. lift (relay_error r)

  unfoldable pub check_route : NetworkIdentity → ℕ × String → String × String → Io W (Unit {0})
  check_route identity checkpoint (key, url) =
      attempt (
        identity_check (read_rpc (relay_fetch url)) identity
        >> same_checkpoint (checkpoint_block checkpoint) (read_rpc (relay_fetch url)))
      >>= λ r. lift (container_error key r)

  unfoldable pub check_local_relay : Prepared → Report → Io W (Unit {0})
  check_local_relay p report = for_each (check_route p.identity report.checkpoint) relay_routes

  abbrev pub images : List String → Io W (Unit {0})
  images [] = order Order.pull
  images (name ∷ names) = order (Order.build (name ∷ names))

  -- What follows the acceptance of the upstream.
  unfoldable pub start : Prepared → Report → Io W (Unit {0})
  start p report = do
    order Order.check_config
    images p.builds
    if_local p.is_bundled (order Order.check_proxy)
    if_local p.is_local (order Order.up_relay >> check_local_relay p report)
    order Order.up_all

  unfoldable pub up : Prepared → Io W (Unit {0})
  up p = do
    lift p.qualified
    require_version
    require_host p
    require_database_identity p
    if_local p.is_local require_local_docker
    report ← preflight (λ url. read_rpc (docker.fetch url)) p.settings p.identity
    start p report

  abbrev pub down : Io W (Unit {0})
  down = order Order.down_all

  -- The command `reload-proxy`.
  unfoldable pub reload_proxy : Prepared → Io W (Unit {0})
  reload_proxy p = do
    check p.is_bundled
        "external ingress is managed by the server administrator; no bundled proxy to reload"
    order Order.test_proxy
    order Order.reload

  unfoldable pub execute : Command → Prepared → Io W (Unit {0})
  execute Command.up_services p = up p
  execute Command.down_services p = down
  execute Command.reload p = reload_proxy p
