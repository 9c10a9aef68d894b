-- ===== src/Deploy/UpTests.antt =====
-- A host on which `up` starts the services, and the theorem of `Deploy.Started` at it.
use usdb_explorer.Prelude.{
  ◌*◌, ◌≡◌, refl, ◌⊎◌, String, Bool, true, false, ◌&&◌, ◌||◌, ◌=s◌, List, [], ◌∷◌, none, some,
}
use usdb_explorer.Python.Value.{Value, end, field, str}
use usdb_explorer.Python.Exn.{ok, value_error}
use usdb_explorer.Rpc.Calls.{Outcome, done, failed}
use usdb_explorer.Rpc.Guard.{Keeps, world}
use usdb_explorer.Rpc.Tests.{reply_to, settings, identity, answer, method_of}
use usdb_explorer.Resources.{gib, text, auto}
use usdb_explorer.Deploy.Up.{Docker, Engine, Prepared, Order, arguments, order, up, remote_docker}
use usdb_explorer.Deploy.Started.{starts, IsReady, IsQuiet, up-IsGuarded}

abbrev is_start : List String → Bool
is_start (a ∷ b ∷ []) = (a =s "up") && (b =s "-d")
is_start _ = false

abbrev engine : String → Engine
engine system = record {
  docker_host = none;
  docker_context = false;
  context_host = "unix:///var/run/docker.sock";
  os_type = some "linux";
  operating_system = system;
  security_options = "name=seccomp" ∷ [];
}

-- The world is whether the services have been started. The relay prints the method it is asked for.
abbrev docker : String → Docker Bool
docker system = record {
  api_version = λ w. done "1.47" w;
  host_memory = λ w. done (16 * gib) w;
  containers = λ w. done (record { project = some "node"; service = none; memory = 1000 } ∷ []) w;
  engine = λ w. done (engine system) w;
  volume_labels = λ name w. done (some (field "identity" (str "one") end)) w;
  compose = λ args w. done tt (is_start args || w);
  fetch = λ url request w. done (reply_to request) w;
  relay = λ url request w. done (method_of request) w;
  loads = λ s. ok (answer s);
}

abbrev deployment : Prepared
deployment = record {
  qualified = ok (str "yes");
  document = record { name = "usdb-one"; services = ("backend", text "2g") ∷ [] };
  builds = [];
  labels = field "identity" (str "one") end;
  budget = 6;
  reservation = auto;
  is_local = true;
  is_bundled = true;
  settings = settings;
  identity = identity;
}

services_started : up (docker "Debian") deployment false ≡ done tt true
unfolding usdb_explorer.Deploy.Up.arguments usdb_explorer.Deploy.Up.is_recent
    usdb_explorer.Deploy.Up.endpoint_url usdb_explorer.Deploy.Up.is_local_engine
    usdb_explorer.Deploy.Up.has_labels usdb_explorer.Deploy.Up.is_own_volume
    usdb_explorer.Deploy.Up.require_version usdb_explorer.Deploy.Up.require_host
    usdb_explorer.Deploy.Up.require_database_identity usdb_explorer.Deploy.Up.require_local_docker
    usdb_explorer.Deploy.Up.relay_reply usdb_explorer.Deploy.Up.relay_fetch
    usdb_explorer.Deploy.Up.check_route usdb_explorer.Deploy.Up.check_local_relay
    usdb_explorer.Deploy.Up.start usdb_explorer.Deploy.Up.up usdb_explorer.Resources.split_last
    usdb_explorer.Resources.unit_bytes usdb_explorer.Resources.memory_bytes
    usdb_explorer.Resources.sum_limits usdb_explorer.Resources.is_own usdb_explorer.Resources.scan
    usdb_explorer.Resources.require_resources usdb_explorer.Rpc.Calls.◌>>=◌
    usdb_explorer.Rpc.Calls.◌>>◌ usdb_explorer.Rpc.Calls.pure usdb_explorer.Rpc.Calls.lift
    usdb_explorer.Rpc.Calls.check usdb_explorer.Rpc.Calls.attempt usdb_explorer.Rpc.Calls.for_each
    usdb_explorer.Rpc.Failure.hex_number usdb_explorer.Rpc.Failure.hex_int
    usdb_explorer.Rpc.Failure.classify_error usdb_explorer.Rpc.Failure.failure_of
    usdb_explorer.Rpc.Read.error_of usdb_explorer.Rpc.Read.first_error
    usdb_explorer.Rpc.Read.result_of usdb_explorer.Rpc.Read.read_reply
    usdb_explorer.Rpc.Read.read_rpc usdb_explorer.Rpc.Read.named_rpc
    usdb_explorer.Rpc.Chain.quantity usdb_explorer.Rpc.Chain.data_of
    usdb_explorer.Rpc.Chain.read_block usdb_explorer.Rpc.Chain.check_height
    usdb_explorer.Rpc.Chain.block usdb_explorer.Rpc.Chain.identity_check
    usdb_explorer.Rpc.Chain.same_checkpoint usdb_explorer.Rpc.Chain.same_genesis_head
    usdb_explorer.Rpc.Trace.pending_trace_sample usdb_explorer.Rpc.Preflight.hex_digits
    usdb_explorer.Rpc.Preflight.hex usdb_explorer.Rpc.Preflight.sample_address
    usdb_explorer.Rpc.Preflight.report_of usdb_explorer.Rpc.Preflight.identify
    usdb_explorer.Rpc.Preflight.pin usdb_explorer.Rpc.Preflight.read_state
    usdb_explorer.Rpc.Preflight.historical_sample usdb_explorer.Rpc.Preflight.older
    usdb_explorer.Rpc.Preflight.find_transaction usdb_explorer.Rpc.Preflight.choose_transaction
    usdb_explorer.Rpc.Preflight.without_sample usdb_explorer.Rpc.Preflight.conclude
    usdb_explorer.Rpc.Preflight.preflight usdb_explorer.Python.Value.lookup
    usdb_explorer.Python.Value.elements usdb_explorer.Python.Value.within
    usdb_explorer.Python.Text.occurs usdb_explorer.Python.Text.lower
    usdb_explorer.Python.Text.decimal_value usdb_explorer.Python.Text.partition
    usdb_explorer.Python.Text.decimal usdb_explorer.Python.Regex.full_match
services_started = refl

desktop_refused :
    up (docker "Docker Desktop") deployment false ≡ failed (value_error remote_docker) false
unfolding usdb_explorer.Deploy.Up.is_recent usdb_explorer.Deploy.Up.endpoint_url
    usdb_explorer.Deploy.Up.is_local_engine usdb_explorer.Deploy.Up.has_labels
    usdb_explorer.Deploy.Up.is_own_volume usdb_explorer.Deploy.Up.require_version
    usdb_explorer.Deploy.Up.require_host usdb_explorer.Deploy.Up.require_database_identity
    usdb_explorer.Deploy.Up.require_local_docker usdb_explorer.Deploy.Up.up
    usdb_explorer.Resources.split_last usdb_explorer.Resources.unit_bytes
    usdb_explorer.Resources.memory_bytes usdb_explorer.Resources.sum_limits
    usdb_explorer.Resources.is_own usdb_explorer.Resources.scan
    usdb_explorer.Resources.require_resources usdb_explorer.Rpc.Calls.◌>>=◌
    usdb_explorer.Rpc.Calls.◌>>◌ usdb_explorer.Rpc.Calls.lift usdb_explorer.Rpc.Calls.check
    usdb_explorer.Python.Value.lookup usdb_explorer.Python.Value.within
    usdb_explorer.Python.Text.occurs usdb_explorer.Python.Text.lower
    usdb_explorer.Python.Text.decimal_value usdb_explorer.Python.Text.partition
desktop_refused = refl

abbrev IsStopped : Bool → Type 0
IsStopped w = w ≡ false

orders_quiet :
    (system : String) (o : Order) → starts o ≡ false → Keeps IsStopped (order (docker system) o)
unfolding arguments
orders_quiet system Order.check_config h = record { keeps = λ w i. i }
orders_quiet system Order.pull h = record { keeps = λ w i. i }
orders_quiet system Order.check_proxy h = record { keeps = λ w i. i }
orders_quiet system Order.up_relay h = record { keeps = λ w i. i }
orders_quiet system Order.up_all h = cc
orders_quiet system Order.down_all h = record { keeps = λ w i. i }
orders_quiet system Order.test_proxy h = record { keeps = λ w i. i }
orders_quiet system Order.reload h = record { keeps = λ w i. i }
orders_quiet system (Order.build []) h = record { keeps = λ w i. i }
orders_quiet system (Order.build (a ∷ [])) h = record { keeps = λ w i. i }
orders_quiet system (Order.build (a ∷ b ∷ more)) h = record { keeps = λ w i. i }

host_quiet : IsQuiet (docker "Debian") IsStopped
host_quiet = record {
  api_version = record { keeps = λ w i. i };
  host_memory = record { keeps = λ w i. i };
  containers = record { keeps = λ w i. i };
  engine = record { keeps = λ w i. i };
  volume_labels = λ name. record { keeps = λ w i. i };
  orders = orders_quiet "Debian";
  fetch = λ url method params known. record { keeps = λ w i. i };
  relay = λ url method params known. record { keeps = λ w i. i };
}

up-IsGuarded_example :
    IsStopped (world (up (docker "Debian") deployment false)) ⊎ IsReady (docker "Debian") deployment
up-IsGuarded_example = up-IsGuarded (docker "Debian") IsStopped host_quiet deployment false (refl)
